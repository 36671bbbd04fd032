-- ===== src/Realtime.antt =====
-- apps/server/src/modules/realtime/index.ts: a peer is a socket that the events of the outbox are
-- sent to. Other handlers run where the code awaits; `Meanwhile` says what a peer is then.
pub mod Delivery
use j_messenger.Common.{
  ℕ, suc, ◌+◌, ◌-◌, Bool, true, false, not, ◌&&◌, ◌||◌, List, [], ◌∷◌, ◌++◌, Option, none, some,
  String, ltb, leb, ◌==◌, same, if◌then◌else◌, is_some,
}
use j_messenger.Common.Results.{Result, ok, err}
use j_messenger.Identity.{session_active}
use j_messenger.Store.{Store, Context}
use j_messenger.Stream.{EventRow, Stream, high_watermark, scan}
use j_messenger.Sync.{Options, ready}

-- The limits of `createRealtimeService`
pub record Limits : Type 0 where
  pub poll_ms : ℕ
  pub heartbeat_ms : ℕ
  pub heartbeat_timeout_ms : ℕ
  pub max_buffered_bytes : ℕ

-- The limits that it accepts
unfoldable pub valid_limits : Limits → Bool
valid_limits l =
    leb 25 l.poll_ms
    && leb 1000 l.heartbeat_ms
    && leb l.heartbeat_ms l.heartbeat_timeout_ms
    && leb 1024 l.max_buffered_bytes

abbrev is_origin : String → Option String → Bool
is_origin public none = false
is_origin public (some o) = same o public

-- The requests that the route takes: whether a cookie and a bearer token came, the origin, whether the
-- query names a credential, and whether the session is active
unfoldable pub admits : String → Bool → Bool → Option String → Bool → Bool → Bool
admits public cookie bearer origin in_query active =
    let denied =
      if cookie
      then not (is_origin public origin)
      else is_some origin && not (is_origin public origin) in
    not denied && not in_query && (if cookie then not bearer else bearer) && active

-- What is sent: the frame `ready`, or an event
pub data Frame (E : Type 0) : Type 0 where
  ready_frame : String → ℕ → Frame E
  event_frame : E → Frame E

-- `Peer`, with what is seen of its socket: whether it is open, the bytes that wait in it, and the
-- frames that were handed to it. A closed peer has the reason.
pub record Peer (E : Type 0) : Type 0 where
  pub context : Context
  pub position : ℕ
  pub last_pong_at : ℕ
  pub paused : Bool
  pub closed : Option String
  pub is_open : Bool
  pub buffered_amount : ℕ
  pub sent : List (Frame E)

-- The length of a frame as JSON in UTF-8, and whether the socket throws when it is handed it
pub record Wire (E : Type 0) : Type 0 where
  pub byte_length : Frame E → ℕ
  pub throws : Frame E → Bool

-- How the loop over the rows ends: at their end, at a frame that is not sent, or with an error
pub data Ending : Type 0 where
  finished stopped threw : Ending

module _ {E : Type 0} where
  -- `closePeer`
  unfoldable pub close_peer : String → Peer E → Peer E
  close_peer reason p = if is_some p.closed then p else record p { closed = some reason }

  -- The peer that a route makes of a socket
  abbrev pub new_peer : Context → ℕ → Peer E
  new_peer c now = record {
    context = c;
    position = 0;
    last_pong_at = now;
    paused = true;
    closed = none;
    is_open = true;
    buffered_amount = 0;
    sent = [];
  }

  -- The handlers of 'close' and 'error', and `close` of the service
  abbrev pub on_close : Peer E → Peer E
  on_close p = close_peer "client_closed" p

  abbrev pub on_error : Peer E → Peer E
  on_error p = close_peer "socket_error" p

  abbrev pub shut_down : List (Peer E) → List (Peer E)
  shut_down [] = []
  shut_down (p ∷ ps) = close_peer "server_shutdown" p ∷ shut_down ps

  -- The handler of 'pong'
  abbrev pub on_pong : ℕ → Peer E → Peer E
  on_pong now p = record p { last_pong_at = now }

  module _ (l : Limits) where
    -- The timer of the heartbeat: whether `ping` throws
    unfoldable pub heartbeat : Bool → ℕ → Peer E → Peer E
    heartbeat throws now p =
        if is_some p.closed || not p.is_open
        then p
        else if ltb l.heartbeat_timeout_ms (now - p.last_pong_at)
        then close_peer "heartbeat_timeout" p
        else if throws
        then close_peer "heartbeat_failed" p
        else p

    module _ (w : Wire E) where
      -- `send`
      unfoldable pub send : Frame E → Peer E → Bool × Peer E
      send f p =
          if is_some p.closed || not p.is_open
          then (false, p)
          else if ltb l.max_buffered_bytes (p.buffered_amount + w.byte_length f)
          then (false, close_peer "backpressure" p)
          else if w.throws f
          then (false, close_peer "send_failed" p)
          else (
            true,
            record p {
              sent = p.sent ++ f ∷ [];
              buffered_amount = p.buffered_amount + w.byte_length f;
            },
          )

      unpause : Bool × Peer E → Peer E
      unpause (true, p) = record p { paused = false }
      unpause (false, p) = p

      -- `ready`, once `sync.ready` has answered; an error closes the peer
      unfoldable pub ready_peer : Result (String × ℕ) → Peer E → Peer E
      unfolding unpause
      ready_peer (err e) p = close_peer "ready_failed" p
      ready_peer (ok (cursor, position)) p =
          unpause (send (ready_frame cursor position) (record p { position = position }))

      module _ (hydrate : EventRow → Result (Option E)) (meanwhile : ℕ → Peer E → Peer E) where
        -- The loop over the rows of a page; `n` counts the awaits.
        unfoldable pub deliver : ℕ → List EventRow → Peer E → Ending × Peer E
        deliver n [] p = (finished, p)
        deliver n (r ∷ rs) p = elim (hydrate r) [
          | err e ↦ (threw, meanwhile n p)
          | ok none ↦ deliver (suc n) rs (meanwhile n p)
          | ok (some e) ↦ elim (send (event_frame e) (meanwhile n p)).0 [
            | true ↦ deliver (suc n) rs (send (event_frame e) (meanwhile n p)).1
            | false ↦ (stopped, (send (event_frame e) (meanwhile n p)).1)
          ]
        ]

        -- The end of `pollPeer`, and the `catch` of `poll`
        unfoldable pub settle : ℕ → Ending × Peer E → Peer E
        settle scanned_through (finished, p) = record p { position = scanned_through }
        settle scanned_through (stopped, p) = p
        settle scanned_through (threw, p) = close_peer "delivery_failed" p

        -- From the scan on
        unfoldable pub send_page : ℕ → Stream → Peer E → Peer E
        send_page through marked p = elim (scan p.context.server_id p.position through 100 marked) [
          | err e ↦ close_peer "delivery_failed" (meanwhile 1 p)
          | ok page ↦ settle page.scanned_through (deliver 2 page.rows (meanwhile 1 p))
        ]

        -- `pollPeer` under the `catch` of `poll`: the tables and the outbox as it begins, and the
        -- outbox when the high watermark has come back
        unfoldable pub poll_peer : Store → Stream → Stream → ℕ → Peer E → Peer E
        poll_peer s begun marked now p =
            if is_some p.closed || p.paused
            then p
            else if not (session_active p.context now s)
            then close_peer "session_revoked" p
            else if ltb l.heartbeat_timeout_ms (now - p.last_pong_at)
            then close_peer "heartbeat_timeout" p
            else if ltb l.max_buffered_bytes p.buffered_amount
            then close_peer "backpressure" p
            else if leb (high_watermark begun) (meanwhile 0 p).position
            then meanwhile 0 p
            else send_page (high_watermark begun) marked (meanwhile 0 p)
