-- ===== src/Realtime/Delivery.antt =====
-- What a poll of apps/server/src/modules/realtime/index.ts sends to a peer.
use mathlib.Core.List.{append-nil, append_assoc}
use j_messenger.Common.{
  ℕ, suc, ◌≤◌, ◌≡◌, refl, sym, subst, true, false, not, ◌||◌, List, [], ◌∷◌, ◌++◌, map, Option,
  none, String, arith, ltb, leb, ◌-◌, if_intro, is_some, Bool-cases, Option-cases, inl, inr, ◌⊎◌,
}
use j_messenger.Common.Results.{Result, Result-cases, ok}
use j_messenger.Store.{Store}
use j_messenger.Identity.{session_active}
use j_messenger.Stream.{EventRow, Stream, ScanPage, high_watermark, scan, window}
use j_messenger.Stream.Scan.{scan-IsPage, window_empty}
use j_messenger.Sync.Pages.{hydrate_all}
use j_messenger.Realtime.{
  Limits, Peer, Frame, event_frame, Wire, close_peer, send, Ending, finished, stopped, threw,
  deliver, settle, send_page, poll_peer,
}

module _ {E : Type 0} where
  -- Its socket is open, and the server has not closed it.
  pub record IsLive (p : Peer E) : Type 0 where
    pub unclosed : p.closed ≡ none
    pub socket_open : p.is_open ≡ true

  -- While a poll waits, nothing else sends events to the peer or moves it: no other poll of it runs.
  pub record IsQuiet (meanwhile : ℕ → Peer E → Peer E) : Type 0 where
    pub sent : (n : ℕ) (p : Peer E) → (meanwhile n p).sent ≡ p.sent
    pub position : (n : ℕ) (p : Peer E) → (meanwhile n p).position ≡ p.position
    pub context : (n : ℕ) (p : Peer E) → (meanwhile n p).context ≡ p.context

  close_peer-closed : (reason : String) (p : Peer E) → is_some (close_peer reason p).closed ≡ true
  unfolding close_peer
  close_peer-closed reason p = ground arith

  module _ (l : Limits) (w : Wire E) where
    -- A frame is handed to the socket, or the peer is no longer live.
    send-false :
        (f : Frame E) (p : Peer E)
        → (send l w f p).0 ≡ false
        → (is_some (send l w f p).1.closed ≡ true) ⊎ ((send l w f p).1.is_open ≡ false)
    unfolding send
    send-false f p e =
        ground (arith, close_peer-closed "backpressure" p, close_peer-closed "send_failed" p)

    send-true :
        (f : Frame E) (p : Peer E)
        → (send l w f p).0 ≡ true
        → ((send l w f p).1.sent ≡ p.sent ++ f ∷ []) × ((send l w f p).1.position ≡ p.position)
    unfolding send
    send-true f p e = ground arith

    module _ (hydrate : EventRow → Result (Option E)) (meanwhile : ℕ → Peer E → Peer E)
        (quiet : IsQuiet meanwhile) where
      deliver-hydrate_all :
          (n : ℕ) (rs : List EventRow) (p p' : Peer E)
          → deliver l w hydrate meanwhile n rs p ≡ (finished, p')
          → (es : List E) × (hydrate_all hydrate rs ≡ ok es)
            × (p'.sent ≡ p.sent ++ map event_frame es)
      unfolding deliver
      deliver-hydrate_all n [] p p' e = ([], refl, ground (arith, append-nil p.sent))
      deliver-hydrate_all n (r ∷ rs) p p' e =
          let q = meanwhile n p in
          elim (Result-cases (hydrate r)) [
            | inr (x, broken) ↦ absurd (ground arith)
            | inl (o, hydrated) ↦ elim (Option-cases o) [
              | inl hidden ↦
                  let rest : deliver l w hydrate meanwhile (suc n) rs q ≡ (finished, p') =
                    ground arith in
                  let (es, exact, sent) = deliver-hydrate_all (suc n) rs q p' rest in
                  (es, ground (arith, exact), ground (arith, sent, quiet.sent n p))
              | inr (x, shown) ↦
                  let f = event_frame x in
                  elim (Bool-cases (send l w f q).0) [
                    | inr unsent ↦ absurd (ground arith)
                    | inl handed ↦
                        let q' = (send l w f q).1 in
                        let rest : deliver l w hydrate meanwhile (suc n) rs q' ≡ (finished, p') =
                          ground arith in
                        let (es, exact, sent) = deliver-hydrate_all (suc n) rs q' p' rest in
                        (
                          x ∷ es,
                          ground (arith, exact),
                          ground (
                            arith,
                            sent,
                            (send-true f q handed).0,
                            quiet.sent n p,
                            append_assoc p.sent (f ∷ []) (map event_frame es),
                          ),
                        )
                  ]
            ]
          ]

      -- A loop that stops leaves a peer that is not live.
      deliver-stopped :
          (n : ℕ) (rs : List EventRow) (p p' : Peer E)
          → deliver l w hydrate meanwhile n rs p ≡ (stopped, p')
          → (is_some p'.closed ≡ true) ⊎ (p'.is_open ≡ false)
      unfolding deliver
      deliver-stopped n [] p p' e = absurd (ground arith)
      deliver-stopped n (r ∷ rs) p p' e =
          let q = meanwhile n p in
          elim (Result-cases (hydrate r)) [
            | inr (x, broken) ↦ absurd (ground arith)
            | inl (o, hydrated) ↦ elim (Option-cases o) [
              | inl hidden ↦ deliver-stopped (suc n) rs q p' (ground arith)
              | inr (x, shown) ↦
                  let f = event_frame x in
                  elim (Bool-cases (send l w f q).0) [
                    | inr unsent ↦ ground (arith, send-false f q unsent)
                    | inl handed ↦ deliver-stopped (suc n) rs (send l w f q).1 p' (ground arith)
                  ]
            ]
          ]

      -- From one state of a peer to another it has been sent the events between its two positions.
      abbrev pub IsSent : List EventRow → Peer E → Peer E → Type 0
      IsSent rows p p' =
          (es : List E) × (p.position ≤ p'.position)
          × (hydrate_all hydrate (window p.context.server_id p.position p'.position rows) ≡ ok es)
          × (p'.sent ≡ p.sent ++ map event_frame es)

      settle-IsSent :
          (page : ScanPage) (marked : Stream) (p : Peer E) (ending : Ending) (d : Peer E)
          → page.rows ≡ window p.context.server_id p.position page.scanned_through marked.rows
          → p.position ≤ page.scanned_through
          → deliver l w hydrate meanwhile 2 page.rows (meanwhile 1 p) ≡ (ending, d)
          → IsLive (settle l w hydrate meanwhile page.scanned_through (ending, d))
          → IsSent marked.rows p (settle l w hydrate meanwhile page.scanned_through (ending, d))
      unfolding settle
      settle-IsSent page marked p finished d exact le e live =
          let (es, hydrated, sent) = deliver-hydrate_all 2 page.rows (meanwhile 1 p) d e in
          (es, le, ground (arith, hydrated, exact), ground (arith, sent, quiet.sent 1 p))
      settle-IsSent page marked p stopped d exact le e live = absurd (
          ground (
            arith,
            deliver-stopped 2 page.rows (meanwhile 1 p) d e,
            live.unclosed,
            live.socket_open,
          ))
      settle-IsSent page marked p threw d exact le e live =
          absurd (ground (arith, close_peer-closed "delivery_failed" d, live.unclosed))

      send_page-IsSent :
          (through : ℕ) (marked : Stream) (p : Peer E)
          → p.position ≤ through
          → IsLive (send_page l w hydrate meanwhile through marked p)
          → IsSent marked.rows p (send_page l w hydrate meanwhile through marked p)
      unfolding send_page
      send_page-IsSent through marked p le live =
          elim (Result-cases (scan p.context.server_id p.position through 100 marked)) [
            | inr (x, broken) ↦
                absurd (
                  ground
                    (arith, close_peer-closed "delivery_failed" (meanwhile 1 p), live.unclosed))
            | inl (page, scanned) ↦
                let is_page =
                  scan-IsPage p.context.server_id p.position through 100 marked page le scanned in
                let d = deliver l w hydrate meanwhile 2 page.rows (meanwhile 1 p) in
                let end = settle l w hydrate meanwhile page.scanned_through d in
                let same_end : send_page l w hydrate meanwhile through marked p ≡ end =
                  ground arith in
                subst (IsSent marked.rows p) (sym same_end) (
                  settle-IsSent page marked p d.0 d.1 is_page.exact is_page.lower refl
                    (subst IsLive same_end live))
          ]

      unmoved-IsSent :
          (rows : List EventRow) (p q : Peer E)
          → q.position ≡ p.position
          → q.sent ≡ p.sent
          → IsSent rows p q
      unmoved-IsSent rows p q same_place same_sent = (
        [],
        omega (arith, same_place),
        ground (arith, same_place, window_empty p.context.server_id p.position rows),
        ground (arith, same_sent, append-nil p.sent),
      )

      after_wait-IsSent :
          (rows : List EventRow) (p p' : Peer E) → IsSent rows (meanwhile 0 p) p' → IsSent rows p p'
      after_wait-IsSent rows p p' (es, le, hydrated, sent) = (
        es,
        omega (arith, le, quiet.position 0 p),
        ground (arith, hydrated, quiet.position 0 p, quiet.context 0 p),
        ground (arith, sent, quiet.sent 0 p),
      )

      -- What a poll that closes the peer leaves is not live.
      closed-IsSent :
          (reason : String) (rows : List EventRow) (p : Peer E)
          → IsLive (close_peer reason p)
          → IsSent rows p (close_peer reason p)
      closed-IsSent reason rows p live =
          absurd (ground (arith, close_peer-closed reason p, live.unclosed))

      -- If no other poll of a peer runs meanwhile, a poll that leaves it live has sent it exactly the
      -- events that its user may see between its old position and its new one, in their order and
      -- each once; the position does not fall.
      pub poll_peer-IsSent :
          (s : Store) (begun marked : Stream) (now : ℕ) (p : Peer E)
          → IsLive (poll_peer l w hydrate meanwhile s begun marked now p)
          → IsSent marked.rows p (poll_peer l w hydrate meanwhile s begun marked now p)
      unfolding poll_peer
      poll_peer-IsSent s begun marked now p =
          let P : Peer E → Type 0 = λ x. IsLive x → IsSent marked.rows p x in
          let q = meanwhile 0 p in
          if_intro P (is_some p.closed || p.paused)
            (λ h live. unmoved-IsSent marked.rows p p refl refl)
            (λ h.
              if_intro P (not (session_active p.context now s))
                (λ k. closed-IsSent "session_revoked" marked.rows p)
                (λ k.
                  if_intro P (ltb l.heartbeat_timeout_ms (now - p.last_pong_at))
                    (λ m. closed-IsSent "heartbeat_timeout" marked.rows p)
                    (λ m.
                      if_intro P (ltb l.max_buffered_bytes p.buffered_amount)
                        (λ b. closed-IsSent "backpressure" marked.rows p)
                        (λ b.
                          if_intro P (leb (high_watermark begun) q.position)
                            (λ none live.
                              unmoved-IsSent marked.rows p q (quiet.position 0 p) (quiet.sent 0 p))
                            (λ more live.
                              after_wait-IsSent marked.rows p
                                (send_page l w hydrate meanwhile (high_watermark begun) marked q)
                                (send_page-IsSent (high_watermark begun) marked q (ground arith)
                                  live))))))
