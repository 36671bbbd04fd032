-- ===== src/Client/Catchup.antt =====
-- `sync`, `applyBuffered` and the frames of a socket, in packages/client-core/src/index.ts. A text
-- that is null or not given stands as the empty text, from which the code does not tell it.
use j_messenger.Common.{
  ℕ, zero, suc, ◌+◌, Bool, true, false, not, ◌&&◌, ◌||◌, List, [], ◌∷◌, Option, none, some, String,
  ltb, leb, ◌==◌, same, if◌then◌else◌, or_else,
}
use j_messenger.Common.Sorting.{sort}
use j_messenger.Common.Results.{unauthorized, sync_reset_required}
use j_messenger.Client.{Client, Snapshot, Event, current, empty_snapshot, apply_event, apply_events}
use j_messenger.Client.Wire.{
  from_server, invalid_response, got, threw, receive, SyncPage, Network, Run, return, throw,
  and_then, load_snapshot,
}

-- `disconnect`
unfoldable pub disconnect : Client → Client
disconnect c = record c { socket = false; retry_timer = false }

-- What `login`, `resumeSession` and `logout` begin with, and the empty snapshot
unfoldable pub begin_generation : Client → Client
unfolding empty_snapshot disconnect
begin_generation c =
    let g = suc c.generation in
    record (disconnect c) {
      generation = g;
      message_retry_timers = [];
      message_retry_attempts = [];
      buffered = [];
      last_event_id = 0;
      message_tombstones = [];
      file_tombstones = [];
      snapshot = empty_snapshot g;
    }

-- `logout(false)`
unfoldable pub clear_session : Client → Client
unfolding begin_generation
clear_session c = record (begin_generation c) { sync_timer = false }

abbrev event_le : Event → Event → Bool
event_le a b = leb a.event_id b.event_id

unfoldable pub floor_of : ℕ → List (ℕ × ℕ) → Option ℕ
floor_of v [] = none
floor_of v ((w, p) ∷ ps) = if w == v then some p else floor_of v ps

-- `floor`
abbrev floor_for : Option ℕ → Snapshot → Option ℕ
floor_for none s = some s.snapshot_position
floor_for (some v) s = floor_of v s.position_by_conversation

abbrev pub above : ℕ → Option ℕ → Bool
above id none = true
above id (some floor) = ltb floor id

-- The loop of `applyBuffered`
unfoldable pub apply_above : ℕ → List Event → Client → Client
apply_above g [] c = c
apply_above g (e ∷ es) c =
    apply_above g es
      (if above e.event_id (floor_for e.conversation_id c.snapshot) then apply_event g e c else c)

-- `applyBuffered`
unfoldable pub apply_buffered : ℕ → Client → Client
apply_buffered g c = apply_above g (sort event_le c.buffered) (record c { buffered = [] })

-- The end of the range: the one asked for, else the first that the server names.
abbrev pub first_text : String → String → String
first_text fixed named = if same fixed "" then named else fixed

abbrev pub differs : Option ℕ → ℕ → Bool
differs none p = false
differs (some q) p = not (q == p)

-- The responses that `sync` takes as broken, given the cursor and the end of the range
abbrev pub is_broken : String → String → Option ℕ → SyncPage → Client → Bool
is_broken cursor fixed fixed_position r c =
    not (same r.through (first_text fixed r.through))
    || differs fixed_position r.through_position
    || ltb r.through_position r.scanned_through
    || ltb r.scanned_through c.snapshot.snapshot_position
    || (r.has_more && same r.next_cursor cursor)

-- A page that is not broken
unfoldable pub take_page : ℕ → SyncPage → Client → Client
take_page g r c =
    let c' = apply_events g r.events c in
    record c' {
      snapshot = record c'.snapshot {
        sync_cursor = some r.next_cursor;
        snapshot_position = r.scanned_through;
      };
    }

-- `publish({ ...emptySnapshot(g), user })` and the variables that a reset clears
unfoldable pub begin_reset : ℕ → Client → Client
unfolding empty_snapshot
begin_reset g c = record c {
  last_event_id = 0;
  message_tombstones = [];
  file_tombstones = [];
  bootstrapping = true;
  snapshot = record (empty_snapshot g) { user = c.snapshot.user };
}

abbrev pub set_cursor : Option String → Client → Client
set_cursor cursor c = record c { snapshot = record c.snapshot { sync_cursor = cursor } }

abbrev pub end_reset : ℕ → Client → Client
end_reset g c = record (apply_buffered g c) { bootstrapping = false }

module _ (net : Network) where
  -- The loop of `sync`, with `left` pages allowed; `n` counts the requests.
  unfoldable pub sync_pages : ℕ → ℕ → ℕ → String → String → Option ℕ → Client → Run
  sync_pages zero n g cursor fixed fixed_position c = throw invalid_response c
  sync_pages (suc left) n g cursor fixed fixed_position c =
      let a = net.sync_page n (record { after = cursor; through = fixed }) c in
      elim (receive c.generation a.reply a.client) [
        | threw e ↦ throw e a.client
        | got r ↦
            let c' = take_page g r a.client in
            elim (current g a.client) [
              | false ↦ return a.client
              | true ↦ elim (is_broken cursor fixed fixed_position r a.client) [
                | true ↦ throw invalid_response a.client
                | false ↦ elim r.has_more [
                  | true ↦
                      sync_pages left (suc n) g r.next_cursor (first_text fixed r.through)
                        (some r.through_position) c'
                  | false ↦ return c'
                ]
              ]
            ]
      ]

  -- The reset: load again, then follow the stream as `follow` does.
  unfoldable pub reset : ℕ → ℕ → (Client → Run) → Client → Run
  reset n g follow c =
      and_then (load_snapshot net n g (begin_reset g c))
        (λ c₁. and_then (follow c₁) (λ c₂. return (end_reset g c₂)))

  -- The `catch` of `sync`
  unfoldable pub recover : ℕ → ℕ → (Client → Run) → Run → Run
  recover n g follow r = elim r.thrown [
    | some (from_server sync_reset_required) ↦ reset n g follow r.client
    | some (from_server unauthorized) ↦ return (clear_session r.client)
    | _ ↦ r
  ]

  -- Without the end of a range, a reset ends with the socket closed.
  abbrev pub close_socket : Client → Run
  close_socket c = return (record (set_cursor none c) { socket = false })

  -- `sync` without the end of a range
  unfoldable pub sync_open : ℕ → ℕ → String → Client → Run
  sync_open n g after c =
      if same after ""
      then return c
      else recover (500 + n) g close_socket (sync_pages 500 n g after "" none c)

  -- `sync` to the end of a range, and its position
  unfoldable pub sync_through : ℕ → ℕ → String → String → ℕ → Client → Run
  sync_through n g after through position c =
      if same after ""
      then return c
      else recover (500 + n) g (λ c'. sync_open (502 + n) g through (set_cursor (some through) c'))
          (sync_pages 500 n g after through (some position) c)

  -- `sync(g)`, as the timer and the application call it
  unfoldable pub sync : ℕ → ℕ → Client → Run
  sync n g c = sync_open n g (or_else c.snapshot.sync_cursor "") c
