-- ===== src/Receipts/Advance.antt =====
-- A read position never goes back.
use j_messenger.Common.{
  ℕ, ◌≡◌, ◌≢◌, ◌⊎◌, List, [], ◌∷◌, Option, none, some, arith, leb, ltb, Bool, true, if◌then◌else◌,
  select_one,
}
use j_messenger.Common.Results.{ok}
use j_messenger.Store.{Store, Context, ReadCursorRow}
use j_messenger.Stream.{append}
use j_messenger.Conversations.{member_ids}
use j_messenger.Receipts.{
  Outcome, is_cursor, last_read, read, upsert_cursor, updated_event, move, advance_from, advance_in,
}

-- The larger of a position and a message.
abbrev pub furthest : Option ℕ → ℕ → ℕ
furthest none m = m
furthest (some old) m = if leb m old then old else m

-- Whether the message lies beyond the position
abbrev pub is_beyond : Option ℕ → ℕ → Bool
is_beyond none m = true
is_beyond (some old) m = ltb old m

abbrev cursor_row : Context → ℕ → ℕ → ReadCursorRow
cursor_row c conversation message = record {
  server_id = c.server_id;
  conversation_id = conversation;
  user_id = c.user_id;
  last_read_message_id = message;
}

position_upsert :
    (c : Context) (conversation message : ℕ) (rs : List ReadCursorRow)
    → last_read (
        select_one
          (is_cursor c.server_id conversation c.user_id)
          (upsert_cursor (cursor_row c conversation message) rs))
      ≡ some (
          furthest
            (last_read (select_one (is_cursor c.server_id conversation c.user_id) rs))
            message)
unfolding upsert_cursor
position_upsert c conversation message [] = ground arith
position_upsert c conversation message (r ∷ rs) =
    ground (arith, position_upsert c conversation message rs)

position_upsert_other :
    (c : Context) (conversation message k user : ℕ) (rs : List ReadCursorRow)
    → ((k ≢ conversation) ⊎ (user ≢ c.user_id))
    → select_one
        (is_cursor c.server_id k user)
        (upsert_cursor (cursor_row c conversation message) rs)
      ≡ select_one (is_cursor c.server_id k user) rs
unfolding upsert_cursor
position_upsert_other c conversation message k user [] other = ground arith
position_upsert_other c conversation message k user (r ∷ rs) other =
    ground (arith, position_upsert_other c conversation message k user rs)

-- After a request that succeeds the caller's position is the larger of the old one and the message
-- asked for, and the reply names it. If there was no position, or the message lies beyond it, the reply
-- says that it has advanced and the outbox has one new event, to the members; else the reply says that
-- it has not, and the outbox is as it was.
pub advance_in-furthest :
    (c : Context) (conversation message now : ℕ) (s : Store) (o : Outcome) (t : Store)
    → advance_in c conversation message now s ≡ ok (o, t)
    → (read c.server_id conversation c.user_id t
        ≡ some (furthest (read c.server_id conversation c.user_id s) message))
      × (o.last_read_message_id ≡ furthest (read c.server_id conversation c.user_id s) message)
      × (o.advanced ≡ is_beyond (read c.server_id conversation c.user_id s) message)
      × (t.stream ≡ (
          if is_beyond (read c.server_id conversation c.user_id s) message
          then append
              (updated_event c conversation now (member_ids c.server_id conversation s))
              s.stream
          else s.stream))
unfolding advance_in advance_from move read
advance_in-furthest c conversation message now s o t e =
    ground (arith, position_upsert c conversation message s.read_cursors)

-- The positions of other users, and of other conversations, stay.
pub advance_in-other :
    (c : Context) (conversation message now : ℕ) (s : Store) (o : Outcome) (t : Store) (k user : ℕ)
    → advance_in c conversation message now s ≡ ok (o, t)
    → ((k ≢ conversation) ⊎ (user ≢ c.user_id))
    → read c.server_id k user t ≡ read c.server_id k user s
unfolding advance_in advance_from move read
advance_in-other c conversation message now s o t k user e other =
    ground (arith, position_upsert_other c conversation message k user s.read_cursors)
