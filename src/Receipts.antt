-- ===== src/Receipts.antt =====
-- apps/server/src/modules/receipts/index.ts: how far a user has read a conversation.
pub mod Advance
use j_messenger.Common.{
  ℕ, ◌&&◌, Bool, true, false, List, [], ◌∷◌, ◌++◌, map, Option, none, some, String, leb, ltb, ◌==◌,
  same, if◌then◌else◌, select_one,
}
use j_messenger.Common.Results.{Result, ok, err, message_expired, throw_if, ◌>>=◌, ◌>>◌}
use j_messenger.Store.{Store, Context, ReadCursorRow}
use j_messenger.Stream.{EventAppend, EventType, EntityType, EntityReference, append}
use j_messenger.Conversations.{require_member, recheck_member, member_ids}
use j_messenger.Messages.{MessageOutput, validate_message}

abbrev pub is_cursor : String → ℕ → ℕ → ReadCursorRow → Bool
is_cursor server conversation user r =
    same r.server_id server && r.conversation_id == conversation && r.user_id == user

abbrev pub last_read : Option ReadCursorRow → Option ℕ
last_read none = none
last_read (some r) = some r.last_read_message_id

-- `read`
unfoldable pub read : String → ℕ → ℕ → Store → Option ℕ
read server conversation user s =
    last_read (select_one (is_cursor server conversation user) s.read_cursors)

-- INSERT … ON CONFLICT DO UPDATE … WHERE the new id is the larger number
unfoldable pub upsert_cursor : ReadCursorRow → List ReadCursorRow → List ReadCursorRow
upsert_cursor new [] = new ∷ []
upsert_cursor new (r ∷ rs) =
    if is_cursor new.server_id new.conversation_id new.user_id r
    then (if ltb r.last_read_message_id new.last_read_message_id then new else r) ∷ rs
    else r ∷ upsert_cursor new rs

-- 'receipt.updated.v1'
abbrev pub updated_event : Context → ℕ → ℕ → List ℕ → EventAppend
updated_event c conversation at recipients = record {
  type = EventType.receipt_updated;
  occurred_at = at;
  server_id = c.server_id;
  conversation_id = some conversation;
  entity_id = EntityReference.id c.user_id;
  payload_ref = record {
    entity_type = EntityType.receipt;
    entity_id = EntityReference.id c.user_id;
  };
  recipient_user_ids = recipients;
}

pub record Outcome : Type 0 where
  pub last_read_message_id : ℕ
  pub advanced : Bool

-- The cursor moves, and the members are told.
unfoldable pub move : Context → ℕ → ℕ → ℕ → Store → Outcome × Store
move c conversation message now s = (
  record { last_read_message_id = message; advanced = true },
  record s {
    read_cursors =
        upsert_cursor
          (record {
            server_id = c.server_id;
            conversation_id = conversation;
            user_id = c.user_id;
            last_read_message_id = message;
          })
          s.read_cursors;
    stream =
        append (updated_event c conversation now (member_ids c.server_id conversation s)) s.stream;
  },
)

-- The transaction of `advance`, once the message is known to be readable.
unfoldable pub advance_from : Option ℕ → Context → ℕ → ℕ → ℕ → Store → Outcome × Store
advance_from none c conversation message now s = move c conversation message now s
advance_from (some old) c conversation message now s =
    if leb message old
    then (record { last_read_message_id = old; advanced = false }, s)
    else move c conversation message now s

-- The transaction of `advance`.
unfoldable pub advance_in : Context → ℕ → ℕ → ℕ → Store → Result (Outcome × Store)
advance_in c conversation message now s = do
  recheck_member c conversation now s
  m ← validate_message c conversation message now s
  throw_if m.content_expired message_expired
  ok (advance_from (read c.server_id conversation c.user_id s) c conversation message now s)

-- `advance`. Other requests may run between the check, on the tables `seen`, and the transaction.
unfoldable pub advance : Context → ℕ → ℕ → ℕ → Store → Store → Result (Outcome × Store)
advance c conversation message now seen s = do
  require_member c conversation now seen
  advance_in c conversation message now s

pub record ReadState : Type 0 where
  pub conversation_id : ℕ
  pub user_id : ℕ
  pub last_read_message_id : Option ℕ

-- `get`
unfoldable pub get : Context → ℕ → ℕ → Store → Result (List ReadState)
get c conversation now s = do
  require_member c conversation now s
  ok (
      map
        (λ user. record {
          conversation_id = conversation;
          user_id = user;
          last_read_message_id = read c.server_id conversation user s;
        })
        (member_ids c.server_id conversation s))
