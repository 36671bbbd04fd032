-- ===== src/Messages.antt =====
-- apps/server/src/modules/messages/index.ts: what a message looks like to a reader, and `create`.
pub mod Effect
pub mod Expiry
pub mod Membership
pub mod Newest
pub mod Reads
pub mod Purge
pub mod Replay
pub mod Retry
use j_messenger.Common.{
  ℕ, suc, ◌+◌, Bool, true, false, not, ◌&&◌, ◌||◌, List, [], ◌∷◌, ◌++◌, map, Option, none, some,
  String, ltb, leb, ◌==◌, same, if◌then◌else◌, is_some, or_else, length, select, select_one, every,
}
use j_messenger.Common.Results.{
  Result, ok, err, bad_request, not_found, conflict, message_expired, internal, or_throw, throw_if,
  ◌>>=◌, ◌>>◌,
}
use j_messenger.Decimal.{Text}
use j_messenger.Names.{valid_uuid, sort_names, distinct_names, same_names}
use j_messenger.MessageText.{normalize_message_text, same_text}
use j_messenger.Store.{Store, Context, MessageRow, DedupRow, MessageFileRow, positive_id}
use j_messenger.Stream.{EventAppend, EventType, EntityType, EntityReference, append}
use j_messenger.Conversations.{require_member, recheck_member, record_message, member_ids}
use j_messenger.Files.{attached_live_ids, bind}

pub record MessageOutput : Type 0 where
  pub id : ℕ
  pub conversation_id : ℕ
  pub sender_id : ℕ
  pub client_message_id : String
  pub text : Option Text
  pub content_expired : Bool
  pub file_ids : List String
  pub created_at : ℕ

-- `output`, for a reader on the given server
unfoldable pub output : String → MessageRow → ℕ → Store → MessageOutput
output server r now s = record {
  id = r.id;
  conversation_id = r.conversation_id;
  sender_id = r.sender_id;
  client_message_id = r.client_message_id;
  text = if r.content_expired then none else r.text;
  content_expired = r.content_expired;
  file_ids = attached_live_ids server r.id now s;
  created_at = r.created_at;
}

abbrev pub is_message : String → ℕ → MessageRow → Bool
is_message server id r = same r.server_id server && r.id == id

abbrev pub is_dedup : String → ℕ → String → DedupRow → Bool
is_dedup server sender key r =
    same r.server_id server && r.sender_id == sender && same r.client_message_id key

abbrev pub of_message : String → ℕ → MessageFileRow → Bool
of_message server message r = same r.server_id server && r.message_id == message

abbrev pub bound_file : MessageFileRow → String
bound_file r = r.file_id

-- SELECT file_id FROM message_files WHERE server_id=? AND message_id=?
abbrev pub bound_files : String → ℕ → List MessageFileRow → List String
bound_files server message rows = map bound_file (select (of_message server message) rows)

-- `validateMessage`
unfoldable pub validate_message : Context → ℕ → ℕ → ℕ → Store → Result MessageOutput
validate_message c conversation message now s = do
  recheck_member c conversation now s
  r ←
      or_throw
        (select_one (λ r. is_message c.server_id message r && r.conversation_id == conversation)
          s.messages)
        not_found
  ok (output c.server_id r now s)

-- A request as it enters the transaction: its text normalised, its file ids sorted.
pub record CreateInput : Type 0 where
  pub client_message_id : String
  pub text : Text
  pub file_ids : List String

-- The body of the request.
pub record CreateRequest : Type 0 where
  pub client_message_id : String
  pub text : Text
  pub file_ids : List String

-- What `create` checks before its transaction, on the tables as they are then.
unfoldable pub check_create : Context → ℕ → CreateRequest → ℕ → Store → Result CreateInput
check_create c conversation q now s = do
  throw_if (not (positive_id conversation)) not_found
  require_member c conversation now s
  throw_if (not (valid_uuid q.client_message_id)) bad_request
  text ← or_throw (normalize_message_text q.text) bad_request
  let ids = sort_names (distinct_names q.file_ids)
  throw_if
      (not (length ids == length q.file_ids) || ltb 10 (length ids) || not (every valid_uuid ids))
      bad_request
  ok (record { client_message_id = q.client_message_id; text = text; file_ids = ids })

-- The message that a key was used for: its row, if it is still there.
abbrev pub prior_row : String → Option ℕ → Store → Option MessageRow
prior_row server none s = none
prior_row server (some id) s = select_one (is_message server id) s.messages

-- `!row || row.content_expired || prior.expired_at !== null`
abbrev live_prior : DedupRow → Option MessageRow → Option MessageRow
live_prior prior none = none
live_prior prior (some r) = if r.content_expired || is_some prior.expired_at then none else some r

abbrev pub same_content : Option Text → Text → Bool
same_content none t = false
same_content (some u) t = same_text u t

-- The key has been used: the same request returns its message.
unfoldable pub replay :
    Context → ℕ → CreateInput → DedupRow → ℕ → Store → Result ((MessageOutput × Bool) × Store)
replay c conversation i prior now s = do
  throw_if (not (prior.conversation_id == conversation)) conflict
  r ← or_throw (live_prior prior (prior_row c.server_id prior.message_id s)) message_expired
  throw_if (not (same_content r.text i.text)) conflict
  throw_if (not (same_names (sort_names (bound_files c.server_id r.id s.message_files)) i.file_ids))
      conflict
  ok ((output c.server_id r now s, false), s)

abbrev pub new_message : Context → ℕ → CreateInput → ℕ → ℕ → MessageRow
new_message c conversation i id now = record {
  id = id;
  server_id = c.server_id;
  conversation_id = conversation;
  sender_id = c.user_id;
  client_message_id = i.client_message_id;
  text = some i.text;
  content_expired = false;
  created_at = now;
}

abbrev pub new_dedup : Context → ℕ → CreateInput → ℕ → ℕ → DedupRow
new_dedup c conversation i id now = record {
  server_id = c.server_id;
  sender_id = c.user_id;
  client_message_id = i.client_message_id;
  conversation_id = conversation;
  message_id = some id;
  created_at = now;
  expired_at = none;
}

abbrev pub file_rows : String → ℕ → List String → List MessageFileRow
file_rows server message [] = []
file_rows server message (f ∷ fs) =
    record { server_id = server; message_id = message; file_id = f } ∷ file_rows server message fs

-- 'message.created.v1'
abbrev pub created_event : String → ℕ → ℕ → ℕ → List ℕ → EventAppend
created_event server conversation id at recipients = record {
  type = EventType.message_created;
  occurred_at = at;
  server_id = server;
  conversation_id = some conversation;
  entity_id = EntityReference.id id;
  payload_ref = record { entity_type = EntityType.message; entity_id = EntityReference.id id };
  recipient_user_ids = recipients;
}

-- The rows of a new message and of its key.
unfoldable pub insert_message : Context → ℕ → CreateInput → ℕ → Store → Store
insert_message c conversation i now s =
    let id = suc s.message_seq in
    record s {
      messages = s.messages ++ new_message c conversation i id now ∷ [];
      message_seq = id;
      dedup = s.dedup ++ new_dedup c conversation i id now ∷ [];
    }

-- `files.bind` and the rows of message_files, if files are attached
unfoldable pub attach_files : Context → ℕ → ℕ → List String → ℕ → Store → Result Store
attach_files c conversation message [] now s = ok s
attach_files c conversation message (f ∷ fs) now s = do
  s' ← bind c conversation message (f ∷ fs) now s
  ok (record s' { message_files = s'.message_files ++ file_rows c.server_id message (f ∷ fs) })

-- The event of a new message, and its row read back.
unfoldable pub announce : Context → ℕ → ℕ → ℕ → Store → Result ((MessageOutput × Bool) × Store)
announce c conversation id now s = do
  let recipients = member_ids c.server_id conversation s
  let event = created_event c.server_id conversation id now recipients
  let s' = record s { stream = append event s.stream }
  r ← or_throw (select_one (is_message c.server_id id) s'.messages) internal
  ok ((output c.server_id r now s', true), s')

-- The key is new: store the message, its key, its files and its event together.
unfoldable pub store_message :
    Context → ℕ → CreateInput → ℕ → Store → Result ((MessageOutput × Bool) × Store)
store_message c conversation i now s = do
  let id = suc s.message_seq
  s₂ ← attach_files c conversation id i.file_ids now (insert_message c conversation i now s)
  s₃ ← record_message c conversation now now s₂
  announce c conversation id now s₃

-- The transaction of `create`: the message, and whether it is new.
unfoldable pub create_in :
    Context → ℕ → CreateInput → ℕ → Store → Result ((MessageOutput × Bool) × Store)
create_in c conversation i now s = do
  recheck_member c conversation now s
  elim (select_one (is_dedup c.server_id c.user_id i.client_message_id) s.dedup) [
    | some prior ↦ replay c conversation i prior now s
    | none ↦ store_message c conversation i now s
  ]

-- `create`. Other requests may run between the checks, on the tables `seen`, and the transaction.
unfoldable pub create :
    Context → ℕ → CreateRequest → ℕ → Store → Store → Result ((MessageOutput × Bool) × Store)
create c conversation q now seen s = do
  i ← check_create c conversation q now seen
  create_in c conversation i now s
