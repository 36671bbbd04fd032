-- ===== src/Conversations/Create.antt =====
-- `create` of apps/server/src/modules/conversations/index.ts, and what its transaction writes.
pub mod Once
use j_messenger.Common.{
  ℕ, suc, ◌+◌, ◌≡◌, Bool, true, false, not, ◌&&◌, ◌||◌, List, [], ◌∷◌, ◌++◌, map, Option, none,
  some, String, ltb, leb, ◌==◌, same, if◌then◌else◌, length, select_one, every,
}
use j_messenger.Common.Results.{
  Result, ok, err, bad_request, not_found, conflict, internal, or_throw, throw_if, ◌>>=◌, ◌>>◌,
}
use j_messenger.Decimal.{Text}
use j_messenger.Names.{valid_uuid}
use j_messenger.MessageText.{trim}
use j_messenger.Store.{
  Store, Context, Kind, direct, group, ConversationRow, MemberRow, RequestRow, positive_id,
}
use j_messenger.Stream.{EventAppend, EventType, EntityType, EntityReference, append}
use j_messenger.Identity
use j_messenger.Conversations.{
  ConversationDto, is_conversation, dto, assert_context, sort_ids, distinct,
}

pub record CreateInput : Type 0 where
  pub kind : Kind
  pub member_ids : List ℕ
  pub title : Option Text
  pub client_request_id : String

-- `members`: the ids given and the caller's own, each once, by number
unfoldable pub members : Context → CreateInput → List ℕ
members c i = sort_ids (distinct (i.member_ids ++ c.user_id ∷ []))

abbrev non_empty : Text → Option Text
non_empty [] = none
non_empty (x ∷ s) = some (x ∷ s)

abbrev group_title : Kind → Option Text → Option Text
group_title direct t = none
group_title group none = none
group_title group (some t) = non_empty (trim t)

-- `title`
unfoldable pub title : CreateInput → Option Text
title i = group_title i.kind i.title

abbrev too_long : Option Text → Bool
too_long none = false
too_long (some t) = ltb 200 (length t)

abbrev is_direct : Kind → Bool
is_direct direct = true
is_direct group = false

-- The loop of `requireSameServer` calls: any refusal reads `not_found`.
unfoldable pub require_all : Context → List ℕ → Store → Result (Unit {0})
require_all c [] s = ok tt
require_all c (u ∷ us) s = elim (Identity.require_same_server c u s) [
  | ok _ ↦ require_all c us s
  | err _ ↦ err not_found
]

-- What `create` checks before its transaction, on the tables as they are then.
unfoldable pub check_create : Context → CreateInput → ℕ → Store → Result (Unit {0})
check_create c i now s = do
  assert_context c now s
  throw_if (not (valid_uuid i.client_request_id)) bad_request
  throw_if
      (ltb (length (members c i)) 2
        || (is_direct i.kind && not (length (members c i) == 2))
        || not (every positive_id (members c i)))
      bad_request
  require_all c (members c i) s
  throw_if (too_long (title i)) bad_request

-- `members.join(':')` of two ids
abbrev pub pair_of : List ℕ → Option (ℕ × ℕ)
pair_of (a ∷ b ∷ []) = some (a, b)
pair_of _ = none

abbrev same_pair : Option (ℕ × ℕ) → Option (ℕ × ℕ) → Bool
same_pair (some (a, b)) (some (c, d)) = a == c && b == d
same_pair _ _ = false

abbrev pub has_pair : String → Option (ℕ × ℕ) → ConversationRow → Bool
has_pair server p r = same r.server_id server && same_pair r.direct_pair p

abbrev pub is_request : String → ℕ → String → RequestRow → Bool
is_request server sender key r =
    same r.server_id server && r.sender_id == sender && same r.client_request_id key

abbrev pub pair_for : Kind → List ℕ → Option (ℕ × ℕ)
pair_for direct ms = pair_of ms
pair_for group ms = none

abbrev pub new_row : Context → CreateInput → ℕ → ℕ → ConversationRow
new_row c i id now = record {
  id = id;
  server_id = c.server_id;
  kind = i.kind;
  title = title i;
  direct_pair = pair_for i.kind (members c i);
  created_at = now;
  last_message_at = none;
}

abbrev pub member_row : String → ℕ → ℕ → MemberRow
member_row server id u = record { server_id = server; conversation_id = id; user_id = u }

-- 'conversation.created.v1'
abbrev pub created_event : Context → ℕ → ℕ → List ℕ → EventAppend
created_event c id at recipients = record {
  type = EventType.conversation_created;
  occurred_at = at;
  server_id = c.server_id;
  conversation_id = some id;
  entity_id = EntityReference.id id;
  payload_ref = record { entity_type = EntityType.conversation; entity_id = EntityReference.id id };
  recipient_user_ids = recipients;
}

-- The digest of the request, a SHA-256 of its kind, members and title.
abbrev pub Digest : Type 0
Digest = Kind → List ℕ → Option Text → String

abbrev pub new_request : Digest → Context → CreateInput → ℕ → RequestRow
new_request digest c i id = record {
  server_id = c.server_id;
  sender_id = c.user_id;
  client_request_id = i.client_request_id;
  payload_digest = digest i.kind (members c i) (title i);
  conversation_id = id;
}

abbrev request_rows : Kind → RequestRow → List RequestRow
request_rows direct r = []
request_rows group r = r ∷ []

-- The INSERT statements and the event of a conversation that is new.
unfoldable pub insert_conversation : Digest → Context → CreateInput → ℕ → Store → Store
insert_conversation digest c i now s =
    let id = suc s.conversation_seq in
    record s {
      conversations = s.conversations ++ new_row c i id now ∷ [];
      conversation_seq = id;
      members = s.members ++ map (member_row c.server_id id) (members c i);
      requests = s.requests ++ request_rows i.kind (new_request digest c i id);
      stream = append (created_event c id now (members c i)) s.stream;
    }

-- The transaction once there is no earlier conversation: insert, and read the row back.
unfoldable pub create_new :
    Digest → Context → CreateInput → ℕ → Store → Result ((ConversationDto × Bool) × Store)
create_new digest c i now s = do
  let s' = insert_conversation digest c i now s
  r ←
      or_throw (select_one (is_conversation c.server_id (suc s.conversation_seq)) s'.conversations)
        internal
  ok ((dto c.server_id r s', true), s')

-- A request with this key is known: the same payload returns its conversation.
unfoldable pub create_known :
    Digest → Context → CreateInput → RequestRow → Store → Result ((ConversationDto × Bool) × Store)
create_known digest c i known s = do
  throw_if (not (same known.payload_digest (digest i.kind (members c i) (title i)))) conflict
  r ←
      or_throw (select_one (is_conversation c.server_id known.conversation_id) s.conversations)
        internal
  ok ((dto c.server_id r s, false), s)

-- The transaction of `create`: the conversation, and whether it is new.
unfoldable pub create_in :
    Digest → Context → CreateInput → ℕ → Store → Result ((ConversationDto × Bool) × Store)
create_in digest c i now s = elim i.kind [
  | group ↦ elim (select_one (is_request c.server_id c.user_id i.client_request_id) s.requests) [
    | some known ↦ create_known digest c i known s
    | none ↦ create_new digest c i now s
  ]
  | direct ↦ elim (select_one (has_pair c.server_id (pair_of (members c i))) s.conversations) [
    | some r ↦ ok ((dto c.server_id r s, false), s)
    | none ↦ create_new digest c i now s
  ]
]

-- `create`. Other requests may run between the checks, on the tables `seen`, and the transaction.
unfoldable pub create :
    Digest → Context → CreateInput → ℕ → Store → Store → Result ((ConversationDto × Bool) × Store)
create digest c i now seen s = do check_create c i now seen; create_in digest c i now s
