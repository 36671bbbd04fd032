-- ===== src/Conversations.antt =====
-- apps/server/src/modules/conversations/index.ts: conversations, their members, and the access checks
-- that the other services call. `now` is what the clock says during a call.
pub mod Members
pub mod Access
pub mod Create
pub mod Listing
unfoldable pub use Members.{sort_ids, distinct}
use j_messenger.Common.{
  ℕ, suc, ◌+◌, ◌≡◌, refl, Bool, true, false, not, ◌&&◌, ◌||◌, List, [], ◌∷◌, ◌++◌, map, Option,
  none, some, String, ltb, leb, ◌==◌, same, if◌then◌else◌, is_some, length, select, select_one,
  update, exists, every,
}
use j_messenger.Common.Results.{
  Result, ok, err, ErrorCode, bad_request, unauthorized, not_found, conflict, internal, or_throw,
  throw_if, ◌>>=◌, ◌>>◌,
}
use j_messenger.Decimal.{Text}
use j_messenger.Names.{valid_uuid}
use j_messenger.MessageText.{trim}
use j_messenger.Store.{
  Store, Context, Kind, direct, group, ConversationRow, MemberRow, RequestRow, positive_id,
}
use j_messenger.Stream.{Stream, EventAppend, EventType, EntityType, EntityReference, append}
use j_messenger.Identity

pub record ConversationDto : Type 0 where
  pub id : ℕ
  pub kind : Kind
  pub title : Option Text
  pub member_ids : List ℕ
  pub created_at : ℕ
  pub last_message_at : Option ℕ

abbrev pub is_conversation : String → ℕ → ConversationRow → Bool
is_conversation server id r = same r.server_id server && r.id == id

abbrev pub is_member : String → ℕ → ℕ → MemberRow → Bool
is_member server conversation user m =
    same m.server_id server && m.conversation_id == conversation && m.user_id == user

abbrev pub in_conversation : String → ℕ → MemberRow → Bool
in_conversation server conversation m = same m.server_id server && m.conversation_id == conversation

abbrev pub user_of : MemberRow → ℕ
user_of m = m.user_id

-- SELECT user_id FROM members WHERE server_id=? AND conversation_id=? ORDER BY user_id
unfoldable pub members_of : String → ℕ → Store → List ℕ
members_of server conversation s =
    sort_ids (map user_of (select (in_conversation server conversation) s.members))

-- `dto`
unfoldable pub dto : String → ConversationRow → Store → ConversationDto
dto server r s = record {
  id = r.id;
  kind = r.kind;
  title = r.title;
  member_ids = members_of server r.id s;
  created_at = r.created_at;
  last_message_at = r.last_message_at;
}

-- `getRow`
unfoldable pub get_row : Context → ℕ → Store → Option ConversationRow
get_row c id s =
    if positive_id id
    then select_one
        (λ r.
          is_conversation c.server_id id r
          && exists (is_member r.server_id r.id c.user_id) s.members)
        s.conversations
    else none

-- `assertContext`
unfoldable pub assert_context : Context → ℕ → Store → Result (Unit {0})
assert_context c now s = do
  throw_if (not (positive_id c.user_id) || not (positive_id c.session_id)) unauthorized
  elim (Identity.get c now s) [ ok _ ↦ ok tt | err _ ↦ err unauthorized ]

-- `requireMember`
unfoldable pub require_member : Context → ℕ → ℕ → Store → Result (Unit {0})
require_member c id now s = do assert_context c now s; or_throw (get_row c id s) not_found; ok tt

-- `recheckMember`, inside the transaction
unfoldable pub recheck_member : Context → ℕ → ℕ → Store → Result (Unit {0})
recheck_member c id now s = do
  throw_if (not (Identity.session_active c now s)) not_found
  or_throw (get_row c id s) not_found
  ok tt

-- `canAccess`
unfoldable pub can_access : Context → ℕ → ℕ → Store → Result Bool
can_access c id now s = elim (require_member c id now s) [
  | ok _ ↦ ok true
  | err not_found ↦ ok false
  | err e ↦ err e
]

-- `memberIds` and `memberIdsForSystem`
unfoldable pub member_ids : String → ℕ → Store → List ℕ
member_ids server conversation s =
    if positive_id conversation then members_of server conversation s else []

-- last_message_at=CASE WHEN last_message_at IS NULL OR last_message_at<? THEN ? ELSE … END
abbrev later : ℕ → Option ℕ → Option ℕ
later at none = some at
later at (some old) = some (if ltb old at then at else old)

-- `recordMessage`
unfoldable pub record_message : Context → ℕ → ℕ → ℕ → Store → Result Store
record_message c id at now s = do
  recheck_member c id now s
  ok (record s {
    conversations =
        update (is_conversation c.server_id id)
          (λ r. record r { last_message_at = later at r.last_message_at }) s.conversations;
  })

-- `get`
unfoldable pub get : Context → ℕ → ℕ → Store → Result ConversationDto
get c id now s = do
  require_member c id now s
  r ← or_throw (get_row c id s) not_found
  ok (dto c.server_id r s)
