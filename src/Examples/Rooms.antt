-- ===== src/Examples/Rooms.antt =====
-- Sessions and conversations on the example tables.
use j_messenger.Common.{
  ℕ, ◌≡◌, ◌≢◌, refl, ◌↔◌, ◌⊎◌, Bool, true, false, List, [], ◌∷◌, Option, none, some, String, arith,
  same, if◌then◌else◌,
}
use j_messenger.Common.Results.{ok, err, not_found, conflict}
use j_messenger.Store.{Store, Kind, direct, group}
use j_messenger.Decimal.{Text}
use j_messenger.Names.{valid_server_id}
use j_messenger.Conversations.Create.{create_new, insert_conversation}
use j_messenger.Identity.{session_active, logout, resolve, valid_credential}
use j_messenger.Identity.Sessions.{session_active-logout}
use j_messenger.Conversations.{ConversationDto, recheck_member, get_row}
use j_messenger.Conversations.Access.{IsMember, recheck_member_iff}
use j_messenger.Conversations.Create.{CreateInput, create_in, members, pair_of}
use j_messenger.Conversations.Create.Once.{create_in_direct_again, create_in_group_again}
use j_messenger.Examples.{
  ann, bob, chat, users_only, chat_store, file_id, other_id, result_or, server,
}

session_active-logout_example : session_active ann 100 (logout ann users_only) ≡ false
session_active-logout_example = session_active-logout ann 100 users_only

abbrev credential : String
credential = "aaaaaaaaaaaaaaaaaaaaaaaaaaaaaaaaaaaaaaaaaaa"

abbrev hash : String → String
hash s = "hash"

valid_main : valid_server_id server ≡ true
unfolding valid_server_id
valid_main = refl

resolved : resolve hash credential other_id 100 users_only ≡ ok ann
unfolding resolve valid_credential j_messenger.Names.valid_uuid j_messenger.Common.text_dec
resolved = refl

recheck_member_iff_example :
    ((recheck_member ann 5 100 chat_store ≡ ok tt)
      ↔ ((session_active ann 100 chat_store ≡ true) × IsMember ann 5 chat_store))
    × ((recheck_member ann 5 100 chat_store ≡ ok tt)
        ⊎ (recheck_member ann 5 100 chat_store ≡ err not_found))
recheck_member_iff_example = recheck_member_iff ann 5 100 chat_store

row_found : get_row ann 5 chat_store ≡ some chat
unfolding get_row j_messenger.Common.text_dec
row_found = refl

abbrev direct_input : ℕ → String → CreateInput
direct_input other key = record {
  kind = direct;
  member_ids = other ∷ [];
  title = none;
  client_request_id = key;
}

abbrev digest : Kind → List ℕ → Option Text → String
digest k ms t = "digest"

abbrev no_chat : ConversationDto
no_chat = record {
  id = 0;
  kind = direct;
  title = none;
  member_ids = [];
  created_at = 0;
  last_message_at = none;
}

abbrev made : CreateInput → (ConversationDto × Bool) × Store
made i = result_or (create_in digest ann i 100 users_only) ((no_chat, false), users_only)

made_direct :
    create_in digest ann (direct_input 2 file_id) 100 users_only
    ≡ ok (made (direct_input 2 file_id))
unfolding create_in create_new insert_conversation j_messenger.Common.text_dec
made_direct = refl

pair : pair_of (members ann (direct_input 2 file_id)) ≡ some (1, 2)
unfolding members j_messenger.Common.Sorting.sort j_messenger.Conversations.distinct
pair = refl

same_members : members bob (direct_input 1 other_id) ≡ members ann (direct_input 2 file_id)
unfolding members j_messenger.Conversations.distinct j_messenger.Common.Sorting.sort
same_members = refl

create_in_direct_again_example :
    create_in digest bob (direct_input 1 other_id) 200 (made (direct_input 2 file_id)).1
    ≡ ok (((made (direct_input 2 file_id)).0.0, false), (made (direct_input 2 file_id)).1)
unfolding create_in create_new insert_conversation j_messenger.Common.text_dec
create_in_direct_again_example =
    create_in_direct_again digest ann (direct_input 2 file_id) 100 users_only tt bob
      (direct_input 1 other_id) 200 (1, 2) (made (direct_input 2 file_id)).0.0 true
      (made (direct_input 2 file_id)).1 refl refl pair refl same_members made_direct

abbrev group_input : CreateInput
group_input = record {
  kind = group;
  member_ids = 2 ∷ [];
  title = some (b'T' ∷ []);
  client_request_id = file_id;
}

made_group : create_in digest ann group_input 100 users_only ≡ ok (made group_input)
unfolding create_in create_new insert_conversation j_messenger.Common.text_dec
made_group = refl

create_in_group_again_example : create_in digest ann group_input 200 (made group_input).1 ≡ (
    if same "digest" "digest"
    then ok (((made group_input).0.0, false), (made group_input).1)
    else err conflict)
unfolding create_in create_new insert_conversation j_messenger.Common.text_dec
create_in_group_again_example =
    create_in_group_again digest ann group_input 100 users_only tt group_input 200
      (made group_input).0.0 true (made group_input).1 refl refl refl made_group
