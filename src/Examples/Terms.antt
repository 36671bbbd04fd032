-- ===== src/Examples/Terms.antt =====
-- Access to messages, their files, and their end, on the example tables.
use j_messenger.Common.{
  ℕ, ◌≤◌, ◌≡◌, ◌≢◌, refl, Bool, true, false, List, [], ◌∷◌, Option, none, some, String, arith, All,
  select_one,
}
use j_messenger.Common.Results.{ok}
use j_messenger.Store.{Store, MessageRow, DedupRow}
use j_messenger.Files.{bind}
use j_messenger.Files.Binding.{IsBound, bind-IsBound}
use j_messenger.Messages.{MessageOutput, create_in, new_message, new_dedup, is_message, is_dedup}
use j_messenger.Messages.Reads.{ListInput, MessagePage, list}
use j_messenger.Messages.Membership.{MayUse, create_in-MayUse}
use j_messenger.Messages.Newest.{IsNewest, list-next_cursor}
use j_messenger.Messages.Purge.{expire_message}
use j_messenger.Messages.Expiry.{expire_message-final}
use j_messenger.Examples.{ann, bob, server, chat_store, file_id, other_id, result_or}
use j_messenger.Examples.Posts.{hello, sent, sent_ok}

create_in-MayUse_example : MayUse ann 5 100 chat_store
create_in-MayUse_example =
    create_in-MayUse ann 5 100 hello chat_store ((sent.0.0, true), sent.1) sent_ok

abbrev first_ten : ListInput
first_ten = record { before = none; after = none; limit = 10 }

-- A message without files, and its key.
abbrev said : Store
said = record chat_store {
  messages = new_message ann 5 hello 8 100 ∷ [];
  message_seq = 8;
  dedup = new_dedup ann 5 hello 8 100 ∷ [];
}

abbrev page : MessagePage
page =
    result_or (list bob 5 first_ten 200 said said)
      (record { items = []; next_cursor = none; snapshot_position = 0 })

listed : list bob 5 first_ten 200 said said ≡ ok page
unfolding list j_messenger.Conversations.require_member j_messenger.Conversations.assert_context
    j_messenger.Identity.get j_messenger.Names.valid_server_id j_messenger.Common.text_dec
    j_messenger.Conversations.get_row j_messenger.Conversations.recheck_member
    j_messenger.Identity.session_active
listed = refl

abbrev bound : Store
bound = result_or (bind ann 5 8 (file_id ∷ []) 100 chat_store) chat_store

bound_ok : bind ann 5 8 (file_id ∷ []) 100 chat_store ≡ ok bound
unfolding bind j_messenger.Conversations.recheck_member j_messenger.Identity.session_active
    j_messenger.Names.valid_server_id j_messenger.Common.text_dec j_messenger.Conversations.get_row
    j_messenger.Names.distinct_from j_messenger.Files.bind_each j_messenger.Files.lookup
bound_ok = refl

bind-IsBound_example : All (IsBound ann 5 8 bound.files) (file_id ∷ [])
bind-IsBound_example = bind-IsBound ann 5 8 (file_id ∷ []) 100 chat_store bound bound_ok

abbrev gone : Store
gone = expire_message server (new_message ann 5 hello 8 100) 1000 said

abbrev gone_row : MessageRow
gone_row = record (new_message ann 5 hello 8 100) { text = none; content_expired = true }

abbrev gone_key : DedupRow
gone_key = record (new_dedup ann 5 hello 8 100) { expired_at = some 1000 }

row_gone : select_one (is_message server 8) gone.messages ≡ some gone_row
unfolding expire_message j_messenger.Messages.Purge.drop_files
    j_messenger.Messages.Purge.expire_rows j_messenger.Common.text_dec
row_gone = refl

key_gone : select_one (is_dedup server 1 other_id) gone.dedup ≡ some gone_key
unfolding expire_message j_messenger.Messages.Purge.drop_files
    j_messenger.Messages.Purge.expire_rows j_messenger.Common.text_dec
key_gone = refl

expire_message-final_example :
    (true ≡ true) × (create_in ann 5 hello 2000 gone ≢ ok ((sent.0.0, true), gone))
expire_message-final_example =
    expire_message-final server (new_message ann 5 hello 8 100) gone_row gone_key 1000 2000 5 ann
      hello said gone ((sent.0.0, true), gone) refl refl refl refl row_gone key_gone

-- Two messages, of which a page shows one.
abbrev said_twice : Store
said_twice = record said {
  messages = new_message ann 5 hello 8 100 ∷ new_message ann 5 hello 9 200 ∷ [];
  message_seq = 9;
}

abbrev last_one : ListInput
last_one = record { before = none; after = none; limit = 1 }

abbrev last_page : MessagePage
last_page =
    result_or (list bob 5 last_one 200 said_twice said_twice)
      (record { items = []; next_cursor = none; snapshot_position = 0 })

last_listed : list bob 5 last_one 200 said_twice said_twice ≡ ok last_page
unfolding list j_messenger.Conversations.require_member j_messenger.Conversations.assert_context
    j_messenger.Identity.get j_messenger.Names.valid_server_id j_messenger.Common.text_dec
    j_messenger.Conversations.get_row j_messenger.Conversations.recheck_member
    j_messenger.Identity.session_active
last_listed = refl

last_cursor : last_page.next_cursor ≡ some 9
unfolding list j_messenger.Conversations.require_member j_messenger.Conversations.assert_context
    j_messenger.Identity.get j_messenger.Names.valid_server_id j_messenger.Common.text_dec
    j_messenger.Conversations.get_row j_messenger.Conversations.recheck_member
    j_messenger.Identity.session_active j_messenger.Messages.Reads.list_page
    j_messenger.Messages.Reads.list_rows
last_cursor = refl

list-next_cursor_example : IsNewest 9 last_page.items
list-next_cursor_example =
    list-next_cursor bob 5 200 9 last_one said_twice refl said_twice last_page
      ((ground arith, tt), (tt, tt)) last_listed last_cursor
