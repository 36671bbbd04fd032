-- ===== src/Examples/Posts.antt =====
-- Messages and read positions on the example tables.
use j_messenger.Common.{
  ℕ, suc, ◌≡◌, ◌≢◌, refl, ◌⊎◌, inl, inr, Bool, true, false, List, [], ◌∷◌, Option, none, some,
  String, arith, if◌then◌else◌, select_one,
}
use j_messenger.Common.Results.{ok}
use j_messenger.Names.{sort_names}
use j_messenger.Store.{Store, DedupRow}
use j_messenger.Stream.{append}
use j_messenger.Conversations.{recheck_member, member_ids}
use j_messenger.Messages.{MessageOutput, CreateInput, create_in, new_dedup, new_message, is_dedup}
use j_messenger.Messages.Retry.{IdsUsed}
use j_messenger.Messages.Replay.{as_read, create_in_again}
use j_messenger.Messages.Effect.{IsEffect, create_in-IsEffect}
use j_messenger.Receipts.{Outcome, read, advance_in, updated_event}
use j_messenger.Receipts.Advance.{furthest, is_beyond, advance_in-furthest}
use j_messenger.Examples.{ann, bob, chat_store, file_id, other_id, result_or, server}

-- A message with Ann's picture.
abbrev pub hello : CreateInput
hello = record { client_message_id = other_id; text = b'h' ∷ b'i' ∷ []; file_ids = file_id ∷ [] }

abbrev pub no_message : MessageOutput
no_message = record {
  id = 0;
  conversation_id = 0;
  sender_id = 0;
  client_message_id = "";
  text = none;
  content_expired = false;
  file_ids = [];
  created_at = 0;
}

abbrev pub sent : (MessageOutput × Bool) × Store
sent = result_or (create_in ann 5 hello 100 chat_store) ((no_message, false), chat_store)

pub sent_ok : create_in ann 5 hello 100 chat_store ≡ ok ((sent.0.0, true), sent.1)
unfolding create_in recheck_member j_messenger.Identity.session_active
    j_messenger.Names.valid_server_id j_messenger.Common.text_dec j_messenger.Conversations.get_row
    j_messenger.Messages.store_message j_messenger.Messages.attach_files j_messenger.Files.bind
    j_messenger.Messages.insert_message j_messenger.Names.distinct_from j_messenger.Files.bind_each
    j_messenger.Files.lookup j_messenger.Conversations.record_message j_messenger.Messages.announce
sent_ok = refl

pub used : IdsUsed chat_store
used = record { in_rows = tt; in_files = tt }

in_order : sort_names hello.file_ids ≡ hello.file_ids
unfolding j_messenger.Common.Sorting.sort
in_order = refl

passes : recheck_member ann 5 200 sent.1 ≡ ok tt
unfolding recheck_member j_messenger.Identity.session_active j_messenger.Names.valid_server_id
    create_in j_messenger.Common.text_dec j_messenger.Conversations.get_row
    j_messenger.Messages.store_message j_messenger.Messages.attach_files j_messenger.Files.bind
    j_messenger.Messages.insert_message j_messenger.Names.distinct_from j_messenger.Files.bind_each
    j_messenger.Files.lookup j_messenger.Conversations.record_message j_messenger.Messages.announce
passes = refl

create_in_again_example :
    create_in ann 5 hello 200 sent.1 ≡ ok ((as_read ann 200 sent.1 sent.0.0, false), sent.1)
create_in_again_example =
    create_in_again ann 5 hello 100 200 chat_store sent.0.0 true sent.1 used in_order sent_ok passes

create_in-IsEffect_example : IsEffect ann 5 hello 100 chat_store sent.0.0 true sent.1
create_in-IsEffect_example =
    create_in-IsEffect ann 5 hello 100 chat_store sent.0.0 true sent.1 used sent_ok

abbrev sent_twice : MessageOutput
sent_twice = as_read ann 200 sent.1 sent.0.0

sent_again : create_in ann 5 hello 200 sent.1 ≡ ok ((sent_twice, false), sent.1)
sent_again =
    create_in_again ann 5 hello 100 200 chat_store sent.0.0 true sent.1 used in_order sent_ok passes

abbrev prior : DedupRow
prior = new_dedup ann 5 hello 8 100

prior_found :
    select_one (is_dedup ann.server_id ann.user_id hello.client_message_id) sent.1.dedup
    ≡ some prior
unfolding create_in recheck_member j_messenger.Identity.session_active
    j_messenger.Names.valid_server_id j_messenger.Common.text_dec j_messenger.Conversations.get_row
    j_messenger.Messages.store_message j_messenger.Messages.attach_files j_messenger.Files.bind
    j_messenger.Messages.insert_message j_messenger.Names.distinct_from j_messenger.Files.bind_each
    j_messenger.Files.lookup j_messenger.Conversations.record_message j_messenger.Messages.announce
prior_found = refl

-- A message of Ann's, which Bob reads.
abbrev read_store : Store
read_store = record chat_store { messages = new_message ann 5 hello 8 100 ∷ []; message_seq = 8 }

abbrev seen : Outcome × Store
seen =
    result_or (advance_in bob 5 8 300 read_store)
      (record { last_read_message_id = 0; advanced = false }, read_store)

seen_ok : advance_in bob 5 8 300 read_store ≡ ok seen
unfolding advance_in recheck_member j_messenger.Identity.session_active
    j_messenger.Names.valid_server_id j_messenger.Common.text_dec j_messenger.Conversations.get_row
    j_messenger.Messages.validate_message j_messenger.Messages.output
seen_ok = refl

advance_in-furthest_example :
    (read server 5 2 seen.1 ≡ some (furthest (read server 5 2 read_store) 8))
    × (seen.0.last_read_message_id ≡ furthest (read server 5 2 read_store) 8)
    × (seen.0.advanced ≡ is_beyond (read server 5 2 read_store) 8)
    × (seen.1.stream ≡ (
        if is_beyond (read server 5 2 read_store) 8
        then append (updated_event bob 5 300 (member_ids server 5 read_store)) read_store.stream
        else read_store.stream))
advance_in-furthest_example = advance_in-furthest bob 5 8 300 read_store seen.0 seen.1 seen_ok
