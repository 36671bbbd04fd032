-- ===== src/Examples/Uploads.antt =====
-- The end of a file, on the example tables.
use j_messenger.Common.{ℕ, ◌≡◌, refl, Bool, true, false, List, [], ◌∷◌, Option, none, some, String}
use j_messenger.Common.Results.{ok}
use j_messenger.Store.{Store, FileRow, deleting}
use j_messenger.Files.{lookup}
use j_messenger.Files.Deletion.{
  Queue, Tables, valid_reason, is_going, schedule_delete, handle_delete,
}
use j_messenger.Files.Ending.{schedule_delete_again}
use j_messenger.Jobs.{JobRow}
use j_messenger.Jobs.Batch.{done}
use j_messenger.Examples.{chat_store, file_id, other_id, picture, result_or}

abbrev queue : Queue
queue = record { hash = λ s. "hash"; uuid = other_id; payload_of = λ id. "{}" }

abbrev scheduled : Tables
scheduled =
    result_or (schedule_delete queue file_id "removed" 100 (chat_store, [])) (chat_store, [])

scheduled_ok : schedule_delete queue file_id "removed" 100 (chat_store, []) ≡ ok scheduled
unfolding schedule_delete valid_reason lookup j_messenger.Common.text_dec
    j_messenger.Jobs.Enqueue.enqueue j_messenger.Jobs.Enqueue.valid_input
    j_messenger.Jobs.Enqueue.valid_kind j_messenger.Names.utf16_length
    j_messenger.Names.valid_server_id j_messenger.Jobs.Enqueue.valid_dedup_key
    j_messenger.Names.valid_uuid
scheduled_ok = refl

found : lookup file_id chat_store ≡ some picture
unfolding lookup j_messenger.Common.text_dec
found = refl

valid : valid_reason "again" ≡ true
unfolding valid_reason
valid = refl

schedule_delete_again_example :
    (schedule_delete queue file_id "again" 200 scheduled ≡ ok scheduled)
    × ((r' : FileRow) × (lookup file_id scheduled.0 ≡ some r') × (is_going r'.state ≡ true))
schedule_delete_again_example =
    schedule_delete_again queue queue file_id "removed" "again" 100 200 chat_store scheduled.0 []
      scheduled.1 picture found valid scheduled_ok

abbrev going : Store
going = record chat_store { files = record picture { state = deleting } ∷ [] }

going_found : lookup file_id going ≡ some (record picture { state = deleting })
unfolding lookup j_messenger.Common.text_dec
going_found = refl

handled :
    handle_delete (some file_id) true 300 going going
    ≡ (done, (handle_delete (some file_id) true 300 going going).1)
unfolding handle_delete j_messenger.Names.valid_uuid lookup j_messenger.Common.text_dec
handled = refl
