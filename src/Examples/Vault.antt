-- ===== src/Examples/Vault.antt =====
-- An upload to the conversation of the example tables, and a download from it.
use j_messenger.Common.{
  ℕ, ◌≤◌, ◌<◌, ◌≡◌, refl, ◌↔◌, Bool, true, false, List, [], ◌∷◌, Option, none, some, String, arith,
  same, if◌then◌else◌,
}
use j_messenger.Common.Results.{Result, ok}
use j_messenger.Store.{Store, FileRow, attached, ready}
use j_messenger.Conversations.{assert_context}
use j_messenger.Conversations.Access.{IsMember}
use j_messenger.Files.{lookup, bind}
use j_messenger.Files.Deletion.{Queue, Tables, valid_reason, clear_file, schedule_delete}
use j_messenger.Files.Upload.{FileDto, file_dto, valid_key, prepare}
use j_messenger.Files.Reservation.{Naming, Policy, Disk, UploadInput, Piece, chunk, used}
use j_messenger.Files.Orphans.{open_download, reconcile_orphans}
use j_messenger.Files.Quota.{IsWithin, IsSized, prepare-IsWithin}
use j_messenger.Files.Frugal.{clear_file-Keeps, files-IsWithin}
use j_messenger.Files.Download.{open_download_iff}
use j_messenger.Examples.{ann, bob, chat_store, file_id, other_id, picture, result_or}

abbrev naming : Naming
naming = record { clean = λ s. s; extension = λ s. "png" }

abbrev policy : Policy
policy = record { quota_bytes = 6000000; minimum_free_bytes = 1000 }

abbrev disk : Disk
disk = record {
  folders = true;
  free = 10000000;
  temporary_free = 10000000;
  written = true;
  moved = true;
  readable = true;
  is_utf8 = λ bs. true;
}

abbrev photo : UploadInput
photo = record {
  filename = "photo.png";
  content_type = "png";
  size_bytes = none;
  stream = chunk (137 ∷ 80 ∷ 78 ∷ 71 ∷ []) ∷ chunk (13 ∷ 10 ∷ 26 ∷ 10 ∷ 0 ∷ []) ∷ [];
}

abbrev object_key : String
object_key = "5b0c1de0-3a57-4c3e-9d7c-0d1f5b2f7a11"

abbrev prepared : Result FileDto × Store
prepared =
    prepare naming policy disk (clear_file file_id) ann 5 photo other_id object_key 100 chat_store
      chat_store

photo_kept :
    prepared.0
    ≡ ok (record {
      id = other_id;
      filename = some "photo.png";
      content_type = "image/png";
      size_bytes = 9;
      status = ready;
    })
unfolding prepare j_messenger.Files.Reservation.check_upload
    j_messenger.Conversations.require_member assert_context j_messenger.Identity.get
    j_messenger.Names.valid_server_id j_messenger.Common.text_dec j_messenger.Conversations.get_row
    j_messenger.Files.Reservation.safe_name j_messenger.Names.utf16_length
    j_messenger.Files.Reservation.mime j_messenger.Names.valid_uuid
    j_messenger.Files.Reservation.reserve j_messenger.Conversations.recheck_member
    j_messenger.Identity.session_active j_messenger.Files.Upload.upload valid_key
    j_messenger.Files.Sniff.sniff j_messenger.Files.Sniff.sniff_stored file_dto
    j_messenger.Files.Upload.finish_upload j_messenger.Files.Upload.receive
    j_messenger.Files.Upload.store_object lookup j_messenger.Identity.session_row
    j_messenger.Identity.user_by_id clear_file
photo_kept = refl

within : IsWithin 6000000 chat_store
within server = ground arith

prepare-IsWithin_example : IsWithin 6000000 prepared.1
prepare-IsWithin_example =
    prepare-IsWithin naming policy disk (clear_file file_id) ann 5 photo other_id object_key 100
      chat_store chat_store
      (record {
        within = λ s. (clear_file-Keeps 6000000 other_id 5000000 file_id s).0;
        sized = λ s. (clear_file-Keeps 6000000 other_id 5000000 file_id s).1;
      })
      within

abbrev shared : FileRow
shared = record picture { state = attached; object_key = object_key; message_id = some 1 }

abbrev shared_store : Store
shared_store = record chat_store { files = shared ∷ [] }

shared_found : lookup file_id shared_store ≡ some shared
unfolding lookup j_messenger.Common.text_dec
shared_found = refl

key_shaped : valid_key object_key ≡ true
unfolding valid_key
key_shaped = refl

open_download_iff_example :
    (open_download bob file_id 100 shared_store shared_store ≡ ok (file_dto shared)) ↔ (
      (shared.server_id ≡ bob.server_id)
      × (shared.state ≡ attached)
      × (100 < shared.expires_at)
      × (assert_context bob 100 shared_store ≡ ok tt)
      × IsMember bob 5 shared_store)
open_download_iff_example =
    open_download_iff bob file_id 100 shared_store shared_store shared shared_found key_shaped

abbrev bound : Store
bound = result_or (bind ann 5 1 (file_id ∷ []) 100 chat_store) chat_store

bind_done : bind ann 5 1 (file_id ∷ []) 100 chat_store ≡ ok bound
unfolding bind j_messenger.Conversations.recheck_member j_messenger.Identity.session_active
    j_messenger.Names.valid_server_id j_messenger.Common.text_dec j_messenger.Conversations.get_row
    j_messenger.Names.distinct_from j_messenger.Files.bind_each lookup
bind_done = refl

abbrev queue : Queue
queue = record { hash = λ s. "hash"; uuid = other_id; payload_of = λ id. "{}" }

abbrev scheduled : Tables
scheduled =
    result_or (schedule_delete queue file_id "removed" 100 (chat_store, [])) (chat_store, [])

delete_scheduled :
    schedule_delete queue file_id "removed" 100 (chat_store, []) ≡ ok (scheduled.0, scheduled.1)
unfolding schedule_delete valid_reason lookup j_messenger.Common.text_dec
    j_messenger.Jobs.Enqueue.enqueue j_messenger.Jobs.Enqueue.valid_input
    j_messenger.Jobs.Enqueue.valid_kind j_messenger.Names.utf16_length
    j_messenger.Names.valid_server_id j_messenger.Jobs.Enqueue.valid_dedup_key
    j_messenger.Names.valid_uuid
delete_scheduled = refl

picture_found : lookup file_id chat_store ≡ some picture
unfolding lookup j_messenger.Common.text_dec
picture_found = refl

small_picture : IsSized other_id 9 chat_store.files
small_picture = (λ u. ground arith, tt)

files-IsWithin_example :
    (IsWithin 6000000 bound × IsSized other_id 9 bound.files)
    × (IsWithin 6000000 scheduled.0 × IsSized other_id 9 scheduled.0.files)
    × (IsWithin 6000000 (clear_file file_id chat_store)
        × IsSized other_id 9 (clear_file file_id chat_store).files)
    × (IsWithin 6000000 (reconcile_orphans (λ k. true) (λ i s. s) 10 5000000 chat_store).1
        × IsSized other_id 9
            (reconcile_orphans (λ k. true) (λ i s. s) 10 5000000 chat_store).1.files)
files-IsWithin_example =
    files-IsWithin 6000000 other_id 9 (λ k. true) (λ i s. s) (λ i s. (λ w. w, λ z. z)) ann 5 1
      (file_id ∷ []) queue file_id "removed" 10 100 5000000 chat_store bound scheduled.0 []
      scheduled.1 within small_picture (picture_found, tt) bind_done delete_scheduled
