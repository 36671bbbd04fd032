-- ===== src/Files/Upload.antt =====
-- `prepare` of apps/server/src/modules/files/index.ts from the stream on. What other requests do
-- meanwhile is a parameter.
use j_messenger.Common.{
  ℕ, ◌+◌, ◌-◌, Bool, true, false, not, ◌&&◌, ◌||◌, List, [], ◌∷◌, ◌++◌, Option, String, ltb, leb,
  ◌==◌, if◌then◌else◌, length, take, update, exists, every, or_else,
}
use j_messenger.Common.Results.{
  Result, ok, err, bad_request, conflict, too_large, internal, throw_if, or_throw, ◌>>=◌, ◌>>◌,
}
use j_messenger.Names.{codes, valid_uuid}
use j_messenger.Store.{Store, Context, FileRow, FileState, uploading, ready}
use j_messenger.Files.{is_file, lookup}
use j_messenger.Files.Sniff.{sniff_stored}
use j_messenger.Files.Reservation.{
  Naming, Policy, Disk, Piece, chunk, other, broken, UploadInput, Request, check_upload, reserve,
}

-- What has come of the stream: `bytes`, `head`, and the file
pub record Received : Type 0 where
  pub bytes : ℕ
  pub head : List ℕ
  pub stored : List ℕ

abbrev pub add_piece : Received → List ℕ → Received
add_piece r p = record {
  bytes = r.bytes + length p;
  head = if ltb (length r.head) 8192 then r.head ++ take (8192 - length r.head) p else r.head;
  stored = r.stored ++ p;
}

-- The loop over the stream
unfoldable pub receive : ℕ → Received → List Piece → Result Received
receive reserved r [] = ok r
receive reserved r (chunk p ∷ ps) = do
  throw_if (ltb reserved (r.bytes + length p)) too_large
  receive reserved (add_piece r p) ps
receive reserved r (other ∷ ps) = err bad_request
receive reserved r (broken ∷ ps) = err internal

-- The test of `filePath`
unfoldable pub valid_key : String → Bool
valid_key key =
    length (codes key) == 36
    && every (λ c. (leb b'0' c && leb c b'9') || (leb b'a' c && leb c b'f') || c == b'-')
        (codes key)

-- `prepare` from the stream to the object in its place: the number of bytes
unfoldable pub store_object : Disk → UploadInput → Request → Result ℕ
store_object d i q = do
  r ← receive q.reserved (record { bytes = 0; head = []; stored = [] }) i.stream
  throw_if (not d.written) internal
  throw_if
      (ltb r.bytes 1
        || not (or_else i.size_bytes r.bytes == r.bytes)
        || not (sniff_stored d.readable d.is_utf8 r.stored q.ext r.head))
      bad_request
  throw_if (not d.moved) internal
  ok r.bytes

abbrev pub is_uploading : FileState → Bool
is_uploading uploading = true
is_uploading _ = false

abbrev pub in_upload : String → FileRow → Bool
in_upload id r = is_file id r && is_uploading r.state

-- The last transaction of `prepare`
unfoldable pub finish_upload : String → ℕ → Store → Result Store
finish_upload id bytes s = do
  throw_if (not (exists (in_upload id) s.files)) conflict
  ok (record s {
    files = update (in_upload id) (λ r. record r { state = ready; size_bytes = bytes }) s.files;
  })

pub record FileDto : Type 0 where
  pub id : String
  pub filename : Option String
  pub content_type : String
  pub size_bytes : ℕ
  pub status : FileState

-- `dto`
unfoldable pub file_dto : FileRow → FileDto
file_dto r = record {
  id = r.id;
  filename = r.filename;
  content_type = r.mime_type;
  size_bytes = r.size_bytes;
  status = if is_uploading r.state then ready else r.state;
}

abbrev pub keep_object : Disk → UploadInput → Request → String → Result ℕ
keep_object d i q key = do throw_if (not (valid_key key)) internal; store_object d i q

-- `prepare` after its first transaction. An upload that fails leaves its row to `reconcileOrphans`.
unfoldable pub upload :
    Disk → UploadInput → Request → String → String → Store → Result FileDto × Store
upload d i q id key s = elim (keep_object d i q key) [
  | err e ↦ (err e, s)
  | ok bytes ↦ elim (finish_upload id bytes s) [
    | err e ↦ (err e, s)
    | ok s' ↦ (do r ← or_throw (lookup id s') internal; ok (file_dto r), s')
  ]
]

abbrev pub begin_upload :
    Policy → Context → ℕ → Request → String → String → ℕ → Store → Result Store
begin_upload policy c conversation q id key now s = do
  throw_if (not (valid_uuid id)) internal
  reserve policy c conversation q id key now s

-- `prepare`: the tables when it is called and when its first transaction begins, and what others do to
-- them until its last one
unfoldable pub prepare :
    Naming
    → Policy
    → Disk
    → (Store → Store)
    → Context
    → ℕ
    → UploadInput
    → String
    → String
    → ℕ
    → Store
    → Store
    → Result FileDto × Store
prepare p policy d meanwhile c conversation i id key now seen s =
    elim (check_upload p policy d c conversation i now seen) [
      | err e ↦ (err e, s)
      | ok q ↦ elim (begin_upload policy c conversation q id key now s) [
        | err e ↦ (err e, s)
        | ok s' ↦ upload d i q id key (meanwhile s')
      ]
    ]
