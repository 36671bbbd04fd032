-- ===== src/Files/Reservation.antt =====
-- `prepare` of apps/server/src/modules/files/index.ts up to the row of the upload. Names of paths and the
-- state of the disk are parameters.
use j_messenger.Common.{
  ℕ, ◌+◌, ◌*◌, Bool, true, false, not, ◌&&◌, ◌||◌, List, [], ◌∷◌, ◌++◌, Option, none, some, String,
  ltb, leb, ◌==◌, same, if◌then◌else◌, exists, or_else,
}
use j_messenger.Common.Results.{
  Result, ok, bad_request, too_large, internal, unavailable, throw_if, or_throw, ◌>>=◌, ◌>>◌,
}
use j_messenger.Names.{utf16_length}
use j_messenger.Store.{Store, Context, FileRow, FileState, uploading, deleted, day}
use j_messenger.Conversations.{require_member, recheck_member}
use j_messenger.Files.{is_file}

abbrev pub max_bytes : ℕ
max_bytes = 5000000

-- `MIME`
unfoldable pub mime : String → Option String
mime type =
    if same type "png"
    then some "image/png"
    else if same type "jpg"
    then some "image/jpeg"
    else if same type "webp"
    then some "image/webp"
    else if same type "pdf"
    then some "application/pdf"
    else if same type "txt"
    then some "text/plain"
    else if same type "csv"
    then some "text/csv"
    else if same type "docx"
    then some "application/vnd.openxmlformats-officedocument.wordprocessingml.document"
    else if same type "xlsx"
    then some "application/vnd.openxmlformats-officedocument.spreadsheetml.sheet"
    else if same type "zip"
    then some "application/zip"
    else none

-- What Node does with names: `clean` takes the last part of a path, in NFC, without control characters
-- and trimmed; `extension` is the lower-case extension without its dot.
pub record Naming : Type 0 where
  pub clean : String → String
  pub extension : String → String

-- `safeName`
unfoldable pub safe_name : Naming → String → Result String
safe_name p s = do
  let name = p.clean s
  throw_if
      (utf16_length name == 0 || ltb 255 (utf16_length name) || same name "." || same name "..")
      bad_request
  ok name

pub record Policy : Type 0 where
  pub quota_bytes : ℕ
  pub minimum_free_bytes : ℕ

-- The test of `createFilesService`
unfoldable pub valid_policy : Policy → Bool
valid_policy p = leb max_bytes p.quota_bytes

-- The disk: whether folders are made, what is free, and whether the object is written and moved
pub record Disk : Type 0 where
  pub folders : Bool
  pub free : ℕ
  pub temporary_free : ℕ
  pub written : Bool
  pub moved : Bool
  pub readable : Bool
  pub is_utf8 : List ℕ → Bool

-- A piece of the stream: bytes, something else, or a failure
pub data Piece : Type 0 where
  chunk : List ℕ → Piece
  other broken : Piece

pub record UploadInput : Type 0 where
  pub filename : String
  pub content_type : String
  pub size_bytes : Option ℕ
  pub stream : List Piece

-- What the upload asks for: the bytes reserved, the name, its extension and the MIME type
pub record Request : Type 0 where
  pub reserved : ℕ
  pub name : String
  pub ext : String
  pub mime_type : String

abbrev wrong_size : Option ℕ → Bool
wrong_size none = false
wrong_size (some n) = ltb n 1 || ltb max_bytes n

abbrev pub reserved_bytes : UploadInput → ℕ
reserved_bytes i = or_else i.size_bytes max_bytes

-- `prepare` before its first transaction
unfoldable pub check_upload :
    Naming → Policy → Disk → Context → ℕ → UploadInput → ℕ → Store → Result Request
check_upload p policy d c conversation i now s = do
  require_member c conversation now s
  throw_if (wrong_size i.size_bytes) too_large
  name ← safe_name p i.filename
  let ext = p.extension name
  let type = if same ext "jpeg" then "jpg" else ext
  mime_type ← or_throw (mime type) bad_request
  throw_if (not (same type i.content_type)) bad_request
  throw_if (not d.folders) internal
  throw_if
      (ltb d.free (reserved_bytes i + policy.minimum_free_bytes)
        || ltb d.temporary_free (reserved_bytes i + policy.minimum_free_bytes))
      unavailable
  ok (record { reserved = reserved_bytes i; name = name; ext = ext; mime_type = mime_type })

abbrev pub occupies : FileState → Bool
occupies deleted = false
occupies _ = true

abbrev pub weight : String → FileRow → ℕ
weight server r = if same r.server_id server && occupies r.state then r.size_bytes else 0

-- SELECT SUM(size_bytes) … state IN ('uploading','ready','attached','deleting')
abbrev pub used : String → List FileRow → ℕ
used server [] = 0
used server (r ∷ rs) = weight server r + used server rs

abbrev pub new_file : Context → ℕ → Request → String → String → ℕ → FileRow
new_file c conversation q id key now = record {
  id = id;
  server_id = c.server_id;
  owner_user_id = c.user_id;
  conversation_id = conversation;
  filename = some q.name;
  mime_type = q.mime_type;
  size_bytes = q.reserved;
  object_key = key;
  state = uploading;
  created_at = now;
  expires_at = now + 14 * day;
  message_id = none;
}

-- The first transaction of `prepare`; ids and object keys are unique.
unfoldable pub reserve : Policy → Context → ℕ → Request → String → String → ℕ → Store → Result Store
reserve policy c conversation q id key now s = do
  recheck_member c conversation now s
  throw_if (ltb policy.quota_bytes (used c.server_id s.files + q.reserved)) too_large
  throw_if (exists (is_file id) s.files || exists (λ (r : FileRow). same r.object_key key) s.files)
      unavailable
  ok (record s { files = s.files ++ new_file c conversation q id key now ∷ [] })
