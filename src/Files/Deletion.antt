-- ===== src/Files/Deletion.antt =====
-- How a file of apps/server/src/modules/files/index.ts ends: `scheduleDelete` and the handler of its
-- job, `getLiveFileIds` and `expireBatch`. The removal of the stored object is a parameter.
use Prim.Native.String.{◌++◌ as join}
use j_messenger.Common.{
  ℕ, suc, ◌+◌, Bool, true, false, not, ◌&&◌, ◌||◌, List, [], ◌∷◌, map, Option, none, some, String,
  ltb, leb, ◌==◌, same, if◌then◌else◌, length, take, select, update, every,
}
use j_messenger.Common.Results.{Result, ok, bad_request, not_found, throw_if, or_throw, ◌>>=◌, ◌>>◌}
use j_messenger.Common.Sorting.{sort}
use j_messenger.Names.{codes, name_le, distinct_names, valid_uuid}
use j_messenger.Store.{Store, Context, FileRow, FileState, ready, attached, deleting, deleted}
use j_messenger.Conversations.{recheck_member}
use j_messenger.Files.{is_file, lookup, can_bind, file_id}
use j_messenger.Jobs.{JobRow}
use j_messenger.Jobs.Enqueue.{EnqueueInput, enqueue}
use j_messenger.Jobs.Batch.{JobResult, done, again, broken}

-- What `scheduleDelete` takes from elsewhere: SHA-256, the next id, and the text of the job's payload
-- for a file.
pub record Queue : Type 0 where
  pub hash : String → String
  pub uuid : String
  pub payload_of : String → String

-- The tables of files and of jobs.
abbrev pub Tables : Type 0
Tables = Store × List JobRow

abbrev word : ℕ → Bool
word c = (leb b'a' c && leb c b'z') || (leb b'0' c && leb c b'9') || c == b'_'

abbrev is_reason : List ℕ → Bool
is_reason [] = false
is_reason (c ∷ cs) = leb b'a' c && leb c b'z' && every word cs && leb (length cs) 63

-- `/^[a-z][a-z0-9_]{0,63}$/`
unfoldable pub valid_reason : String → Bool
valid_reason s = is_reason (codes s)

abbrev pub is_going : FileState → Bool
is_going deleting = true
is_going deleted = true
is_going _ = false

-- UPDATE files SET state='deleting' WHERE id=?
abbrev pub mark_deleting : String → List FileRow → List FileRow
mark_deleting id files = update (is_file id) (λ r. record r { state = deleting }) files

abbrev pub delete_job : Queue → FileRow → EnqueueInput
delete_job q r = record {
  id = none;
  server_id = some r.server_id;
  kind = "files.delete";
  payload = q.payload_of r.id;
  request_id = none;
  dedup_key = some (join "files.delete:" r.id);
}

-- `scheduleDelete`
unfoldable pub schedule_delete : Queue → String → String → ℕ → Tables → Result Tables
schedule_delete q id reason now (s, jobs) = do
  throw_if (not (valid_reason reason)) bad_request
  elim (lookup id s) [
    | none ↦ ok (s, jobs)
    | some r ↦ elim (is_going r.state) [
      | true ↦ ok (s, jobs)
      | false ↦ do
        (_, jobs') ← enqueue q.hash q.uuid (delete_job q r) now jobs
        ok (record s { files = mark_deleting id s.files }, jobs')
    ]
  ]

abbrev pub is_deleting : FileState → Bool
is_deleting deleting = true
is_deleting _ = false

-- UPDATE files SET state='deleted',filename=NULL,… WHERE id=? AND state='deleting'
unfoldable pub clear_file : String → Store → Store
clear_file id s = record s {
  files =
      update (λ r. is_file id r && is_deleting r.state)
        (λ r. record r {
          state = deleted;
          filename = none;
          mime_type = "application/octet-stream";
          size_bytes = 0;
        })
        s.files;
}

-- The handler of 'files.delete': the file that the payload names, whether its object could be removed,
-- and the tables before and after the removal.
unfoldable pub handle_delete : Option String → Bool → ℕ → Store → Store → JobResult × Store
handle_delete none removed now seen s = (broken, s)
handle_delete (some id) removed now seen s =
    if not (valid_uuid id) then (broken, s) else elim (lookup id seen) [
      | none ↦ (done, s)
      | some r ↦ elim r.state [
        | deleted ↦ (done, s)
        | deleting ↦ if removed then (done, clear_file id s) else (again (some (now + 1000)), s)
        | _ ↦ (again (some (now + 1000)), s)
      ]
    ]

-- The loop of `getLiveFileIds`.
unfoldable pub live_each : Context → ℕ → List String → ℕ → Store → Result (List FileRow)
live_each c conversation [] now s = ok []
live_each c conversation (id ∷ ids) now s = do
  r ← or_throw (lookup id s) not_found
  throw_if (not (can_bind c conversation r) || leb r.expires_at now) not_found
  rs ← live_each c conversation ids now s
  ok (r ∷ rs)

-- `getLiveFileIds`
unfoldable pub get_live_file_ids : Context → ℕ → List String → ℕ → Store → Result (List FileRow)
get_live_file_ids c conversation ids now s = do
  recheck_member c conversation now s
  throw_if (not (length (distinct_names ids) == length ids)) bad_request
  live_each c conversation ids now s

abbrev may_expire : FileState → Bool
may_expire ready = true
may_expire attached = true
may_expire _ = false

-- WHERE server_id=? AND state IN ('ready','attached') AND created_at<=? AND id>?
abbrev pub expiring_file : String → ℕ → String → FileRow → Bool
expiring_file server cutoff after r =
    same r.server_id server
    && may_expire r.state
    && leb r.created_at cutoff
    && not (name_le r.id after)

-- The loop of `expireBatch`; each job gets the next id.
unfoldable pub schedule_each : (ℕ → Queue) → List String → ℕ → Tables → Result Tables
schedule_each q [] now t = ok t
schedule_each q (id ∷ ids) now t = do
  t' ← schedule_delete (q (length ids)) id "retention_expired" now t
  schedule_each q ids now t'

abbrev last_name : String → List String → String
last_name d [] = d
last_name d (x ∷ xs) = last_name x xs

pub record ExpiredFiles : Type 0 where
  pub file_ids : List String
  pub last_id : String
  pub has_more : Bool

-- `expireBatch`
unfoldable pub expire_batch :
    (ℕ → Queue) → String → ℕ → String → ℕ → ℕ → Tables → Result (ExpiredFiles × Tables)
expire_batch q server cutoff after limit now (s, jobs) = do
  throw_if (ltb limit 1 || ltb 100 limit) bad_request
  let rows =
      take (suc limit)
        (sort name_le (map file_id (select (expiring_file server cutoff after) s.files)))
  let batch = take limit rows
  t ← schedule_each q batch now (s, jobs)
  ok (
    record {
      file_ids = batch;
      last_id = last_name after batch;
      has_more = ltb limit (length rows);
    },
    t,
  )
