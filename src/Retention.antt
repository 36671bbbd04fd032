-- ===== src/Retention.antt =====
-- apps/server/src/modules/retention/index.ts: how long messages and files are kept, and the batches
-- that remove what is older. The services `files`, `messages` and `audit` are those of the other
-- modules, wired as bootstrap/application.ts does.
pub mod Kept
pub mod Spared
use j_messenger.Common.{
  ℕ, suc, ◌+◌, ◌-◌, ◌*◌, Bool, true, false, not, ◌&&◌, ◌||◌, List, [], ◌∷◌, Option, none, some,
  String, ltb, ◌==◌, same, if◌then◌else◌, or_else, length, select_one,
}
use j_messenger.Common.Results.{Result, ok, bad_request, forbidden, throw_if, ◌>>=◌, ◌>>◌}
use j_messenger.Names.{valid_server_id}
use j_messenger.Store.{Context, Store, day}
use j_messenger.Files.Deletion.{Tables, Queue, expire_batch}
use j_messenger.Messages.Purge.{purge_batch, expire_file_reference}
use j_messenger.Audit.{AuditLog, AuditEvent, Value, append}

pub record RetentionPolicy : Type 0 where
  pub message_days : ℕ
  pub file_days : ℕ
  pub version : ℕ

-- retention_policies
pub record PolicyRow : Type 0 where
  pub server_id : String
  pub policy : RetentionPolicy
  pub updated_at : ℕ

-- retention_progress, the rows of one kind; the last id is a number or a UUID
pub record ProgressRow (A : Type 0) : Type 0 where
  pub server_id : String
  pub last_id : Option A
  pub cutoff_at : Option ℕ
  pub policy_version : ℕ
  pub updated_at : ℕ

-- The tables of the module and of `audit`
pub record RetentionTables : Type 0 where
  pub policies : List PolicyRow
  pub message_progress : List (ProgressRow ℕ)
  pub file_progress : List (ProgressRow String)
  pub audit : AuditLog

-- `defaultPolicy`
abbrev pub default_policy : RetentionPolicy
default_policy = record { message_days = 5; file_days = 14; version = 1 }

abbrev policy_of : Option PolicyRow → RetentionPolicy
policy_of none = default_policy
policy_of (some r) = r.policy

-- `policy`
unfoldable pub policy : String → RetentionTables → RetentionPolicy
policy server t = policy_of (select_one (λ r. same r.server_id server) t.policies)

-- `get`, for a caller that `authorize` lets pass or does not
unfoldable pub get : Bool → Context → RetentionTables → Result RetentionPolicy
get authorized c t = do throw_if (not authorized) forbidden; ok (policy c.server_id t)

-- INSERT INTO retention_policies … ON CONFLICT(server_id) DO UPDATE
abbrev upsert_policy : PolicyRow → List PolicyRow → List PolicyRow
upsert_policy p [] = p ∷ []
upsert_policy p (r ∷ rs) = if same r.server_id p.server_id then p ∷ rs else r ∷ upsert_policy p rs

abbrev updated : ℕ → AuditEvent
updated version = record {
  action = "retention.policy.updated";
  target_id = none;
  metadata =
      ("policyVersion", Value.number version)
      ∷ ("messageDays", Value.number 5)
      ∷ ("attachmentDays", Value.number 14)
      ∷ [];
}

-- `update`
unfoldable pub update :
    Bool → Context → String → ℕ → ℕ → ℕ → RetentionTables → Result RetentionTables
update authorized c request message_days file_days now t = do
  throw_if (not authorized) forbidden
  throw_if (not (message_days == 5) || not (file_days == 14)) bad_request
  let version = suc (policy c.server_id t).version
  let row : PolicyRow = record {
    server_id = c.server_id;
    policy = record { message_days = 5; file_days = 14; version = version };
    updated_at = now;
  }
  audit ← append c request (updated version) now t.audit
  ok (record t { policies = upsert_policy row t.policies; audit = audit })

module _ {A : Type 0} where
  abbrev of_server : String → ProgressRow A → Bool
  of_server server r = same r.server_id server

  -- INSERT INTO retention_progress … ON CONFLICT(server_id,kind) DO UPDATE
  abbrev upsert_progress : ProgressRow A → List (ProgressRow A) → List (ProgressRow A)
  upsert_progress p [] = p ∷ []
  upsert_progress p (r ∷ rs) =
      if same r.server_id p.server_id then p ∷ rs else r ∷ upsert_progress p rs

  abbrev resumed : A → A × ℕ → ℕ → ProgressRow A → A × ℕ
  resumed start fresh version r = elim r.cutoff_at [
    | none ↦ fresh
    | some cutoff ↦ if r.policy_version == version then (or_else r.last_id start, cutoff) else fresh
  ]

  -- `getCursor`: where a pass goes on, and its cutoff
  unfoldable pub get_cursor : A → String → ℕ → ℕ → ℕ → List (ProgressRow A) → A × ℕ
  get_cursor start server version keep now rows =
      let fresh : A × ℕ = (start, now - keep * day) in
      elim (select_one (of_server server) rows) [
        | none ↦ fresh
        | some r ↦ resumed start fresh version r
      ]

  -- `write`, after a batch: the last id and the cutoff of a pass that is not over, else a new pass
  abbrev pub write :
      A → String → ℕ → ℕ → ℕ → ℕ → Bool → A → List (ProgressRow A) → List (ProgressRow A)
  write start server version keep now cutoff has_more last rows =
      upsert_progress
        (record {
          server_id = server;
          last_id = some (if has_more then last else start);
          cutoff_at = some (if has_more then cutoff else now - keep * day);
          policy_version = version;
          updated_at = now;
        })
        rows

-- The loop over the files of a batch
unfoldable pub event_each : String → List String → Store → Store
event_each server [] s = s
event_each server (f ∷ fs) s = event_each server fs (expire_file_reference server f s)

-- `RetentionProgress`
pub record RetentionProgress : Type 0 where
  pub messages : ℕ
  pub files : ℕ
  pub complete : Bool

-- `processBatch`
unfoldable pub process_batch :
    (ℕ → Queue)
    → String
    → ℕ
    → ℕ
    → Tables
    → RetentionTables
    → Result (RetentionProgress × Tables × RetentionTables)
process_batch q server limit now (s, jobs) t = do
  let current = policy server t
  let (after, cutoff) =
      get_cursor 0 server current.version current.message_days now t.message_progress
  (purged, s₁) ← purge_batch server cutoff after limit now s
  let (file_after, file_cutoff) =
      get_cursor "0" server current.version current.file_days now t.file_progress
  (expired, (s₂, jobs')) ← expire_batch q server file_cutoff file_after limit now (s₁, jobs)
  ok (
    record {
      messages = purged.processed;
      files = length expired.file_ids;
      complete = not purged.has_more && not expired.has_more;
    },
    (event_each server expired.file_ids s₂, jobs'),
    record t {
      message_progress =
          write 0 server current.version current.message_days now cutoff purged.has_more
            purged.last_id t.message_progress;
      file_progress =
          write "0" server current.version current.file_days now file_cutoff expired.has_more
            expired.last_id t.file_progress;
    },
  )

-- `purgeBatch`
unfoldable pub purge_by_admin :
    (ℕ → Queue)
    → Bool
    → Context
    → ℕ
    → ℕ
    → Tables
    → RetentionTables
    → Result ((ℕ × ℕ) × Tables × RetentionTables)
purge_by_admin q authorized c limit now tables t = do
  throw_if (not authorized) forbidden
  throw_if (ltb limit 1 || ltb 100 limit) bad_request
  (p, tables', t') ← process_batch q c.server_id limit now tables t
  ok ((p.messages, p.files), tables', t')

-- `runSystemBatch`
unfoldable pub run_system_batch :
    (ℕ → Queue)
    → String
    → ℕ
    → ℕ
    → Tables
    → RetentionTables
    → Result (RetentionProgress × Tables × RetentionTables)
run_system_batch q server limit now tables t = do
  throw_if (not (valid_server_id server) || ltb limit 1 || ltb 100 limit) bad_request
  process_batch q server limit now tables t
