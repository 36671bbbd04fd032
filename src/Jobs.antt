-- ===== src/Jobs.antt =====
-- apps/server/src/platform/jobs/index.ts: the table of durable jobs, the leases on it, and the loop
-- that runs the handlers. The payload stands as its canonical JSON text.
pub mod Dedup
pub mod Enqueue
pub mod Leases
pub mod Batch
use j_messenger.Common.{
  ℕ, zero, suc, ◌+◌, ◌-◌, ◌*◌, ◌^◌, min, Bool, true, false, not, ◌&&◌, ◌||◌, List, [], ◌∷◌, ◌++◌,
  Option, none, some, String, ltb, leb, ◌==◌, same, if◌then◌else◌, is_some, or_else, length, select,
  select_one, update, exists, every,
}
use j_messenger.Common.Results.{
  Result, ok, err, conflict, not_found, internal, unavailable, throw_if, ◌>>=◌, ◌>>◌,
}
use j_messenger.Common.Sorting.{sort}
use j_messenger.Names.{codes, name_le, valid_server_id, valid_uuid, utf16_length}

pub data Status : Type 0 where
  pending running completed failed : Status

pub record JobRow : Type 0 where
  pub id : String
  pub server_id : String
  pub kind : String
  pub payload_json : String
  pub payload_hash : String
  pub request_id : Option String
  pub dedup_key : Option String
  pub status : Status
  pub attempt : ℕ
  pub next_run_at : ℕ
  pub lease_owner : Option String
  pub lease_until : Option ℕ
  pub reason_code : Option String
  pub created_at : ℕ
  pub updated_at : ℕ

abbrev pub opt : (String → Bool) → Option String → Bool
opt p none = true
opt p (some s) = p s

abbrev pub has_id : String → JobRow → Bool
has_id id r = same r.id id

-- `get`
unfoldable pub get : String → List JobRow → Option JobRow
get id jobs = select_one (has_id id) jobs

abbrev pub is_failed : Status → Bool
is_failed failed = true
is_failed _ = false

-- `resume`
unfoldable pub resume : String → ℕ → List JobRow → Result (List JobRow)
resume id now jobs = do
  let p = λ (r : JobRow). has_id id r && is_failed r.status
  throw_if (not (exists p jobs)) not_found
  ok (
      update p
        (λ r. record r {
          status = pending;
          attempt = 0;
          next_run_at = now;
          lease_owner = none;
          lease_until = none;
          reason_code = none;
          updated_at = now;
        })
        jobs)

abbrev pub over : ℕ → Option ℕ → Bool
over now none = false
over now (some t) = leb t now

-- (status='pending' AND next_run_at<=?) OR (status='running' AND lease_until<=?)
unfoldable pub is_due : ℕ → JobRow → Bool
is_due now r = elim r.status [
  | pending ↦ leb r.next_run_at now
  | running ↦ over now r.lease_until
  | completed ↦ false
  | failed ↦ false
]

-- ORDER BY next_run_at,created_at,id
unfoldable pub before : JobRow → JobRow → Bool
before r q =
    ltb r.next_run_at q.next_run_at
    || (r.next_run_at == q.next_run_at
        && (ltb r.created_at q.created_at || (r.created_at == q.created_at && name_le r.id q.id)))

abbrev pub head? {ℓ} : {A : Type ℓ} → List A → Option A
head? [] = none
head? (x ∷ xs) = some x

-- The query of `claim`.
unfoldable pub next_due : ℕ → List JobRow → Option JobRow
next_due now jobs = head? (sort before (select (is_due now) jobs))

-- The row of a job that has been tried too often, and of one that is handed out.
abbrev pub exhausted : JobRow → JobRow
exhausted r = record r {
  status = failed;
  attempt = suc r.attempt;
  lease_owner = none;
  lease_until = none;
  reason_code = some "max_attempts";
}

abbrev pub leased : String → ℕ → JobRow → JobRow
leased owner until r = record r {
  status = running;
  attempt = suc r.attempt;
  lease_owner = some owner;
  lease_until = some until;
  reason_code = none;
}

-- The UPDATE that hands a job out.
unfoldable pub hand_out : String → ℕ → ℕ → JobRow → List JobRow → List JobRow
hand_out owner until now r jobs =
    update (λ q. has_id r.id q && is_due now q)
      (λ q. record q {
        status = running;
        attempt = suc r.attempt;
        lease_owner = some owner;
        lease_until = some until;
        reason_code = none;
        updated_at = now;
      })
      jobs

-- The UPDATE that gives a job up.
unfoldable pub give_up : ℕ → JobRow → List JobRow → List JobRow
give_up now r jobs =
    update (has_id r.id)
      (λ q. record q {
        status = failed;
        attempt = suc r.attempt;
        lease_owner = none;
        lease_until = none;
        reason_code = some "max_attempts";
        updated_at = now;
      })
      jobs

-- `claim`, of the job that the query has found
unfoldable pub claim_row :
    String → ℕ → ℕ → ℕ → Option JobRow → List JobRow → Option JobRow × List JobRow
claim_row owner lease_ms max_attempts now none jobs = (none, jobs)
claim_row owner lease_ms max_attempts now (some r) jobs =
    if ltb max_attempts (suc r.attempt)
    then (some (exhausted r), give_up now r jobs)
    else (some (leased owner (now + lease_ms) r), hand_out owner (now + lease_ms) now r jobs)

-- `claim`
unfoldable pub claim : String → ℕ → ℕ → ℕ → List JobRow → Option JobRow × List JobRow
claim owner lease_ms max_attempts now jobs =
    claim_row owner lease_ms max_attempts now (next_due now jobs) jobs

abbrev is_running : Status → Bool
is_running running = true
is_running _ = false

abbrev ahead : ℕ → Option ℕ → Bool
ahead now none = false
ahead now (some t) = ltb now t

-- WHERE id=? AND status='running' AND lease_owner=? AND lease_until>?
abbrev pub holds : String → String → ℕ → JobRow → Bool
holds id owner now r =
    has_id id r
    && is_running r.status
    && is_some r.lease_owner
    && opt (same owner) r.lease_owner
    && ahead now r.lease_until

-- The UPDATE of `complete`, `retry` and `fail`, and whether it changed a row.
unfoldable pub settle : String → String → ℕ → (JobRow → JobRow) → List JobRow → Bool × List JobRow
settle id owner now f jobs = (
  exists (holds id owner now) jobs,
  update (holds id owner now)
      (λ r. f (record r { lease_owner = none; lease_until = none; updated_at = now })) jobs,
)

-- `complete`
unfoldable pub complete : String → String → ℕ → List JobRow → Bool × List JobRow
complete id owner now jobs =
    settle id owner now (λ r. record r { status = completed; reason_code = none }) jobs

-- `retry`
unfoldable pub retry : String → String → ℕ → String → ℕ → List JobRow → Bool × List JobRow
retry id owner at reason now jobs =
    settle id owner now
      (λ r. record r { status = pending; next_run_at = at; reason_code = some reason }) jobs

-- `fail`
unfoldable pub fail : String → String → String → ℕ → List JobRow → Bool × List JobRow
fail id owner reason now jobs =
    settle id owner now (λ r. record r { status = failed; reason_code = some reason }) jobs
