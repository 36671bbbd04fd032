-- ===== src/Jobs/Batch.antt =====
-- The runner of apps/server/src/platform/jobs/index.ts: `finishFailure` and `runBatch`.
use j_messenger.Common.{
  ℕ, zero, suc, ◌+◌, ◌-◌, ◌*◌, ◌^◌, ◌≤◌, ◌≡◌, min, Bool, true, false, ◌||◌, ◌&&◌, List, Option,
  none, some, String, arith, is_some, or_else, ltb, leb, if◌then◌else◌,
}
use j_messenger.Common.Results.{Result, ok, internal, throw_if, ◌>>◌}
use j_messenger.Jobs.{JobRow, failed, claim, complete, retry, fail}

-- What a handler returns; `none` stands for one that throws or runs out of time.
pub data JobResult : Type 0 where
  done : JobResult
  again : Option ℕ → JobResult
  broken : JobResult

abbrev pub Handler : Type 0
Handler = JobRow → Option JobResult

-- The options of `createJobRunner`, and the runner's own id.
pub record Runner : Type 0 where
  pub owner : String
  pub lease_ms : ℕ
  pub timeout_ms : ℕ
  pub max_attempts : ℕ
  pub handlers : String → Option Handler

-- What `createJobRunner` accepts.
unfoldable pub valid_runner : Runner → Bool
valid_runner o =
    leb 10 o.lease_ms && leb 1 o.timeout_ms && ltb o.timeout_ms o.lease_ms && leb 1 o.max_attempts

-- One pass of the loop: the clock when the job is claimed and when its result is settled, what other
-- runners do to the table in between, and whether the runner has been stopped before the pass.
pub record Turn : Type 0 where
  pub stopped : Bool
  pub claimed_at : ℕ
  pub settled_at : ℕ
  pub meanwhile : List JobRow → List JobRow

pub record Counts : Type 0 where
  pub completed : ℕ
  pub retried : ℕ
  pub failed : ℕ

abbrev max : ℕ → ℕ → ℕ
max a b = if leb a b then b else a

-- The delay before the next attempt: as asked for, or doubling; from one second to five minutes.
unfoldable pub retry_delay : ℕ → Option ℕ → ℕ → ℕ
retry_delay attempt none now = max 1000 (min 300000 (min 300000 (1000 * 2 ^ (attempt - 1))))
retry_delay attempt (some at) now = max 1000 (min 300000 (at - now))

-- `finishFailure`
unfoldable pub finish_failure :
    Runner → JobRow → String → Bool → Option ℕ → ℕ → List JobRow → Bool × List JobRow
finish_failure o job code true requested now jobs = fail job.id o.owner code now jobs
finish_failure o job code false requested now jobs =
    retry job.id o.owner (now + retry_delay job.attempt requested now) code now jobs

-- Which counter a result adds to.
pub data Verdict : Type 0 where
  completes retries fails : Verdict

-- The result of a handler: its verdict, and the table with whether it was still the runner's to settle.
unfoldable pub settle_result :
    Runner → JobRow → Option JobResult → ℕ → List JobRow → Verdict × (Bool × List JobRow)
settle_result o job none now jobs =
    let terminal = leb o.max_attempts job.attempt in
    (
      if terminal then fails else retries,
      finish_failure o job "handler_error" terminal none now jobs,
    )
settle_result o job (some done) now jobs = (completes, complete job.id o.owner now jobs)
settle_result o job (some broken) now jobs =
    (fails, finish_failure o job "handler_failed" true none now jobs)
settle_result o job (some (again at)) now jobs =
    if leb o.max_attempts job.attempt
    then (fails, finish_failure o job "max_attempts" true none now jobs)
    else (retries, finish_failure o job "handler_retry" false at now jobs)

-- The body of the loop after a claim that returned a job to run.
unfoldable pub run_job : Runner → JobRow → ℕ → List JobRow → Verdict × (Bool × List JobRow)
run_job o job now jobs = elim (o.handlers job.kind) [
  | none ↦ (fails, finish_failure o job "handler_missing" true none now jobs)
  | some handle ↦ settle_result o job (handle job) now jobs
]

unfoldable pub tally : Verdict → Bool → Counts → Counts
tally v false n = n
tally completes true n = record n { completed = suc n.completed }
tally retries true n = record n { retried = suc n.retried }
tally fails true n = record n { failed = suc n.failed }

-- One pass after its claim: `none` ends the loop.
unfoldable pub run_claimed :
    Runner → Turn → Counts → Option JobRow → List JobRow → Option Counts × List JobRow
run_claimed o t n none jobs = (none, jobs)
run_claimed o t n (some job) jobs = elim job.status [
  | failed ↦ (some (record n { failed = suc n.failed }), jobs)
  | _ ↦
      let (v, (changed, jobs')) = run_job o job t.settled_at (t.meanwhile jobs) in
      (some (tally v changed n), jobs')
]

unfoldable pub run_turn : Runner → Turn → Counts → List JobRow → Option Counts × List JobRow
run_turn o t n jobs =
    let (job, jobs') = claim o.owner o.lease_ms o.max_attempts t.claimed_at jobs in
    run_claimed o t n job jobs'

-- The loop of `runBatch`, by the number of passes left.
unfoldable pub passes : Runner → (ℕ → Turn) → ℕ → Counts → List JobRow → Counts × List JobRow
passes o turns zero n jobs = (n, jobs)
passes o turns (suc left) n jobs =
    let (next, jobs') = run_turn o (turns left) n jobs in
    let rest = passes o turns left (or_else next n) jobs' in
    if (turns left).stopped then (n, jobs) else if is_some next then rest else (n, jobs')

-- `runBatch`
unfoldable pub run_batch : Runner → (ℕ → Turn) → ℕ → List JobRow → Result (Counts × List JobRow)
run_batch o turns limit jobs = do
  throw_if (ltb limit 1 || ltb 1000 limit) internal
  ok (passes o turns limit (record { completed = 0; retried = 0; failed = 0 }) jobs)

abbrev pub total : Counts → ℕ
total n = n.completed + n.retried + n.failed

tally-total : (v : Verdict) (b : Bool) (n : Counts) → total (tally v b n) ≤ suc (total n)
unfolding tally
tally-total v false n = omega arith
tally-total completes true n = omega arith
tally-total retries true n = omega arith
tally-total fails true n = omega arith

run_claimed-total :
    (o : Runner) (t : Turn) (n : Counts) (job : Option JobRow) (jobs : List JobRow)
    → total (or_else (run_claimed o t n job jobs).0 n) ≤ suc (total n)
unfolding run_claimed
run_claimed-total o t n none jobs = omega arith
run_claimed-total o t n (some job) jobs =
    let settled = run_job o job t.settled_at (t.meanwhile jobs) in
    ground (arith, tally-total settled.0 settled.1.0 n)

run_turn-total :
    (o : Runner) (t : Turn) (n : Counts) (jobs : List JobRow)
    → total (or_else (run_turn o t n jobs).0 n) ≤ suc (total n)
unfolding run_turn
run_turn-total o t n jobs =
    let claimed = claim o.owner o.lease_ms o.max_attempts t.claimed_at jobs in
    run_claimed-total o t n claimed.0 claimed.1

passes-total :
    (o : Runner) (turns : ℕ → Turn) (left : ℕ) (n : Counts) (jobs : List JobRow)
    → total (passes o turns left n jobs).0 ≤ left + total n
unfolding passes
passes-total o turns zero n jobs = omega arith
passes-total o turns (suc left) n jobs =
    let next = run_turn o (turns left) n jobs in
    ground (
      arith,
      run_turn-total o (turns left) n jobs,
      passes-total o turns left (or_else next.0 n) next.1,
    )

-- The three counts of a batch are together at most its limit.
pub run_batch-total :
    (o : Runner) (turns : ℕ → Turn) (limit : ℕ) (jobs jobs' : List JobRow) (n : Counts)
    → run_batch o turns limit jobs ≡ ok (n, jobs')
    → n.completed + n.retried + n.failed ≤ limit
unfolding run_batch
run_batch-total o turns limit jobs jobs' n e =
    ground
      (arith, passes-total o turns limit (record { completed = 0; retried = 0; failed = 0 }) jobs)

-- A job that is to be tried again waits from one second to five minutes, whatever its handler asks for.
pub retry_delay-bounds :
    (attempt now : ℕ) (requested : Option ℕ)
    → (1000 ≤ retry_delay attempt requested now) × (retry_delay attempt requested now ≤ 300000)
unfolding retry_delay
retry_delay-bounds attempt now none = ground arith
retry_delay-bounds attempt now (some at) = ground arith
