-- ===== src/Examples/Tasks.antt =====
-- Transactions, and jobs and their leases.
use j_messenger.Common.{
  ℕ, suc, ◌+◌, ◌≤◌, ◌<◌, ◌≡◌, refl, Bool, true, false, List, [], ◌∷◌, Option, none, some, String,
  arith, text_dec, or_else, same, ltb, ◌&&◌, if◌then◌else◌,
}
use j_messenger.Common.Results.{ok, err, conflict}
use j_messenger.Transaction.{
  Work, returned, thrown, carried_out, refused, Database, Disk, run, Committed, run-Committed,
  run-returned,
}
use j_messenger.Jobs.{JobRow, pending, running, claim, complete}
use j_messenger.Jobs.Enqueue.{EnqueueInput, enqueue, valid_input}
use j_messenger.Jobs.Leases.{IsKeyed, claim-complete}
use j_messenger.Jobs.Dedup.{enqueue_again}
use j_messenger.Jobs.Batch.{Runner, Turn, Counts, done, run_batch}
use j_messenger.Examples.{file_id, other_id, result_or}

abbrev database : Database ℕ
database = record { store = 3; begun_with = none; transaction_active = false; closed = false }

-- COMMIT throws, and SQLite keeps the transaction.
abbrev full : Disk
full = record { begins = true; commit = refused; rolls_back = true }

-- Half of the work is done when the callback throws.
abbrev halfway : Work ℕ ℕ
halfway n = (thrown conflict, suc n)

abbrev bump : Work ℕ ℕ
bump n = (returned n, suc n)

run-Committed_example : Committed (record full { commit = carried_out }) halfway database
run-Committed_example = run-Committed (record full { commit = carried_out }) halfway database refl

bumped :
    run (record full { commit = carried_out }) bump database ≡ (ok 3, record database { store = 4 })
bumped =
    run-returned (record full { commit = carried_out }) bump database 3 4 refl refl refl refl refl
      refl

abbrev hash : String → String
hash s = "hash"

abbrev input : EnqueueInput
input = record {
  id = some file_id;
  server_id = some "main";
  kind = "file.delete";
  payload = "{}";
  request_id = none;
  dedup_key = some "key";
}

abbrev queued : String × List JobRow
queued = result_or (enqueue hash other_id input 100 []) ("", [])

queued_ok : enqueue hash other_id input 100 [] ≡ ok queued
unfolding enqueue valid_input j_messenger.Jobs.Enqueue.valid_kind j_messenger.Names.utf16_length
    j_messenger.Names.valid_server_id j_messenger.Names.valid_uuid
    j_messenger.Jobs.Enqueue.valid_dedup_key
queued_ok = refl

input_valid : valid_input input ≡ true
unfolding valid_input j_messenger.Jobs.Enqueue.valid_kind j_messenger.Names.utf16_length
    j_messenger.Names.valid_server_id j_messenger.Names.valid_uuid
    j_messenger.Jobs.Enqueue.valid_dedup_key
input_valid = refl

enqueue_again_example : enqueue hash other_id input 200 queued.1 ≡ (
    if same "file.delete" "file.delete" && same "hash" "hash"
    then ok (queued.0, queued.1)
    else err conflict)
enqueue_again_example =
    enqueue_again hash other_id other_id input input 100 200 [] queued.1 queued.0 "key" queued_ok
      refl refl refl input_valid

-- Two jobs, of which the first is due at 100.
abbrev job : String → ℕ → JobRow
job id at = record {
  id = id;
  server_id = "main";
  kind = "file.delete";
  payload_json = "{}";
  payload_hash = "hash";
  request_id = none;
  dedup_key = none;
  status = pending;
  attempt = 0;
  next_run_at = at;
  lease_owner = none;
  lease_until = none;
  reason_code = none;
  created_at = 10;
  updated_at = 10;
}

abbrev jobs : List JobRow
jobs = job "a" 50 ∷ job "b" 150 ∷ []

apart : (same "a" "b" ≡ false) × (same "b" "a" ≡ false)
unfolding text_dec
apart = (refl, refl)

jobs-IsKeyed : IsKeyed jobs
jobs-IsKeyed = (
  (λ e. refl, (λ e. ground (arith, apart.1), tt)),
  ((λ e. ground (arith, apart.0), (λ e. refl, tt)), tt),
)

abbrev first : JobRow
first = or_else (claim "me" 30000 10 100 jobs).0 (job "" 0)

abbrev after_first : List JobRow
after_first = (claim "me" 30000 10 100 jobs).1

first_claimed : claim "me" 30000 10 100 jobs ≡ (some first, after_first)
unfolding claim j_messenger.Jobs.claim_row j_messenger.Jobs.next_due j_messenger.Common.Sorting.sort
    j_messenger.Jobs.is_due
first_claimed = refl

first_running : first.status ≡ running
unfolding claim j_messenger.Jobs.claim_row j_messenger.Jobs.next_due j_messenger.Common.Sorting.sort
    j_messenger.Jobs.is_due
first_running = refl

abbrev second : JobRow
second = or_else (claim "you" 30000 10 200 after_first).0 (job "" 0)

claim-complete_example :
    (complete first.id "you" 200 after_first).0 ≡ (same "me" "you" && ltb 200 (100 + 30000))
claim-complete_example =
    claim-complete "me" "you" 30000 10 100 200 jobs after_first first jobs-IsKeyed first_claimed
      first_running

abbrev runner : Runner
runner = record {
  owner = "me";
  lease_ms = 30000;
  timeout_ms = 25000;
  max_attempts = 10;
  handlers = λ kind. some (λ j. some done);
}

abbrev turns : ℕ → Turn
turns i = record { stopped = false; claimed_at = 200; settled_at = 300; meanwhile = λ rows. rows }

abbrev nothing_done : Counts
nothing_done = record { completed = 0; retried = 0; failed = 0 }

abbrev batch : Counts × List JobRow
batch = result_or (run_batch runner turns 5 jobs) (nothing_done, [])

batch_ok : run_batch runner turns 5 jobs ≡ ok batch
unfolding run_batch
batch_ok = refl
