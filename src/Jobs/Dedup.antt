-- ===== src/Jobs/Dedup.antt =====
-- A job that is enqueued under a key is enqueued once.
use j_messenger.Common.{
  ℕ, ◌≡◌, true, ◌&&◌, List, [], ◌∷◌, some, String, arith, same, if◌then◌else◌, or_else, select_one,
  select_one-append, Option-cases, inl, inr,
}
use j_messenger.Common.Results.{ok, err, conflict}
use j_messenger.Jobs.{JobRow}
use j_messenger.Jobs.Enqueue.{EnqueueInput, enqueue, valid_input, has_key, new_job}

-- Enqueued again under its key, a job keeps the id of the first time and nothing changes, if its kind
-- and the hash of its payload have not changed; else it is a conflict.
pub enqueue_again :
    (hash : String → String) (uuid uuid' : String) (i i' : EnqueueInput) (now now' : ℕ)
    (jobs jobs' : List JobRow) (id key : String)
    → enqueue hash uuid i now jobs ≡ ok (id, jobs')
    → i.dedup_key ≡ some key
    → i'.dedup_key ≡ some key
    → i'.server_id ≡ i.server_id
    → valid_input i' ≡ true
    → enqueue hash uuid' i' now' jobs' ≡ (
        if same i.kind i'.kind && same (hash i.payload) (hash i'.payload)
        then ok (id, jobs')
        else err conflict)
unfolding enqueue
enqueue_again hash uuid uuid' i i' now now' jobs jobs' id key e k k' sv valid =
    elim (Option-cases (select_one (has_key (or_else i.server_id "") i.dedup_key) jobs)) [
      | inl missing ↦ ground (
        arith,
        select_one-append (has_key (or_else i.server_id "") i.dedup_key) jobs
            (new_job hash i (or_else i.id uuid) now ∷ []) missing,
      )
      | inr (r, found) ↦ ground arith
    ]
