-- ===== src/Jobs/Leases.antt =====
-- A lease belongs to one runner until it runs out.
use j_messenger.Common.{
  ℕ, ◌+◌, ◌≡◌, refl, subst, if_intro, true, ◌&&◌, List, [], ◌∷◌, some, String, arith, ltb, same,
  select, exists, All, All-map, All-select, Bool-cases, inl, inr, Option-cases,
}
use j_messenger.Common.Sorting.{sort, insert}
use j_messenger.Jobs.{
  JobRow, running, is_due, before, head?, next_due, claim, claim_row, holds, has_id, settle, leased,
  complete, hand_out,
}

-- `id` is the primary key.
abbrev pub IsKeyed : List JobRow → Type 0
IsKeyed jobs = All (λ (r : JobRow). All (λ (q : JobRow). q.id ≡ r.id → q ≡ r) jobs) jobs

module _ {ℓ} (P : JobRow → Type ℓ) where
  All-insert : (r : JobRow) (rs : List JobRow) → P r → All P rs → All P (insert before r rs)
  unfolding insert
  All-insert r [] p h = (p, tt)
  All-insert r (q ∷ rs) p h =
      if_intro (All P) (before r q) (λ _. (p, h)) (λ _. (h.0, All-insert r rs p h.1))

  All-sort : (rs : List JobRow) → All P rs → All P (sort before rs)
  unfolding sort
  All-sort [] h = tt
  All-sort (r ∷ rs) h = All-insert r (sort before rs) h.0 (All-sort rs h.1)

  All-head? : (rs : List JobRow) {r : JobRow} → All P rs → head? rs ≡ some r → P r
  All-head? [] h e = cc
  All-head? (q ∷ rs) {r} h e = let same_row : q ≡ r = ground arith in subst P same_row h.0

  -- The job that the query finds is a row of the table.
  All-next_due :
      (now : ℕ) (jobs : List JobRow) {r : JobRow} → All P jobs → next_due now jobs ≡ some r → P r
  unfolding next_due
  All-next_due now jobs {r} h e =
      All-head? (sort before (select (is_due now) jobs))
        (All-sort (select (is_due now) jobs) (All-select P (is_due now) jobs h)) e

select-is_due :
    (now : ℕ) (jobs : List JobRow)
    → All (λ (r : JobRow). is_due now r ≡ true) (select (is_due now) jobs)
select-is_due now [] = tt
select-is_due now (r ∷ jobs) =
    if_intro (All (λ (r : JobRow). is_due now r ≡ true)) (is_due now r)
      (λ due. (due, select-is_due now jobs)) (λ _. select-is_due now jobs)

-- What the query finds is due.
pub next_due-is_due :
    (now : ℕ) (jobs : List JobRow) {r : JobRow} → next_due now jobs ≡ some r → is_due now r ≡ true
unfolding next_due
next_due-is_due now jobs {r} e =
    let Due = λ (r : JobRow). is_due now r ≡ true in
    All-head? Due (sort before (select (is_due now) jobs))
      (All-sort Due (select (is_due now) jobs) (select-is_due now jobs)) e

module _ (owner : String) (lease_ms max_attempts now : ℕ) (jobs : List JobRow) where
  -- What `claim` answers, from the query's row.
  claim-cases :
      (job : JobRow) (jobs' : List JobRow)
      → claim owner lease_ms max_attempts now jobs ≡ (some job, jobs')
      → (r : JobRow) × (next_due now jobs ≡ some r)
        × (job.id ≡ r.id)
        × (job.status ≡ running → jobs' ≡ hand_out owner (now + lease_ms) now r jobs)
  unfolding claim claim_row
  claim-cases job jobs' e = elim (Option-cases (next_due now jobs)) [
    | inl nothing ↦ absurd (ground arith)
    | inr (r, found) ↦ (r, found, ground arith, λ run. ground arith)
  ]

listed : (jobs : List JobRow) → All (λ (r : JobRow). exists (has_id r.id) jobs ≡ true) jobs
listed [] = tt
listed (q ∷ jobs) = (
  ground arith,
  All-map (λ (r : JobRow). exists (has_id r.id) jobs ≡ true)
      (λ (r : JobRow). exists (has_id r.id) (q ∷ jobs) ≡ true) (λ r there. ground arith) jobs
      (listed jobs),
)

leased-holds :
    (owner who : String) (until now later : ℕ) (r : JobRow)
    → holds r.id who later (record (leased owner until r) { updated_at = now })
      ≡ (same owner who && ltb later until)
leased-holds owner who until now later r = ground arith

hand_out-holds :
    (owner who : String) (until now later : ℕ) (r : JobRow) (jobs : List JobRow)
    → is_due now r ≡ true
    → All (λ (q : JobRow). q.id ≡ r.id → q ≡ r) jobs
    → exists (holds r.id who later) (hand_out owner until now r jobs)
      ≡ (exists (has_id r.id) jobs && (same owner who && ltb later until))
unfolding hand_out
hand_out-holds owner who until now later r [] due h = refl
hand_out-holds owner who until now later r (q ∷ jobs) due h =
    let rest = hand_out-holds owner who until now later r jobs due h.1 in
    elim (Bool-cases (has_id r.id q)) [
      | inl mine ↦
          let same_row : q ≡ r = h.0 (ground arith) in
          rw (mine, same_row, due, leased-holds owner who until now later r, rest) (ground arith)
      | inr other ↦ ground (arith, rest)
    ]

-- Of a job that has been handed out the result is accepted from the runner that holds its lease,
-- before the lease runs out, and from no other and not later.
pub claim-complete :
    (owner who : String) (lease_ms max_attempts now later : ℕ) (jobs jobs' : List JobRow)
    (job : JobRow)
    → IsKeyed jobs
    → claim owner lease_ms max_attempts now jobs ≡ (some job, jobs')
    → job.status ≡ running
    → (complete job.id who later jobs').0 ≡ (same owner who && ltb later (now + lease_ms))
unfolding complete settle
claim-complete owner who lease_ms max_attempts now later jobs jobs' job keyed e run =
    let (r, found, job_id, handed) = claim-cases owner lease_ms max_attempts now jobs job jobs' e in
    let keys =
      All-next_due (λ (r : JobRow). All (λ (q : JobRow). q.id ≡ r.id → q ≡ r) jobs) now jobs keyed
        found in
    let there =
      All-next_due (λ (r : JobRow). exists (has_id r.id) jobs ≡ true) now jobs (listed jobs)
        found in
    rw
      (
        handed run,
        job_id,
        hand_out-holds owner who (now + lease_ms) now later r jobs (next_due-is_due now jobs found)
            keys,
        there,
      )
      refl
