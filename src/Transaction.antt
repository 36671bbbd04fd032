-- ===== src/Transaction.antt =====
-- `Database.run` of apps/server/src/platform/database/index.ts: one transaction at a time, kept
-- whole or rolled back. A callback reads and writes the tables and may throw at any point; the log
-- lines that it defers to `afterCommit` are not modelled. What SQLite does is a parameter.
use j_messenger.Common.{
  ◌≡◌, refl, sym, ◌∙◌, Bool, true, false, not, ◌&&◌, is_some, arith, if◌then◌else◌, if_intro,
  Option, none, some, Option-cases, Bool-cases, inl, inr,
}
use j_messenger.Common.Results.{Result, ok, err, ErrorCode, internal, unavailable}

-- How a callback ends: it returns a value or a promise, or it throws.
pub data Ending {ℓ} (A : Type ℓ) : Type ℓ where
  returned : A → Ending A
  promised : Ending A
  thrown : ErrorCode → Ending A

-- A callback: how it ends, and the tables as it leaves them, whether it throws or not
abbrev pub Work {ℓ κ} : Type ℓ → Type κ → Type (ℓ ⊔ κ)
Work S A = S → Ending A × S

-- The tables as the connection sees them, and as they were at BEGIN while SQLite has a transaction
pub record Database (S : Type 0) : Type 0 where
  pub store : S
  pub begun_with : Option S
  pub transaction_active : Bool
  pub closed : Bool

-- What becomes of COMMIT: it is carried out, or it throws, and SQLite keeps the transaction or has
-- rolled it back.
pub data Commit : Type 0 where
  carried_out refused rolled_back : Commit

-- Whether SQLite carries out BEGIN IMMEDIATE, COMMIT and ROLLBACK
pub record Disk : Type 0 where
  pub begins : Bool
  pub commit : Commit
  pub rolls_back : Bool

abbrev is_returned : {A : Type 0} → Ending A → Bool
is_returned (returned a) = true
is_returned _ = false

abbrev is_carried_out : Commit → Bool
is_carried_out carried_out = true
is_carried_out _ = false

abbrev pub is_ok : {A : Type 0} → Result A → Bool
is_ok (ok a) = true
is_ok (err e) = false

module _ {S : Type 0} where
  -- The tables of BEGIN again, where there is a transaction
  restore : Database S → Option S → Database S
  restore d none = d
  restore d (some s) = record d { store = s; begun_with = none }

  -- BEGIN IMMEDIATE, which throws inside a transaction
  begin : Disk → Database S → Option (Database S)
  begin disk d = elim d.begun_with [
    | some s ↦ none
    | none ↦ if disk.begins then some (record d { begun_with = some d.store }) else none
  ]

  -- COMMIT: whether it is carried out
  commit : Disk → Database S → Bool × Database S
  unfolding restore
  commit disk d = elim disk.commit [
    | carried_out ↦ (true, record d { begun_with = none })
    | refused ↦ (false, d)
    | rolled_back ↦ (false, restore d d.begun_with)
  ]

  -- ROLLBACK, whose failure is swallowed
  rollback : Disk → Database S → Database S
  unfolding restore
  rollback disk d = if disk.rolls_back then restore d d.begun_with else d

  -- The `catch`
  give_up : Disk → Database S → Database S
  unfolding rollback
  give_up disk d = record (rollback disk d) { transaction_active = false }

  -- What follows the callback
  finish : {A : Type 0} → Disk → Database S → Ending A → Result A × Database S
  unfolding commit give_up
  finish disk d (thrown e) = (err e, give_up disk d)
  finish disk d promised = (err internal, give_up disk d)
  finish disk d (returned a) =
      let (carried, d') = commit disk d in
      if carried
      then (ok a, record d' { transaction_active = false })
      else (err unavailable, give_up disk d')

  -- The callback, in the transaction
  work_in : {A : Type 0} → Disk → Work S A → Database S → Result A × Database S
  unfolding finish
  work_in disk work d =
      let (ending, s) = work d.store in
      finish disk (record d { store = s; transaction_active = true }) ending

  -- `run`
  pub run : {A : Type 0} → Disk → Work S A → Database S → Result A × Database S
  unfolding begin work_in
  run disk work d =
      if d.closed
      then (err internal, d)
      else if d.transaction_active
      then (err internal, d)
      else elim (begin disk d) [
        | none ↦ (err unavailable, record d { transaction_active = false })
        | some d' ↦ work_in disk work d'
      ]

  -- Whether a transaction can take place: the database is open, nothing is under way, SQLite does its
  -- part, and the callback returns a value
  abbrev pub can_commit : {A : Type 0} → Disk → Database S → Ending A → Bool
  can_commit disk d ending =
      not d.closed
      && not d.transaction_active
      && not (is_some d.begun_with)
      && disk.begins
      && is_carried_out disk.commit
      && is_returned ending

  -- The tables, and SQLite's transaction, after `run`
  abbrev pub Kept : {A : Type 0} → Database S → Work S A → Result A × Database S → Type 0
  Kept d work (ok a, d') = (work d.store ≡ (returned a, d'.store)) × (d'.begun_with ≡ none)
  Kept d work (err e, d') = (d'.store ≡ d.store) × (d'.begun_with ≡ d.begun_with)

  abbrev in_work : Database S → S → Database S
  in_work d s = record d { store = s; begun_with = some d.store; transaction_active = true }

  give_up-in_work :
      (disk : Disk) (d : Database S) (s : S)
      → disk.rolls_back ≡ true
      → ((give_up disk (in_work d s)).store ≡ d.store)
        × ((give_up disk (in_work d s)).begun_with ≡ none)
  unfolding give_up rollback restore
  give_up-in_work disk d s sound = rw sound (refl, refl)

  returned-Kept :
      {A : Type 0} (disk : Disk) (work : Work S A) (d : Database S) (a : A) (s : S) (c : Commit)
      → disk.rolls_back ≡ true
      → d.begun_with ≡ none
      → work d.store ≡ (returned a, s)
      → disk.commit ≡ c
      → Kept d work (finish disk (in_work d s) (returned a))
  unfolding finish commit restore give_up rollback
  returned-Kept disk work d a s carried_out sound idle h e = rw e (h, refl)
  returned-Kept disk work d a s refused sound idle h e = rw (e, sound) (refl, sym idle)
  returned-Kept disk work d a s rolled_back sound idle h e = rw (e, sound) (refl, sym idle)

  finish-Kept :
      {A : Type 0} (disk : Disk) (work : Work S A) (d : Database S) (ending : Ending A) (s : S)
      → disk.rolls_back ≡ true
      → d.begun_with ≡ none
      → work d.store ≡ (ending, s)
      → Kept d work (finish disk (in_work d s) ending)
  unfolding finish
  finish-Kept disk work d (thrown e) s sound idle h =
      let (same_store, ended) = give_up-in_work disk d s sound in (same_store, ended ∙ sym idle)
  finish-Kept disk work d promised s sound idle h =
      let (same_store, ended) = give_up-in_work disk d s sound in (same_store, ended ∙ sym idle)
  finish-Kept disk work d (returned a) s sound idle h =
      returned-Kept disk work d a s disk.commit sound idle h refl

  run-Kept :
      {A : Type 0} (disk : Disk) (work : Work S A) (d : Database S)
      → disk.rolls_back ≡ true
      → Kept d work (run disk work d)
  unfolding run begin work_in
  run-Kept disk work d sound =
      let P = Kept d work in
      if_intro P d.closed (λ _. (refl, refl))
        λ _.
          if_intro P d.transaction_active (λ _. (refl, refl))
            λ _. elim (Option-cases d.begun_with) [
              | inr (s, stuck) ↦ rw stuck (refl, stuck)
              | inl idle ↦ elim (Bool-cases disk.begins) [
                | inr fails ↦ rw (idle, fails) (refl, idle)
                | inl begins ↦
                    rw (idle, begins)
                      (let (ending, s) = work d.store in
                        finish-Kept disk work (record d { begun_with = none }) ending s sound refl
                          refl)
              ]
            ]

  is_ok-finish :
      {A : Type 0} (disk : Disk) (d : Database S) (ending : Ending A)
      → is_ok (finish disk d ending).0 ≡ (is_carried_out disk.commit && is_returned ending)
  unfolding finish commit
  is_ok-finish disk d (thrown e) = ground arith
  is_ok-finish disk d promised = ground arith
  is_ok-finish disk d (returned a) = ground arith

  is_ok-run :
      {A : Type 0} (disk : Disk) (work : Work S A) (d : Database S)
      → is_ok (run disk work d).0 ≡ can_commit disk d (work d.store).0
  unfolding run begin work_in
  is_ok-run disk work d =
      let (ending, s) = work d.store in
      let inside : Database S = record d {
        store = s;
        begun_with = some d.store;
        transaction_active = true;
      } in
      ground (arith, is_ok-finish disk inside ending)

  -- What a caller of `run` may rely on
  abbrev pub Committed : {A : Type 0} → Disk → Work S A → Database S → Type 0
  Committed disk work d =
      (is_ok (run disk work d).0 ≡ can_commit disk d (work d.store).0)
      × Kept d work (run disk work d)

  -- A transaction is all or nothing, if SQLite carries out a ROLLBACK of a transaction that is open. It
  -- succeeds exactly if the database is open, no transaction is under way, BEGIN and COMMIT are
  -- carried out, and the callback returns a value that is no promise: then that is the result, its writes
  -- are kept and SQLite has no transaction left. Else `run` rejects, and the tables are as they were,
  -- whatever the callback had written before it threw.
  pub run-Committed :
      {A : Type 0} (disk : Disk) (work : Work S A) (d : Database S)
      → disk.rolls_back ≡ true
      → Committed disk work d
  run-Committed disk work d sound = (is_ok-run disk work d, run-Kept disk work d sound)

  -- On an open database with no transaction under way, where BEGIN and COMMIT are carried out, what a
  -- callback returns is returned, and its writes are kept.
  pub run-returned :
      {A : Type 0} (disk : Disk) (work : Work S A) (d : Database S) (a : A) (s : S)
      → disk.begins ≡ true
      → disk.commit ≡ carried_out
      → d.closed ≡ false
      → d.transaction_active ≡ false
      → d.begun_with ≡ none
      → work d.store ≡ (returned a, s)
      → run disk work d ≡ (ok a, record d { store = s })
  unfolding run begin work_in finish commit
  run-returned disk work d a s b c open_now free idle e = ground arith

  -- However it ends, no transaction stays open in the connection's own count that was not before.
  pub run-transaction_active :
      {A : Type 0} (disk : Disk) (work : Work S A) (d : Database S)
      → (run disk work d).1.transaction_active ≡ d.transaction_active
  unfolding run work_in finish give_up
  run-transaction_active disk work d = ground arith
