-- ===== src/Common/Results.antt =====
-- packages/contracts/src/schema.ts: the error codes, and a call that throws a `DomainError`.
use mathlib.Core.Path.{◌≡◌, refl}
use mathlib.Core.Bool.{Bool, true, false}
use mathlib.Core.Option.{Option, none, some}
use mathlib.Core.Logic.{◌⊎◌, inl, inr}

pub data ErrorCode : Type 0 where
  bad_request unauthorized forbidden not_found conflict sync_reset_required message_expired
        too_large rate_limited internal unavailable :
      ErrorCode

pub data Result {ℓ} (A : Type ℓ) : Type ℓ where
  ok : A → Result A
  err : ErrorCode → Result A

-- `if (bad) throw new DomainError(code)`
abbrev pub throw_if : Bool → ErrorCode → Result (Unit {0})
throw_if true e = err e
throw_if false e = ok tt

abbrev pub or_throw {ℓ} : {A : Type ℓ} → Option A → ErrorCode → Result A
or_throw none e = err e
or_throw (some a) e = ok a

-- A call whose error ends the caller.
infixl 5 ◌>>=◌ ◌>>◌
abbrev pub ◌>>=◌ {ℓ κ} : {S : Type ℓ} {T : Type κ} → Result S → (S → Result T) → Result T
err code >>= then_do = err code
ok value >>= then_do = then_do value

abbrev pub ◌>>◌ {ℓ κ} : {S : Type ℓ} {T : Type κ} → Result S → Result T → Result T
first >> next = first >>= λ _. next

pub Result-cases {ℓ} :
    {A : Type ℓ} (r : Result A) → ((a : A) × (r ≡ ok a)) ⊎ ((e : ErrorCode) × (r ≡ err e))
Result-cases (ok a) = inl (a, refl)
Result-cases (err e) = inr (e, refl)

module _ {ℓ κ} {S : Type ℓ} {T : Type κ} where
  -- Where a chain of calls succeeds, its first call has, and so has the rest on what it returned.
  pub >>=-eq-ok :
      (call : Result S) (rest : S → Result T) {end : T}
      → (call >>= rest) ≡ ok end
      → (value : S) × (call ≡ ok value) × (rest value ≡ ok end)
  >>=-eq-ok (err code) rest done = cc
  >>=-eq-ok (ok value) rest done = (value, refl, done)
