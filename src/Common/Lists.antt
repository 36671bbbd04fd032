-- ===== src/Common/Lists.antt =====
-- Lists over the native numbers, and a table's statements: SELECT, UPDATE and DELETE with a test.
use Prim.Native.Nat.{ℕ, zero, suc, ◌+◌}
use mathlib.Core.Path.{◌≡◌, refl}
use mathlib.Core.Bool.{Bool, true, false, ◌&&◌, ◌||◌}
use mathlib.Core.Option.{Option, none, some}
use mathlib.Core.List.{List, [], ◌∷◌, ◌++◌}
use native.Mathlib.Omega.{arith}
use j_messenger.Common.Tests.{if◌then◌else◌, is_some}

module _ {ℓ} {A : Type ℓ} where
  abbrev pub length : List A → ℕ
  length [] = 0
  length (x ∷ xs) = suc (length xs)

  -- `xs.slice(0, n)`, and LIMIT
  abbrev pub take : ℕ → List A → List A
  take zero xs = []
  take (suc n) [] = []
  take (suc n) (x ∷ xs) = x ∷ take n xs

  -- `xs.at(-1)`
  abbrev pub last_or : A → List A → A
  last_or d [] = d
  last_or d (x ∷ xs) = last_or x xs

  abbrev pub get_last? : List A → Option A
  get_last? [] = none
  get_last? (x ∷ xs) = some (last_or x xs)

  -- SELECT … WHERE p
  abbrev pub select : (A → Bool) → List A → List A
  select p [] = []
  select p (x ∷ xs) = if p x then x ∷ select p xs else select p xs

  -- `.get()`: the first row, if there is one
  abbrev pub select_one : (A → Bool) → List A → Option A
  select_one p [] = none
  select_one p (x ∷ xs) = if p x then some x else select_one p xs

  -- UPDATE … SET f WHERE p
  abbrev pub update : (A → Bool) → (A → A) → List A → List A
  update p f [] = []
  update p f (x ∷ xs) = (if p x then f x else x) ∷ update p f xs

  -- DELETE … WHERE p
  abbrev pub delete : (A → Bool) → List A → List A
  delete p [] = []
  delete p (x ∷ xs) = if p x then delete p xs else x ∷ delete p xs

  abbrev pub exists : (A → Bool) → List A → Bool
  exists p [] = false
  exists p (x ∷ xs) = p x || exists p xs

  abbrev pub every : (A → Bool) → List A → Bool
  every p [] = true
  every p (x ∷ xs) = p x && every p xs

  -- What a query by key returns passes its test.
  pub select_one-test : (p : A → Bool) (xs : List A) (r : A) → select_one p xs ≡ some r → p r ≡ true
  select_one-test p [] r e = cc
  select_one-test p (x ∷ xs) r e = ground (arith, select_one-test p xs r)

  pub length-append : (xs ys : List A) → length (xs ++ ys) ≡ length xs + length ys
  length-append [] ys = omega arith
  length-append (x ∷ xs) ys = omega (arith, length-append xs ys)

  pub select-append :
      (p : A → Bool) (xs ys : List A) → select p (xs ++ ys) ≡ select p xs ++ select p ys
  select-append p [] ys = refl
  select-append p (x ∷ xs) ys = ground (arith, select-append p xs ys)

module _ {ℓ κ} {A : Type ℓ} (P : A → Type κ) where
  abbrev pub All : List A → Type κ
  All [] = Unit
  All (x ∷ xs) = P x × All xs

  pub All-append : (xs ys : List A) → All xs → All ys → All (xs ++ ys)
  All-append [] ys hx hy = hy
  All-append (x ∷ xs) ys hx hy = (hx.0, All-append xs ys hx.1 hy)

  pub All-select : (p : A → Bool) (xs : List A) → All xs → All (select p xs)
  All-select p [] h = tt
  All-select p (x ∷ xs) h = ground (arith, All-select p xs h.1)

  pub All-delete : (p : A → Bool) (xs : List A) → All xs → All (delete p xs)
  All-delete p [] h = tt
  All-delete p (x ∷ xs) h = ground (arith, All-delete p xs h.1)

  pub All-take : (n : ℕ) (xs : List A) → All xs → All (take n xs)
  All-take zero xs h = tt
  All-take (suc n) [] h = tt
  All-take (suc n) (x ∷ xs) h = (h.0, All-take n xs h.1)

  -- What a query by key returns is a row of the table, and passes the test.
  pub All-select_one :
      (p : A → Bool) (xs : List A) {r : A} → All xs → select_one p xs ≡ some r → P r × (p r ≡ true)
  All-select_one p [] h e = cc
  All-select_one p (x ∷ xs) {r} h e = ground (arith, All-select_one p xs {r = r} h.1)

module _ {ℓ κ μ} {A : Type ℓ} (P : A → Type κ) (Q : A → Type μ) (f : (x : A) → P x → Q x) where
  pub All-map : (xs : List A) → All P xs → All Q xs
  All-map [] h = tt
  All-map (x ∷ xs) h = (f x h.0, All-map xs h.1)

module _ {ℓ} {A : Type ℓ} (p q : A → Bool) where
  -- A query finds none of the rows that a delete with a weaker test has taken away.
  pub select_one-delete :
      (xs : List A) → ((x : A) → p x ≡ true → q x ≡ true) → select_one p (delete q xs) ≡ none
  select_one-delete [] h = refl
  select_one-delete (x ∷ xs) h = ground (arith, h x, select_one-delete xs h)

  -- A query succeeds where the row that another one returns passes its test.
  pub select_one-other :
      (xs : List A) {r : A}
      → select_one p xs ≡ some r
      → q r ≡ true
      → is_some (select_one q xs) ≡ true
  select_one-other [] e t = cc
  select_one-other (x ∷ xs) {r} e t = ground (arith, select_one-other xs {r = r})

  -- A delete does not disturb a query whose rows it keeps.
  pub select_one-delete_keep :
      (xs : List A)
      → ((x : A) → p x ≡ true → q x ≡ false)
      → select_one p (delete q xs) ≡ select_one p xs
  select_one-delete_keep [] h = refl
  select_one-delete_keep (x ∷ xs) h = ground (arith, h x, select_one-delete_keep xs h)

module _ {ℓ} {A : Type ℓ} (p : A → Bool) where
  pub select_one-append :
      (xs ys : List A) → select_one p xs ≡ none → select_one p (xs ++ ys) ≡ select_one p ys
  select_one-append [] ys h = refl
  select_one-append (x ∷ xs) ys h = ground (arith, select_one-append xs ys)

  pub select_one-append_some :
      (xs ys : List A) {r : A} → select_one p xs ≡ some r → select_one p (xs ++ ys) ≡ some r
  select_one-append_some [] ys h = cc
  select_one-append_some (x ∷ xs) ys {r} h = ground (arith, select_one-append_some xs ys {r = r})

  -- Rows that do not pass the test, added at the end, do not show.
  pub select_one-append_miss :
      (xs ys : List A) → exists p ys ≡ false → select_one p (xs ++ ys) ≡ select_one p xs
  select_one-append_miss [] [] h = refl
  select_one-append_miss [] (y ∷ ys) h = ground (arith, select_one-append_miss [] ys)
  select_one-append_miss (x ∷ xs) ys h = ground (arith, select_one-append_miss xs ys)

  pub exists-append : (xs ys : List A) → exists p (xs ++ ys) ≡ (exists p xs || exists p ys)
  exists-append [] ys = refl
  exists-append (x ∷ xs) ys = ground (arith, exists-append xs ys)

module _ {ℓ κ} {A : Type ℓ} (P : A → Type κ) (p : A → Bool) where
  -- A query finds nothing where every row fails its test.
  pub select_one-none :
      (xs : List A) → All P xs → ((x : A) → P x → p x ≡ false) → select_one p xs ≡ none
  select_one-none [] h f = refl
  select_one-none (x ∷ xs) h f = ground (arith, f x h.0, select_one-none xs h.1 f)
