-- ===== src/Common/Sorting.antt =====
-- Insertion sort by a total order, for ORDER BY and `.sort`.
use mathlib.Core.Path.{◌≡◌, refl, ap, ◌∙◌}
use mathlib.Core.Bool.{Bool, true, false, ◌&&◌}
use mathlib.Core.List.{List, [], ◌∷◌}
use native.Mathlib.Omega.{arith}
use j_messenger.Common.Tests.{if◌then◌else◌}

module _ {ℓ} {A : Type ℓ} (le : A → A → Bool) where
  unfoldable pub insert : A → List A → List A
  insert x [] = x ∷ []
  insert x (y ∷ ys) = if le x y then x ∷ y ∷ ys else y ∷ insert x ys

  unfoldable pub sort : List A → List A
  unfolding insert
  sort [] = []
  sort (x ∷ xs) = insert x (sort xs)

  -- Each element is at most the next.
  abbrev pub sorted : List A → Bool
  sorted [] = true
  sorted (x ∷ []) = true
  sorted (x ∷ y ∷ ys) = le x y && sorted (y ∷ ys)

  module _ (total : (x y : A) → le x y ≡ false → le y x ≡ true) where
    insert_after :
        (x y : A) (ys : List A)
        → le y x ≡ true
        → sorted (y ∷ ys) ≡ true
        → sorted (insert x ys) ≡ true
        → sorted (y ∷ insert x ys) ≡ true
    unfolding insert
    insert_after x y [] yx s t = ground arith
    insert_after x y (z ∷ zs) yx s t = ground arith

    insert-sorted : (x : A) (ys : List A) → sorted ys ≡ true → sorted (insert x ys) ≡ true
    unfolding insert
    insert-sorted x [] s = refl
    insert-sorted x (y ∷ []) s = ground (arith, total x y)
    insert-sorted x (y ∷ z ∷ zs) s =
        ground (arith, total x y, insert_after x y (z ∷ zs), insert-sorted x (z ∷ zs))

    pub sort-sorted : (xs : List A) → sorted (sort xs) ≡ true
    unfolding sort
    sort-sorted [] = refl
    sort-sorted (x ∷ xs) = insert-sorted x (sort xs) (sort-sorted xs)

  sort_of_sorted : (xs : List A) → sorted xs ≡ true → sort xs ≡ xs
  unfolding sort insert
  sort_of_sorted [] s = refl
  sort_of_sorted (x ∷ []) s = refl
  sort_of_sorted (x ∷ y ∷ ys) s =
      ap (insert x) (sort_of_sorted (y ∷ ys) (ground arith)) ∙ ground arith

  pub sort_idem :
      ((x y : A) → le x y ≡ false → le y x ≡ true) → (xs : List A) → sort (sort xs) ≡ sort xs
  sort_idem total xs = sort_of_sorted (sort xs) (sort-sorted total xs)
