-- ===== src/Decimal/Print.antt =====
-- A printed number is a decimal text, and reads back.
use native.Mathlib.Nat.{pow-suc}
use j_messenger.Common.{
  ℕ, zero, suc, ◌+◌, ◌-◌, ◌*◌, ◌/◌, ◌%◌, ◌≤◌, ◌<◌, ◌≡◌, refl, ◌↔◌, true, [], ◌∷◌, ◌++◌, arith,
  length, length-append, every, ltb, Bool-cases, inl, inr,
}
use j_messenger.Decimal.{
  Text, is_digit, is_positive_text, is_decimal_text, max_sqlite_id, big_int, positive, print_digits,
  to_text,
}

length-snoc : (s : Text) (c : ℕ) → length (s ++ c ∷ []) ≡ suc (length s)
length-snoc s c = omega (arith, length-append s (c ∷ []))

big_int-snoc : (s : Text) (c : ℕ) → big_int (s ++ c ∷ []) ≡ big_int s * 10 + (c - b'0')
unfolding big_int
big_int-snoc [] c = omega arith
big_int-snoc (d ∷ s) c =
    rw (length-snoc s c, pow-suc 10 (length s)) (omega (arith, big_int-snoc s c))

big_int-digit : (n : ℕ) → big_int ((b'0' + n) ∷ []) ≡ n
unfolding big_int
big_int-digit n = omega arith

big_int-print_digits : (f n : ℕ) → n < f → big_int (print_digits f n) ≡ n
unfolding print_digits
big_int-print_digits zero n h = absurd (omega arith)
big_int-print_digits (suc f) n h = elim (Bool-cases (ltb n 10)) [
  | inl small ↦ rw small (big_int-digit n)
  | inr large ↦ rw large (
      omega (
        arith,
        big_int-snoc (print_digits f (n / 10)) (b'0' + n % 10),
        big_int-print_digits f (n / 10) (ground arith),
      ))
]

every-snoc :
    (s : Text) (c : ℕ)
    → every is_digit s ≡ true
    → is_digit c ≡ true
    → every is_digit (s ++ c ∷ []) ≡ true
every-snoc [] c hs hc = ground arith
every-snoc (d ∷ s) c hs hc = ground (arith, every-snoc s c)

positive-snoc :
    (s : Text) (c : ℕ)
    → is_positive_text s ≡ true
    → is_digit c ≡ true
    → is_positive_text (s ++ c ∷ []) ≡ true
positive-snoc [] c hs hc = cc
positive-snoc (d ∷ s) c hs hc = ground (arith, every-snoc s c)

print_digits-positive : (f n : ℕ) → n < f → 0 < n → is_positive_text (print_digits f n) ≡ true
unfolding print_digits
print_digits-positive zero n h p = absurd (omega arith)
print_digits-positive (suc f) n h p = elim (Bool-cases (ltb n 10)) [
  | inl small ↦ rw small (ground arith)
  | inr large ↦ rw large (
      positive-snoc (print_digits f (n / 10)) (b'0' + n % 10)
        (print_digits-positive f (n / 10) (ground arith) (ground arith)) (ground arith))
]

positive→decimal : (s : Text) → is_positive_text s ≡ true → is_decimal_text s ≡ true
positive→decimal [] h = cc
positive→decimal (c ∷ []) h = ground arith
positive→decimal (c ∷ d ∷ s) h = h

to_text-is_decimal : (n : ℕ) → is_decimal_text (to_text n) ≡ true
unfolding to_text
to_text-is_decimal zero = refl
to_text-is_decimal (suc n) =
    positive→decimal (to_text (suc n))
      (print_digits-positive (suc (suc n)) (suc n) (omega arith) (omega arith))

-- A printed number is a decimal text with no leading zero, and `BigInt` reads it back.
pub big_int-to_text : (n : ℕ) → (big_int (to_text n) ≡ n) × (is_decimal_text (to_text n) ≡ true)
unfolding to_text
big_int-to_text n = (big_int-print_digits (suc n) n (omega arith), to_text-is_decimal n)

-- On a printed number `positive` is a test of its range.
pub positive-to_text : (n : ℕ) → (positive (to_text n) ≡ true) ↔ ((0 < n) × (n ≤ max_sqlite_id))
unfolding positive
positive-to_text zero = (unfold to_text print_digits in λ h. cc, λ h. absurd (omega arith))
positive-to_text (suc n) =
    let first = print_digits-positive (suc (suc n)) (suc n) (omega arith) (omega arith) in
    (
      λ h. ground (arith, (big_int-to_text (suc n)).0),
      λ h.
          unfold to_text in
          ground (arith, first, big_int-print_digits (suc (suc n)) (suc n) (omega arith)),
    )
