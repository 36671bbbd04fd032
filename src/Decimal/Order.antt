-- ===== src/Decimal/Order.antt =====
-- The length-first comparison of decimal texts is the comparison of the numbers.
use Prim.Native.Nat
use Prim.Native.Nat.{Ordering}
use native.Mathlib.Nat.{pow-suc, mul-le-mul_right, pow-le-pow_right}
use j_messenger.Common.{
  ℕ, ◌+◌, ◌-◌, ◌*◌, ◌^◌, ◌≤◌, ◌<◌, ◌≡◌, refl, true, [], ◌∷◌, arith, length, every,
}
use j_messenger.Decimal.{Text, is_digit, is_decimal_text, big_int, text_order, compare}

abbrev Digits : Text → Type 0
Digits s = every is_digit s ≡ true

times : (k m p : ℕ) → k ≤ m → k * p ≤ m * p
times k m p h = mul-le-mul_right p h

big_int-lt : (s : Text) → Digits s → big_int s < 10 ^ length s
unfolding big_int
big_int-lt [] h = omega arith
big_int-lt (c ∷ s) h =
    let small : c - b'0' ≤ 9 = ground arith in
    omega (
      arith,
      times (c - b'0') 9 (10 ^ length s) small,
      big_int-lt s (ground arith),
      pow-suc 10 (length s),
    )

-- A text whose first digit is not zero stands for a number of its length.
big_int-ge : (c : ℕ) (s : Text) → b'1' ≤ c → 10 ^ length s ≤ big_int (c ∷ s)
unfolding big_int
big_int-ge c s h = omega (arith, times 1 (c - b'0') (10 ^ length s) (omega arith))

-- Texts of one length: the first digit that differs decides.
first_digit :
    (c d : ℕ) (s t : Text)
    → b'0' ≤ c
    → c < d
    → Digits s
    → length s ≡ length t
    → big_int (c ∷ s) < big_int (d ∷ t)
unfolding big_int
first_digit c d s t h lt hs e =
    rw (← e) (
      omega (arith, times (c - b'0' + 1) (d - b'0') (10 ^ length s) (omega arith), big_int-lt s hs))

-- Texts of one length with the same first digit: the rest decides.
same_digit :
    (c : ℕ) (s t : Text)
    → length s ≡ length t
    → Nat.compare (big_int (c ∷ s)) (big_int (c ∷ t)) ≡ Nat.compare (big_int s) (big_int t)
unfolding big_int
same_digit c s t e = rw e (ground arith)

text_order-big_int :
    (s t : Text)
    → Digits s
    → Digits t
    → length s ≡ length t
    → text_order s t ≡ Nat.compare (big_int s) (big_int t)
unfolding text_order
text_order-big_int [] [] hs ht e = ground arith
text_order-big_int [] (d ∷ t) hs ht e = absurd (omega arith)
text_order-big_int (c ∷ s) [] hs ht e = absurd (omega arith)
text_order-big_int (c ∷ s) (d ∷ t) hs ht e =
    ground
      (arith, first_digit c d s t, first_digit d c t s, same_digit c s t, text_order-big_int s t)

-- A longer text, whose first digit is not zero, stands for a larger number.
longer-lt :
    (s : Text) (d : ℕ) (t : Text)
    → Digits s
    → b'1' ≤ d
    → length s ≤ length t
    → big_int s < big_int (d ∷ t)
longer-lt s d t hs hd h =
    omega (arith, big_int-lt s hs, big_int-ge d t hd, pow-le-pow_right {n = 10} (omega arith) h)

decimal-Digits : (s : Text) → is_decimal_text s ≡ true → Digits s
decimal-Digits [] h = refl
decimal-Digits (c ∷ []) h = ground arith
decimal-Digits (c ∷ d ∷ s) h = ground arith

shorter-lt :
    (a b : Text)
    → is_decimal_text a ≡ true
    → is_decimal_text b ≡ true
    → length a < length b
    → big_int a < big_int b
shorter-lt a [] ha hb h = absurd (omega arith)
shorter-lt [] (d ∷ []) ha hb h = cc
shorter-lt (c ∷ s) (d ∷ []) ha hb h = absurd (omega arith)
shorter-lt a (d ∷ e ∷ t) ha hb h =
    longer-lt a d (e ∷ t) (decimal-Digits a ha) (ground arith) (omega arith)

-- On decimal texts with no leading zero, `compare` orders the texts as the numbers they denote.
pub compare-big_int :
    (a b : Text)
    → is_decimal_text a ≡ true
    → is_decimal_text b ≡ true
    → compare a b ≡ Nat.compare (big_int a) (big_int b)
unfolding compare
compare-big_int a b ha hb = ground (
  arith,
  shorter-lt a b ha hb,
  shorter-lt b a hb ha,
  text_order-big_int a b (decimal-Digits a ha) (decimal-Digits b hb),
)
