-- ===== src/Decimal.antt =====
-- Ids and stream positions travel as decimal texts. The tests `positive` and `decimal` and the
-- function `compare` of apps/server/src/modules/{receipts,sync,messages,conversations}/index.ts.
-- A text is the list of its UTF-16 code units.
pub mod Order
pub mod Print
use Prim.Native.Nat.{Ordering}
use j_messenger.Common.{
  ℕ, zero, suc, ◌+◌, ◌-◌, ◌*◌, ◌/◌, ◌%◌, ◌^◌, Bool, true, false, ◌&&◌, ◌||◌, List, [], ◌∷◌, ◌++◌,
  ltb, leb, ◌==◌, if◌then◌else◌, length, every,
}

abbrev pub Text : Type 0
Text = List ℕ

abbrev pub max_sqlite_id : ℕ
max_sqlite_id = 9223372036854775807

abbrev pub is_digit : ℕ → Bool
is_digit c = leb b'0' c && leb c b'9'

-- `/^[1-9][0-9]*$/`
abbrev pub is_positive_text : Text → Bool
is_positive_text [] = false
is_positive_text (c ∷ s) = leb b'1' c && leb c b'9' && every is_digit s

-- `/^(0|[1-9][0-9]*)$/`
abbrev pub is_decimal_text : Text → Bool
is_decimal_text [] = false
is_decimal_text (c ∷ []) = is_digit c
is_decimal_text (c ∷ d ∷ s) = is_positive_text (c ∷ d ∷ s)

-- `BigInt(s)` of a text of digits: the first stands for the highest power of ten.
unfoldable pub big_int : Text → ℕ
big_int [] = 0
big_int (c ∷ s) = (c - b'0') * 10 ^ length s + big_int s

-- `positive`
unfoldable pub positive : Text → Bool
unfolding big_int
positive s = is_positive_text s && leb (big_int s) max_sqlite_id

-- `decimal` of modules/sync
unfoldable pub decimal : Text → Bool
unfolding big_int
decimal s = is_decimal_text s && leb (big_int s) max_sqlite_id

-- `a < b` on texts: by the first code unit that differs
unfoldable pub text_order : Text → Text → Ordering
text_order [] [] = Ordering.eq
text_order [] (d ∷ t) = Ordering.lt
text_order (c ∷ s) [] = Ordering.gt
text_order (c ∷ s) (d ∷ t) =
    if ltb c d then Ordering.lt else if ltb d c then Ordering.gt else text_order s t

-- `compare`, by the sign of the number that it returns
unfoldable pub compare : Text → Text → Ordering
unfolding text_order
compare a b =
    if length a == length b
    then text_order a b
    else if ltb (length a) (length b)
    then Ordering.lt
    else Ordering.gt

-- `value.toString()` of a bigint: the digits, on fuel for as many divisions.
print_digits : ℕ → ℕ → Text
print_digits zero n = []
print_digits (suc f) n =
    let more = print_digits f (n / 10) ++ (b'0' + n % 10) ∷ [] in
    if ltb n 10 then (b'0' + n) ∷ [] else more

unfoldable pub to_text : ℕ → Text
unfolding print_digits
to_text n = print_digits (suc n) n
