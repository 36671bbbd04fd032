-- ===== src/MessageText.antt =====
-- packages/contracts/src/schema.ts: the text of a message. A text is the list of its UTF-16 units.
pub mod Laws
use j_messenger.Common.{
  ℕ, suc, ◌≡◌, refl, ap, arith, Bool, true, false, not, ◌&&◌, ◌||◌, List, [], ◌∷◌, ◌++◌, Option,
  none, some, reverse, leb, ltb, ◌==◌, if◌then◌else◌, length,
}
use j_messenger.Decimal.{Text}

-- The white space and line ends that `trim` takes off.
unfoldable pub is_space : ℕ → Bool
is_space c =
    (leb 9 c && leb c 13)
    || c == 32
    || c == 160
    || c == 0x1680
    || (leb 0x2000 c && leb c 0x200a)
    || c == 0x2028
    || c == 0x2029
    || c == 0x202f
    || c == 0x205f
    || c == 0x3000
    || c == 0xfeff

unfoldable pub trim_start : Text → Text
unfolding is_space
trim_start [] = []
trim_start (c ∷ s) = if is_space c then trim_start s else c ∷ s

-- `text.trim()`
unfoldable pub trim : Text → Text
unfolding trim_start
trim s = reverse (trim_start (reverse (trim_start s)))

abbrev pub is_high : ℕ → Bool
is_high c = leb 0xd800 c && leb c 0xdbff

abbrev pub is_low : ℕ → Bool
is_low c = leb 0xdc00 c && leb c 0xdfff

-- `hasUnpairedSurrogate`
unfoldable pub has_unpaired_surrogate : Text → Bool
has_unpaired_surrogate [] = false
has_unpaired_surrogate (c ∷ []) = is_high c || is_low c
has_unpaired_surrogate (c ∷ d ∷ s) = elim (is_high c) [
  | true ↦ elim (is_low d) [ true ↦ has_unpaired_surrogate s | false ↦ true ]
  | false ↦ elim (is_low c) [ true ↦ true | false ↦ has_unpaired_surrogate (d ∷ s) ]
]

-- `isValidMessageText`
unfoldable pub is_valid_message_text : Text → Bool
is_valid_message_text s =
    leb 1 (length (trim s)) && leb (length (trim s)) 4000 && not (has_unpaired_surrogate s)

-- `normalizeMessageText`
unfoldable pub normalize_message_text : Text → Option Text
unfolding is_valid_message_text
normalize_message_text s = if is_valid_message_text s then some (trim s) else none

unfoldable pub text_beq : Text → Text → Bool
text_beq [] [] = true
text_beq (c ∷ s) (d ∷ t) = c == d && text_beq s t
text_beq _ _ = false

pub eq_of_text_beq : (s t : Text) → text_beq s t ≡ true → s ≡ t
unfolding text_beq
eq_of_text_beq [] [] h = refl
eq_of_text_beq [] (d ∷ t) h = cc
eq_of_text_beq (c ∷ s) [] h = cc
eq_of_text_beq (c ∷ s) (d ∷ t) h = ground (arith, eq_of_text_beq s t)

pub text_beq_self : (s : Text) → text_beq s s ≡ true
unfolding text_beq
text_beq_self [] = refl
text_beq_self (c ∷ s) = ground (arith, text_beq_self s)

codes_cases : (s t : Text) (b : Bool) → text_beq s t ≡ b → Dec (s ≡ t)
codes_cases s t true e = yes (eq_of_text_beq s t e)
codes_cases s t false e = no (λ p. cc (e, text_beq_self s, ap (text_beq s) p))

unfoldable pub codes_dec : (s t : Text) → Dec (s ≡ t)
unfolding codes_cases text_beq
codes_dec s t = codes_cases s t (text_beq s t) refl

-- `s === t` on such texts
abbrev pub same_text : Text → Text → Bool
same_text s t = elim (codes_dec s t) [ yes _ ↦ true | no _ ↦ false ]
