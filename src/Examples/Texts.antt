-- ===== src/Examples/Texts.antt =====
-- Ids and message texts.
use j_messenger.Common.{◌≡◌, ◌≤◌, refl, true, false, [], ◌∷◌, some, length}
use j_messenger.Decimal.{Text, big_int, compare, is_decimal_text}
use j_messenger.Decimal.Order.{compare-big_int}
use j_messenger.MessageText.{trim, has_unpaired_surrogate, normalize_message_text}
use j_messenger.MessageText.Laws.{normalize_message_text_sound}
use Prim.Native.Nat

abbrev nine : Text
nine = b'9' ∷ []

abbrev ten : Text
ten = b'1' ∷ b'0' ∷ []

nine_decimal : is_decimal_text nine ≡ true
nine_decimal = refl

ten_decimal : is_decimal_text ten ≡ true
ten_decimal = refl

compare-big_int_example : compare nine ten ≡ Nat.compare (big_int nine) (big_int ten)
compare-big_int_example = compare-big_int nine ten nine_decimal ten_decimal

abbrev hello : Text
hello = b'h' ∷ b'i' ∷ []

hello_kept : normalize_message_text (b' ' ∷ hello) ≡ some hello
unfolding normalize_message_text trim has_unpaired_surrogate
hello_kept = refl

normalize_message_text_sound_example :
    (trim hello ≡ hello)
    × (1 ≤ length hello)
    × (length hello ≤ 4000)
    × (has_unpaired_surrogate hello ≡ false)
    × (normalize_message_text hello ≡ some hello)
normalize_message_text_sound_example =
    normalize_message_text_sound (b' ' ∷ hello) {t = hello} hello_kept
