-- ===== src/Names.antt =====
-- The shapes of server ids and UUIDs that the services test by regular expressions, over the code
-- points of a text.
use Prim.Native.Char.{code}
use Prim.Native.String.{String}
use Prim.Native.Nat.{Ordering}
use j_messenger.Common.Sorting.{sort}
use j_messenger.Decimal.{text_order}
use j_messenger.Common.{
  ℕ, zero, suc, ◌≡◌, refl, ◌+◌, Bool, true, false, ◌&&◌, ◌||◌, List, [], ◌∷◌, leb, ltb, ◌==◌,
  if◌then◌else◌, length, every, exists, same, arith,
}

abbrev pub codes : String → List ℕ
codes String.[] = []
codes (String.◌∷◌ c s) = code c ∷ codes s

abbrev is_lower : ℕ → Bool
is_lower c = leb b'a' c && leb c b'z'

abbrev is_digit : ℕ → Bool
is_digit c = leb b'0' c && leb c b'9'

-- `/^[a-z0-9-]{1,32}$/`
unfoldable pub valid_server_id : String → Bool
valid_server_id s =
    let cs = codes s in
    leb 1 (length cs) && leb (length cs) 32 && every (λ c. is_lower c || is_digit c || c == b'-') cs

-- The classes of `/^[0-9a-f]{8}-[0-9a-f]{4}-[1-8][0-9a-f]{3}-[89ab][0-9a-f]{3}-[0-9a-f]{12}$/i`
pub data Class : Type 0 where
  hex dash version variant : Class

-- One code point against its class; the flag `i` lets capitals pass.
matches : Class → ℕ → Bool
matches hex c = is_digit c || (leb b'a' c && leb c b'f') || (leb b'A' c && leb c b'F')
matches dash c = c == b'-'
matches version c = leb b'1' c && leb c b'8'
matches variant c = c == b'8' || c == b'9' || c == b'a' || c == b'b' || c == b'A' || c == b'B'

fits : List Class → List ℕ → Bool
fits [] [] = true
fits (k ∷ ks) (c ∷ cs) = matches k c && fits ks cs
fits _ _ = false

hexes : ℕ → List Class → List Class
hexes zero ks = ks
hexes (suc n) ks = hex ∷ hexes n ks

uuid_shape : List Class
uuid_shape =
    hexes 8
      (dash ∷ hexes 4 (dash ∷ version ∷ hexes 3 (dash ∷ variant ∷ hexes 3 (dash ∷ hexes 12 []))))

-- `validUuid`
unfoldable pub valid_uuid : String → Bool
unfolding matches fits hexes uuid_shape
valid_uuid s = fits uuid_shape (codes s)

uuid_tests :
    (valid_uuid "3f2504e0-4f89-41d3-9a0c-0305e82c3301" ≡ true)
    × (valid_uuid "3F2504E0-4F89-41D3-BA0C-0305E82C3301" ≡ true)
    × (valid_uuid "3f2504e0-4f89-01d3-9a0c-0305e82c3301" ≡ false)
    × (valid_uuid "3f2504e0" ≡ false)
unfolding valid_uuid
uuid_tests = (refl, refl, refl, refl)

-- `s.length`: the UTF-16 code units
utf16_units : List ℕ → ℕ
utf16_units [] = 0
utf16_units (c ∷ cs) = (if ltb c 0x10000 then 1 else 2) + utf16_units cs

unfoldable pub utf16_length : String → ℕ
unfolding utf16_units
utf16_length s = utf16_units (codes s)

abbrev not_above : Ordering → Bool
not_above Ordering.gt = false
not_above _ = true

-- The order in which `.sort()` puts texts: by code units.
unfoldable pub name_le : String → String → Bool
name_le s t = not_above (text_order (codes s) (codes t))

text_order_total :
    (s t : List ℕ) → not_above (text_order s t) ≡ false → not_above (text_order t s) ≡ true
unfolding text_order
text_order_total [] [] h = refl
text_order_total [] (d ∷ t) h = cc
text_order_total (c ∷ s) [] h = refl
text_order_total (c ∷ s) (d ∷ t) h = ground (arith, text_order_total s t)

pub name_le_total : (s t : String) → name_le s t ≡ false → name_le t s ≡ true
unfolding name_le
name_le_total s t h = text_order_total (codes s) (codes t) h

abbrev pub sort_names : List String → List String
sort_names = sort name_le

-- `[...new Set(xs)]`
unfoldable pub distinct_from : List String → List String → List String
distinct_from seen [] = []
distinct_from seen (x ∷ xs) = elim (exists (same x) seen) [
  | true ↦ distinct_from seen xs
  | false ↦ x ∷ distinct_from (x ∷ seen) xs
]

abbrev pub distinct_names : List String → List String
distinct_names xs = distinct_from [] xs

-- `JSON.stringify(xs) === JSON.stringify(ys)` on lists of texts
unfoldable pub same_names : List String → List String → Bool
same_names [] [] = true
same_names (x ∷ xs) (y ∷ ys) = same x y && same_names xs ys
same_names _ _ = false

pub same_names_self : (xs : List String) → same_names xs xs ≡ true
unfolding same_names
same_names_self [] = refl
same_names_self (x ∷ xs) = ground (arith, same_names_self xs)
