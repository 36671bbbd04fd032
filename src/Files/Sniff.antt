-- ===== src/Files/Sniff.antt =====
-- `sniff` and `sniffStored` of apps/server/src/modules/files/index.ts: what the first bytes of a file, or
-- all of them, say of its type.
use j_messenger.Common.{
  ℕ, zero, suc, ◌%◌, Bool, true, false, not, ◌&&◌, ◌||◌, List, [], ◌∷◌, map, String, leb, ◌==◌,
  same, if◌then◌else◌, length, exists,
}
use j_messenger.Names.{codes}

abbrev starts_with : List ℕ → List ℕ → Bool
starts_with [] bs = true
starts_with (k ∷ ks) [] = false
starts_with (k ∷ ks) (b ∷ bs) = k == b && starts_with ks bs

-- Whether the bytes occur somewhere
abbrev includes : List ℕ → List ℕ → Bool
includes ks [] = starts_with ks []
includes ks (b ∷ bs) = starts_with ks (b ∷ bs) || includes ks bs

abbrev skip : ℕ → List ℕ → List ℕ
skip zero bs = bs
skip (suc n) [] = []
skip (suc n) (b ∷ bs) = skip n bs

-- `toString('ascii')`, which drops the highest bit of each byte
abbrev ascii : List ℕ → List ℕ
ascii = map (λ b. b % 128)

abbrev is_zip : List ℕ → Bool
is_zip (p ∷ k ∷ a ∷ b ∷ bs) =
    p == 0x50
    && k == 0x4b
    && exists (λ k. k == a) (3 ∷ 5 ∷ 7 ∷ [])
    && exists (λ k. k == b) (4 ∷ 6 ∷ 8 ∷ [])
is_zip _ = false

-- `sniff`
unfoldable pub sniff : List ℕ → String → Bool
sniff b ext =
    if same ext "png"
    then starts_with (137 ∷ 80 ∷ 78 ∷ 71 ∷ 13 ∷ 10 ∷ 26 ∷ 10 ∷ []) b
    else if same ext "jpg" || same ext "jpeg"
    then starts_with (255 ∷ 216 ∷ 255 ∷ []) b
    else if same ext "webp"
    then leb 12 (length b)
      && starts_with (codes "RIFF") (ascii b)
      && starts_with (codes "WEBP") (skip 8 (ascii b))
    else if same ext "pdf"
    then starts_with (codes "%PDF-") (ascii b)
    else if same ext "zip" || same ext "docx" || same ext "xlsx"
    then is_zip b
    else leb 1 (length b)

-- `sniffStored`, where the file can be read or not
unfoldable pub sniff_stored : Bool → (List ℕ → Bool) → List ℕ → String → List ℕ → Bool
sniff_stored readable is_utf8 stored ext head =
    sniff head ext
    && (if same ext "txt" || same ext "csv"
        then readable && not (exists (λ b. b == 0) stored) && is_utf8 stored
        else if same ext "docx" || same ext "xlsx"
        then readable
          && includes (codes "[Content_Types].xml") stored
          && (if same ext "docx"
              then includes (codes "word/document.xml") stored
              else includes (codes "xl/workbook.xml") stored)
        else true)
