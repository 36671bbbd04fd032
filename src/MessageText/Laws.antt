-- ===== src/MessageText/Laws.antt =====
-- What a normalised text is: trimmed, not empty, of at most 4000 units; to normalise it again
-- changes nothing.
use mathlib.Core.List.{reverse-append, reverse-reverse, reverse-cons, append-nil}
use j_messenger.Common.{
  ℕ, ◌≤◌, ◌≡◌, refl, sym, ap, ◌∙◌, Bool, true, false, not, every, [], ◌∷◌, ◌++◌, some, reverse,
  arith, if◌then◌else◌, if_intro, length,
}
use j_messenger.Decimal.{Text}
use j_messenger.MessageText.{
  is_space, trim_start, trim, normalize_message_text, is_high, is_low, has_unpaired_surrogate,
}

abbrev starts_clean : Text → Bool
starts_clean [] = true
starts_clean (c ∷ s) = not (is_space c)

trim_start-clean : (s : Text) → starts_clean (trim_start s) ≡ true
unfolding trim_start
trim_start-clean [] = refl
trim_start-clean (c ∷ s) = ground (arith, trim_start-clean s)

clean-trim_start : (s : Text) → starts_clean s ≡ true → trim_start s ≡ s
unfolding trim_start
clean-trim_start [] h = refl
clean-trim_start (c ∷ s) h = ground arith

-- What `trim_start` takes off is white space.
cut : Text → Text
cut [] = []
cut (c ∷ s) = if is_space c then c ∷ cut s else []

cut-append : (s : Text) → cut s ++ trim_start s ≡ s
unfolding cut trim_start
cut-append [] = refl
cut-append (c ∷ s) = ground (arith, cut-append s)

cut-spaces : (s : Text) → every is_space (cut s) ≡ true
unfolding cut
cut-spaces [] = refl
cut-spaces (c ∷ s) = ground (arith, cut-spaces s)

clean_prefix : (s t : Text) → starts_clean (s ++ t) ≡ true → starts_clean s ≡ true
clean_prefix [] t h = refl
clean_prefix (c ∷ s) t h = h

trim_end-append : (s : Text) → reverse (trim_start (reverse s)) ++ reverse (cut (reverse s)) ≡ s
trim_end-append s =
    sym (reverse-append (cut (reverse s)) (trim_start (reverse s)))
    ∙ ap reverse (cut-append (reverse s))
    ∙ reverse-reverse s

trim_clean : (s : Text) → starts_clean (trim s) ≡ true
unfolding trim
trim_clean s =
    clean_prefix (trim s) (reverse (cut (reverse (trim_start s))))
      (rw (trim_end-append (trim_start s)) (trim_start-clean s))

-- Trimming a trimmed text changes nothing.
pub trim_idem : (s : Text) → trim (trim s) ≡ trim s
unfolding trim
trim_idem s = rw (clean-trim_start (trim s) (trim_clean s)) (ends_clean (trim_start s))
  where
    ends_clean :
        (u : Text)
        → reverse (trim_start (reverse (reverse (trim_start (reverse u)))))
          ≡ reverse (trim_start (reverse u))
    ends_clean u = rw (
      reverse-reverse (trim_start (reverse u)),
      clean-trim_start (trim_start (reverse u)) (trim_start-clean (reverse u)),
    )

space_not_surrogate : (c : ℕ) → is_space c ≡ true → (is_high c ≡ false) × (is_low c ≡ false)
unfolding is_space
space_not_surrogate c h = ground arith

drop_paired :
    (c : ℕ) (s : Text)
    → is_space c ≡ true
    → has_unpaired_surrogate (c ∷ s) ≡ false
    → has_unpaired_surrogate s ≡ false
unfolding has_unpaired_surrogate
drop_paired c [] sp h = refl
drop_paired c (d ∷ s) sp h = ground (arith, space_not_surrogate c sp)

trim_start_paired :
    (s : Text) → has_unpaired_surrogate s ≡ false → has_unpaired_surrogate (trim_start s) ≡ false
unfolding trim_start
trim_start_paired [] h = h
trim_start_paired (c ∷ s) h =
    if_intro (λ (t : Text). has_unpaired_surrogate t ≡ false) (is_space c)
      (λ sp. trim_start_paired s (drop_paired c s sp h)) (λ _. h)

prefix_paired :
    (s : Text) (c : ℕ) (t : Text)
    → is_space c ≡ true
    → has_unpaired_surrogate (s ++ c ∷ t) ≡ false
    → has_unpaired_surrogate s ≡ false
unfolding has_unpaired_surrogate
prefix_paired [] c t sp h = refl
prefix_paired (a ∷ []) c t sp h = ground (arith, space_not_surrogate c sp)
prefix_paired (a ∷ b ∷ s) c t sp h =
    ground (arith, prefix_paired s c t sp, prefix_paired (b ∷ s) c t sp)

-- A text followed by white space alone.
before_spaces :
    (s t : Text)
    → every is_space t ≡ true
    → has_unpaired_surrogate (s ++ t) ≡ false
    → has_unpaired_surrogate s ≡ false
before_spaces s [] sp h = rw append-nil at h
before_spaces s (c ∷ t) sp h = prefix_paired s c t (ground arith) h

every-append :
    (s t : Text)
    → every is_space s ≡ true
    → every is_space t ≡ true
    → every is_space (s ++ t) ≡ true
every-append [] t hs ht = ht
every-append (c ∷ s) t hs ht = ground (arith, every-append s t)

every-reverse : (s : Text) → every is_space s ≡ true → every is_space (reverse s) ≡ true
every-reverse [] h = refl
every-reverse (c ∷ s) h =
    rw (reverse-cons c s)
      (every-append (reverse s) (c ∷ []) (every-reverse s (ground arith)) (ground arith))

trim_paired :
    (s : Text) → has_unpaired_surrogate s ≡ false → has_unpaired_surrogate (trim s) ≡ false
unfolding trim
trim_paired s h =
    let u = trim_start s in
    before_spaces _ (reverse (cut (reverse u)))
      (every-reverse (cut (reverse u)) (cut-spaces (reverse u)))
      (rw (trim_end-append u) (trim_start_paired s h))

-- A text that `normalizeMessageText` returns is trimmed, has 1 to 4000 units, has no unpaired
-- surrogate, and is returned unchanged when it is normalised again.
pub normalize_message_text_sound :
    (s : Text) {t : Text}
    → normalize_message_text s ≡ some t
    → (trim t ≡ t)
      × (1 ≤ length t)
      × (length t ≤ 4000)
      × (has_unpaired_surrogate t ≡ false)
      × (normalize_message_text t ≡ some t)
unfolding normalize_message_text
normalize_message_text_sound s {t} h = ground (arith, trim_idem s, trim_paired s)
