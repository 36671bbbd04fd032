-- ===== src/Conversations/Listing/Pages.antt =====
-- The pages of a user's conversations, followed by their cursors, are all of them up to the end that
-- the first page fixes.
use j_messenger.Common.{
  ℕ, zero, suc, ◌-◌, ◌≤◌, ◌<◌, ◌≡◌, refl, ap, ◌∙◌, sym, subst, true, false, List, [], ◌∷◌, ◌++◌,
  map, arith, ltb, length, take, last_or, select, All, Bool-cases, inl, inr,
}
use j_messenger.Common.Results.{Result, ok, err, internal, ◌>>=◌}
use j_messenger.Store.{Store, Context, ConversationRow}
use j_messenger.Conversations.Listing.{is_listed, row_id, list_page}

abbrev drop : ℕ → List ℕ → List ℕ
drop zero xs = xs
drop (suc n) [] = []
drop (suc n) (x ∷ xs) = drop n xs

-- Each number is above the ones before it.
abbrev pub IsRising : List ℕ → Type 0
IsRising [] = Unit
IsRising (x ∷ xs) = All (λ (y : ℕ). x < y) xs × IsRising xs

select-All : (k : ℕ) (xs : List ℕ) → All (λ (x : ℕ). k < x) xs → select (ltb k) xs ≡ xs
select-All k [] h = refl
select-All k (x ∷ xs) h = ground (arith, select-All k xs h.1)

last-All : (P : ℕ → Type 0) (d n : ℕ) (xs : List ℕ) → P d → All P xs → P (last_or d (take n xs))
last-All P d zero xs p h = p
last-All P d (suc n) [] p h = p
last-All P d (suc n) (x ∷ xs) p h = last-All P x n xs h.0 h.1

-- What comes after a page is what is above its last number.
select-after :
    (n x : ℕ) (xs : List ℕ)
    → IsRising (x ∷ xs)
    → select (ltb (last_or x (take n xs))) (x ∷ xs) ≡ drop n xs
select-after zero x xs h = ground (arith, select-All x xs h.0)
select-after (suc n) x [] h = ground arith
select-after (suc n) x (y ∷ xs) h =
    let above = last-All (λ (k : ℕ). x < k) y n xs h.0.0 h.0.1 in
    ground (arith, select-after n y xs h.1)

select-select :
    (a b : ℕ) (xs : List ℕ) → a ≤ b → select (ltb b) xs ≡ select (ltb b) (select (ltb a) xs)
select-select a b [] le = refl
select-select a b (x ∷ xs) le = ground (arith, select-select a b xs le)

select-above : (a : ℕ) (xs : List ℕ) → All (λ (x : ℕ). a < x) (select (ltb a) xs)
select-above a [] = tt
select-above a (x ∷ xs) = ground (arith, select-above a xs)

IsRising-drop : (n : ℕ) (xs : List ℕ) → IsRising xs → IsRising (drop n xs)
IsRising-drop zero xs h = h
IsRising-drop (suc n) [] h = h
IsRising-drop (suc n) (x ∷ xs) h = IsRising-drop n xs h.1

length-drop : (n : ℕ) (xs : List ℕ) → length (drop n xs) ≤ length xs
length-drop zero xs = omega arith
length-drop (suc n) [] = omega arith
length-drop (suc n) (x ∷ xs) = omega (arith, length-drop n xs)

take-drop : (n : ℕ) (xs : List ℕ) → take n xs ++ drop n xs ≡ xs
take-drop zero xs = refl
take-drop (suc n) [] = refl
take-drop (suc n) (x ∷ xs) = ap (λ ys. x ∷ ys) (take-drop n xs)

take_all : (n : ℕ) (xs : List ℕ) → length xs ≤ n → take n xs ≡ xs
take_all zero [] h = refl
take_all zero (x ∷ xs) h = absurd (omega arith)
take_all (suc n) [] h = refl
take_all (suc n) (x ∷ xs) h = ap (λ ys. x ∷ ys) (take_all n xs (omega arith))

-- The ids of a page
ids-page :
    (n : ℕ) (rs : List ConversationRow)
    → map row_id (take n (take (suc n) rs)) ≡ take n (map row_id rs)
ids-page zero rs = refl
ids-page (suc n) [] = refl
ids-page (suc n) (r ∷ rs) = ap (λ ys. row_id r ∷ ys) (ids-page n rs)

more-page :
    (n : ℕ) (rs : List ConversationRow)
    → ltb n (length (take (suc n) rs)) ≡ ltb n (length (map row_id rs))
more-page zero [] = refl
more-page zero (r ∷ rs) = ground arith
more-page (suc n) [] = refl
more-page (suc n) (r ∷ rs) = ground (arith, more-page n rs)

ids-after :
    (c : Context) (after max : ℕ) (s : Store) (rs : List ConversationRow)
    → map row_id (select (is_listed c after max s) rs)
      ≡ select (ltb after) (map row_id (select (is_listed c 0 max s) rs))
ids-after c after max s [] = refl
ids-after c after max s (r ∷ rs) = ground (arith, ids-after c after max s rs)

module _ (c : Context) (max limit : ℕ) (views : ℕ → Store) where
  -- The ids of the pages from an id on, joined: request `n` finds the tables `views n`, and the
  -- fuel is the number of requests.
  unfoldable pub browse : ℕ → ℕ → ℕ → Result (List ℕ)
  browse zero n after = err internal
  browse (suc fuel) n after =
      let p = list_page c after max limit (views n) in
      let ids = map row_id p.rows in
      elim p.has_more [
        | true ↦ do rest ← browse fuel (suc n) (last_or after ids); ok (ids ++ rest)
        | false ↦ ok ids
      ]

  module _ (ids : List ℕ)
      (steady : (n : ℕ)
        → map row_id (select (is_listed c 0 max (views n)) (views n).conversations) ≡ ids) where
    page-rows :
        (n after : ℕ)
        → map row_id (list_page c after max limit (views n)).rows
          ≡ take limit (select (ltb after) ids)
    unfolding list_page
    page-rows n after =
        ids-page limit (select (is_listed c after max (views n)) (views n).conversations)
        ∙ ap (take limit) (
            ids-after c after max (views n) (views n).conversations
            ∙ ap (select (ltb after)) (steady n))

    page-has_more :
        (n after : ℕ)
        → (list_page c after max limit (views n)).has_more
          ≡ ltb limit (length (select (ltb after) ids))
    unfolding list_page
    page-has_more n after =
        more-page limit (select (is_listed c after max (views n)) (views n).conversations)
        ∙ ap (λ xs. ltb limit (length xs))
            (ids-after c after max (views n) (views n).conversations
              ∙ ap (select (ltb after)) (steady n))

    next-after :
        (after m x : ℕ) (xs : List ℕ)
        → IsRising (x ∷ xs)
        → select (ltb after) ids ≡ x ∷ xs
        → select (ltb (last_or x (take m xs))) ids ≡ drop m xs
    next-after after m x xs rising e =
        let last = last_or x (take m xs) in
        let above : All (λ (k : ℕ). after < k) (x ∷ xs) =
          subst (All (λ (k : ℕ). after < k)) e (select-above after ids) in
        let beyond : after < last = last-All (λ (k : ℕ). after < k) x m xs above.0 above.1 in
        select-select after last ids (omega arith)
        ∙ ap (select (ltb last)) e
        ∙ select-after m x xs rising

    module _ (pos : 0 < limit) where
      browse-more :
          (fuel n after m x : ℕ) (xs : List ℕ)
          → suc m ≡ limit
          → select (ltb after) ids ≡ x ∷ xs
          → ltb limit (length (x ∷ xs)) ≡ true
          → browse fuel (suc n) (last_or x (take m xs)) ≡ ok (drop m xs)
          → browse (suc fuel) n after ≡ ok (x ∷ xs)
      unfolding browse
      browse-more fuel n after m x xs same_limit e more rest =
          let rows : map row_id (list_page c after max limit (views n)).rows ≡ x ∷ take m xs =
            page-rows n after ∙ ap (take limit) e ∙ ap (λ k. take k (x ∷ xs)) (sym same_limit) in
          ground (arith, rows, page-has_more n after, take-drop m xs)

      browse-from :
          (fuel n after : ℕ) (xs : List ℕ)
          → IsRising xs
          → select (ltb after) ids ≡ xs
          → length xs < fuel
          → browse fuel n after ≡ ok xs
      unfolding browse
      browse-from zero n after xs rising e enough = absurd (omega arith)
      browse-from (suc fuel) n after [] rising e enough =
          ground (arith, page-rows n after, page-has_more n after, take_all limit [])
      browse-from (suc fuel) n after (x ∷ xs) rising e enough =
          elim (Bool-cases (ltb limit (length (x ∷ xs)))) [
            | inr last ↦
                ground (arith, page-rows n after, page-has_more n after, take_all limit (x ∷ xs))
            | inl more ↦
                let m = limit - 1 in
                browse-more fuel n after m x xs (omega (arith, pos)) e more (
                  browse-from fuel (suc n) (last_or x (take m xs)) (drop m xs)
                    (IsRising-drop m xs rising.1) (next-after after m x xs rising e)
                    (omega (arith, length-drop m xs)))
          ]

      -- If the conversations of the user up to the end stay the same while the pages are read,
      -- whatever else changes in the tables, and their ids rise from above 0, the pages are all of
      -- them, in order and each once, with more requests than there are conversations.
      pub browse_complete :
          (fuel : ℕ)
          → IsRising ids
          → All (λ (k : ℕ). 0 < k) ids
          → length ids < fuel
          → browse fuel 0 0 ≡ ok ids
      browse_complete fuel rising positive enough =
          browse-from fuel 0 0 ids rising (select-All 0 ids positive) enough
