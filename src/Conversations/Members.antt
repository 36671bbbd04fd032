-- ===== src/Conversations/Members.antt =====
-- Sorting and `new Set`, for the lists of user ids.
use j_messenger.Common.{ℕ, true, false, List, [], ◌∷◌, leb, ◌==◌, exists}
use j_messenger.Common.Sorting.{sort}

-- ORDER BY, and `.sort` by number
abbrev pub sort_ids : List ℕ → List ℕ
sort_ids = sort leb

-- `[...new Set(xs)]`: each value where it stands first
unfoldable pub distinct_from : List ℕ → List ℕ → List ℕ
distinct_from seen [] = []
distinct_from seen (x ∷ xs) = elim (exists (λ y. y == x) seen) [
  | true ↦ distinct_from seen xs
  | false ↦ x ∷ distinct_from (x ∷ seen) xs
]

unfoldable pub distinct : List ℕ → List ℕ
unfolding distinct_from
distinct xs = distinct_from [] xs
