-- ===== src/Messages/Newest.antt =====
-- Which message the cursor of a page of messages names.
use mathlib.Core.List.{reverse-cons}
use j_messenger.Common.{
  ℕ, String, subst, if_intro, or_else, zero, suc, ◌≤◌, ◌≡◌, refl, Bool, List, [], ◌∷◌, ◌++◌, map,
  reverse, none, some, arith, ltb, take, last_or, select, exists, ◌==◌, true, All, All-append,
  All-select, All-take,
}
use j_messenger.Common.Results.{ok}
use j_messenger.Decimal.{max_sqlite_id}
use j_messenger.Store.{Store, Context, MessageRow}
use j_messenger.Messages.{MessageOutput, output}
use j_messenger.Messages.Reads.{
  ListInput, MessagePage, list_rows, list_page, list, last_id, in_list,
}

-- The rows are in the order of their ids.
abbrev pub IsRising : List MessageRow → Type 0
IsRising [] = Unit
IsRising (r ∷ rs) = All (λ (q : MessageRow). r.id ≤ q.id) rs × IsRising rs

abbrev Falling : List MessageRow → Type 0
Falling [] = Unit
Falling (r ∷ rs) = All (λ (q : MessageRow). q.id ≤ r.id) rs × Falling rs

Falling-snoc :
    (rs : List MessageRow) (r : MessageRow)
    → Falling rs
    → All (λ (q : MessageRow). r.id ≤ q.id) rs
    → Falling (rs ++ r ∷ [])
Falling-snoc [] r f h = (tt, tt)
Falling-snoc (q ∷ rs) r f h = (
  All-append (λ (x : MessageRow). x.id ≤ q.id) rs (r ∷ []) f.0 (h.0, tt),
  Falling-snoc rs r f.1 h.1,
)

All-reverse : (P : MessageRow → Type 0) (rs : List MessageRow) → All P rs → All P (reverse rs)
All-reverse P [] h = tt
All-reverse P (r ∷ rs) h =
    rw (reverse-cons r rs) (All-append P (reverse rs) (r ∷ []) (All-reverse P rs h.1) (h.0, tt))

Falling-reverse : (rs : List MessageRow) → IsRising rs → Falling (reverse rs)
Falling-reverse [] h = tt
Falling-reverse (r ∷ rs) h = rw (reverse-cons r rs) (
    Falling-snoc (reverse rs) r (Falling-reverse rs h.1)
      (All-reverse (λ (q : MessageRow). r.id ≤ q.id) rs h.0))

IsRising-select :
    (p : MessageRow → Bool) (rs : List MessageRow) → IsRising rs → IsRising (select p rs)
IsRising-select p [] h = tt
IsRising-select p (r ∷ rs) h =
    if_intro IsRising (p r)
      (λ _. (All-select (λ (q : MessageRow). r.id ≤ q.id) p rs h.0, IsRising-select p rs h.1))
      (λ _. IsRising-select p rs h.1)

Falling-take : (n : ℕ) (rs : List MessageRow) → Falling rs → Falling (take n rs)
Falling-take zero rs h = tt
Falling-take (suc n) [] h = tt
Falling-take (suc n) (r ∷ rs) h =
    (All-take (λ (q : MessageRow). q.id ≤ r.id) n rs h.0, Falling-take n rs h.1)

last-snoc : (d r : MessageRow) (rs : List MessageRow) → last_or d (rs ++ r ∷ []) ≡ r
last-snoc d r [] = refl
last-snoc d r (q ∷ rs) = last-snoc q r rs

last_id-snoc : (rs : List MessageRow) (r : MessageRow) → last_id (rs ++ r ∷ []) ≡ some r.id
last_id-snoc [] r = refl
last_id-snoc (q ∷ rs) r = rw (last-snoc q r rs) refl

-- Read backward, the last row of a page is the largest.
last_id-reverse :
    (rs : List MessageRow) (k : ℕ)
    → Falling rs
    → last_id (reverse rs) ≡ some k
    → All (λ (q : MessageRow). q.id ≤ k) (reverse rs)
last_id-reverse [] k f e = tt
last_id-reverse (r ∷ rs) k f e =
    let largest : r.id ≡ k = ground (arith, reverse-cons r rs, last_id-snoc (reverse rs) r) in
    subst (λ n. All (λ (q : MessageRow). q.id ≤ n) (reverse (r ∷ rs))) largest
      (All-reverse (λ (q : MessageRow). q.id ≤ r.id) (r ∷ rs) (omega arith, f.0))

-- The last id of a list is one of its ids.
exists-last_id :
    (rs : List MessageRow) (k : ℕ)
    → last_id rs ≡ some k
    → exists (λ (r : MessageRow). r.id == k) rs ≡ true
exists-last_id [] k e = cc
exists-last_id (r ∷ []) k e = ground arith
exists-last_id (r ∷ q ∷ rs) k e = ground (arith, exists-last_id (q ∷ rs) k e)

exists-output :
    (server : String) (now : ℕ) (s : Store) (k : ℕ) (rs : List MessageRow)
    → exists (λ (r : MessageRow). r.id == k) rs ≡ true
    → exists (λ (m : MessageOutput). m.id == k) (map (λ r. output server r now s) rs) ≡ true
unfolding output
exists-output server now s k [] h = cc
exists-output server now s k (r ∷ rs) h = ground (arith, exists-output server now s k rs)

-- The id is the largest of the messages'.
abbrev pub IsNewest : ℕ → List MessageOutput → Type 0
IsNewest k ms =
    (exists (λ (m : MessageOutput). m.id == k) ms ≡ true) × All (λ (m : MessageOutput). m.id ≤ k) ms

All-output :
    (server : String) (now : ℕ) (s : Store) (k : ℕ) (rs : List MessageRow)
    → All (λ (q : MessageRow). q.id ≤ k) rs
    → All (λ (m : MessageOutput). m.id ≤ k) (map (λ r. output server r now s) rs)
unfolding output
All-output server now s k [] h = tt
All-output server now s k (r ∷ rs) h = (h.0, All-output server now s k rs h.1)

module _ (c : Context) (conversation now k : ℕ) (i : ListInput) (s : Store)
    (back : i.after ≡ none) where
  list_rows-Falling : IsRising s.messages → Falling (list_rows c conversation i s)
  unfolding list_rows
  list_rows-Falling rising =
      let p = in_list c.server_id conversation (λ id. ltb id (or_else i.before max_sqlite_id)) in
      rw back (
        Falling-take (suc i.limit) (reverse (select p s.messages))
          (Falling-reverse (select p s.messages) (IsRising-select p s.messages rising)))

  list_page-IsNewest :
      (rows : List MessageRow)
      → Falling rows
      → (list_page c i rows now s).next_cursor ≡ some k
      → IsNewest k (list_page c i rows now s).items
  unfolding list_page
  list_page-IsNewest rows falling next =
      let first = take i.limit rows in
      let last : last_id (reverse first) ≡ some k = ground (arith, back) in
      rw back (
        exists-output c.server_id now s k (reverse first) (exists-last_id (reverse first) k last),
        All-output c.server_id now s k (reverse first)
            (last_id-reverse first k (Falling-take i.limit rows falling) last),
      )

  -- If the table is in the order of its ids, the cursor of a page that is read backward, without
  -- `after`, is the id of the newest message of the page: a message of the page has it, and none has a
  -- larger one.
  pub list-next_cursor :
      (seen : Store) (p : MessagePage)
      → IsRising s.messages
      → list c conversation i now seen s ≡ ok p
      → p.next_cursor ≡ some k
      → IsNewest k p.items
  unfolding list
  list-next_cursor seen p rising e next =
      let rows = list_rows c conversation i s in
      let same_page : list_page c i rows now s ≡ p = ground arith in
      let cursor : (list_page c i rows now s).next_cursor ≡ some k = cc (same_page, next) in
      subst (λ (q : MessagePage). IsNewest k q.items) same_page
        (list_page-IsNewest rows (list_rows-Falling rising) cursor)
