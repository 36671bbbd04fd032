-- ===== src/Audit/Falling.antt =====
-- Rows of the audit log, the newest first: what comes after a page of them.
use mathlib.Core.List.{reverse-cons, append-nil}
use j_messenger.Common.{
  ℕ, zero, suc, ◌≤◌, ◌<◌, ◌≡◌, refl, ap, Bool, true, ◌&&◌, List, [], ◌∷◌, ◌++◌, map, reverse, none,
  some, arith, ltb, if_intro, length, take, last_or, select, select-append, All, All-append,
  All-select,
}
use j_messenger.Audit.{AuditRow, below, as_record}

abbrev pub drop : ℕ → List AuditRow → List AuditRow
drop zero rs = rs
drop (suc n) [] = []
drop (suc n) (r ∷ rs) = drop n rs

-- Each id is above the ones before it.
abbrev pub IsRising : List AuditRow → Type 0
IsRising [] = Unit
IsRising (r ∷ rs) = All (λ (q : AuditRow). r.id < q.id) rs × IsRising rs

abbrev pub Falling : List AuditRow → Type 0
Falling [] = Unit
Falling (r ∷ rs) = All (λ (q : AuditRow). q.id < r.id) rs × Falling rs

Falling-snoc :
    (rs : List AuditRow) (r : AuditRow)
    → Falling rs
    → All (λ (q : AuditRow). r.id < q.id) rs
    → Falling (rs ++ r ∷ [])
Falling-snoc [] r f h = (tt, tt)
Falling-snoc (q ∷ rs) r f h = (
  All-append (λ (x : AuditRow). x.id < q.id) rs (r ∷ []) f.0 (h.0, tt),
  Falling-snoc rs r f.1 h.1,
)

All-reverse : (P : AuditRow → Type 0) (rs : List AuditRow) → All P rs → All P (reverse rs)
All-reverse P [] h = tt
All-reverse P (r ∷ rs) h =
    rw (reverse-cons r rs) (All-append P (reverse rs) (r ∷ []) (All-reverse P rs h.1) (h.0, tt))

pub Falling-reverse : (rs : List AuditRow) → IsRising rs → Falling (reverse rs)
Falling-reverse [] h = tt
Falling-reverse (r ∷ rs) h = rw (reverse-cons r rs) (
    Falling-snoc (reverse rs) r (Falling-reverse rs h.1)
      (All-reverse (λ (q : AuditRow). r.id < q.id) rs h.0))

pub IsRising-select :
    (p : AuditRow → Bool) (rs : List AuditRow) → IsRising rs → IsRising (select p rs)
IsRising-select p [] h = tt
IsRising-select p (r ∷ rs) h =
    if_intro IsRising (p r)
      (λ _. (All-select (λ (q : AuditRow). r.id < q.id) p rs h.0, IsRising-select p rs h.1))
      (λ _. IsRising-select p rs h.1)

pub select-reverse :
    (p : AuditRow → Bool) (rs : List AuditRow) → select p (reverse rs) ≡ reverse (select p rs)
select-reverse p [] = refl
select-reverse p (r ∷ rs) = ground (
  arith,
  reverse-cons r rs,
  select-append p (reverse rs) (r ∷ []),
  select-reverse p rs,
  reverse-cons r (select p rs),
  append-nil (reverse (select p rs)),
)

pub select-and :
    (p q : AuditRow → Bool) (rs : List AuditRow)
    → select (λ r. p r && q r) rs ≡ select q (select p rs)
select-and p q [] = refl
select-and p q (r ∷ rs) = ground (arith, select-and p q rs)

pub select-narrow :
    (p q : AuditRow → Bool) (rs : List AuditRow)
    → ((r : AuditRow) → q r ≡ true → p r ≡ true)
    → select q rs ≡ select q (select p rs)
select-narrow p q [] h = refl
select-narrow p q (r ∷ rs) h = ground (arith, select-narrow p q rs h, h r)

select-All-below :
    (k : ℕ) (rs : List AuditRow)
    → All (λ (r : AuditRow). r.id < k) rs
    → select (below (some k)) rs ≡ rs
select-All-below k [] h = refl
select-All-below k (r ∷ rs) h = ground (arith, select-All-below k rs h.1)

pub last-All :
    (P : AuditRow → Type 0) (d : AuditRow) (n : ℕ) (rs : List AuditRow)
    → P d
    → All P rs
    → P (last_or d (take n rs))
last-All P d zero rs p h = p
last-All P d (suc n) [] p h = p
last-All P d (suc n) (r ∷ rs) p h = last-All P r n rs h.0 h.1

-- What comes after a page is what is below its last row.
pub select-after :
    (n : ℕ) (r : AuditRow) (rs : List AuditRow)
    → Falling (r ∷ rs)
    → select (below (some (last_or r (take n rs)).id)) (r ∷ rs) ≡ drop n rs
select-after zero r rs h = ground (arith, select-All-below r.id rs h.0)
select-after (suc n) r [] h = ground arith
select-after (suc n) r (q ∷ rs) h =
    let below_r = last-All (λ (x : AuditRow). x.id < r.id) q n rs h.0.0 h.0.1 in
    ground (arith, select-after n q rs h.1)

pub select-true :
    (p : AuditRow → Bool) (rs : List AuditRow) → All (λ (r : AuditRow). p r ≡ true) (select p rs)
select-true p [] = tt
select-true p (r ∷ rs) = ground (arith, select-true p rs)

pub select-below-none : (rs : List AuditRow) → select (below none) rs ≡ rs
select-below-none [] = refl
select-below-none (r ∷ rs) = ap (λ qs. r ∷ qs) (select-below-none rs)

pub take-take : (n : ℕ) (rs : List AuditRow) → take n (take (suc n) rs) ≡ take n rs
take-take zero rs = refl
take-take (suc n) [] = refl
take-take (suc n) (r ∷ rs) = ap (λ qs. r ∷ qs) (take-take n rs)

-- A list is within the limit, or a longer one has one row more in the query.
pub length-query :
    (n : ℕ) (rs : List AuditRow) → ltb n (length (take (suc n) rs)) ≡ ltb n (length rs)
length-query zero [] = refl
length-query zero (r ∷ rs) = ground arith
length-query (suc n) [] = refl
length-query (suc n) (r ∷ rs) = ground (arith, length-query n rs)

pub take_all : (n : ℕ) (rs : List AuditRow) → length rs ≤ n → take n rs ≡ rs
take_all zero [] h = refl
take_all zero (r ∷ rs) h = absurd (omega arith)
take_all (suc n) [] h = refl
take_all (suc n) (r ∷ rs) h = ap (λ qs. r ∷ qs) (take_all n rs (omega arith))

pub map-take-drop :
    (n : ℕ) (rs : List AuditRow)
    → map as_record (take n rs) ++ map as_record (drop n rs) ≡ map as_record rs
map-take-drop zero rs = refl
map-take-drop (suc n) [] = refl
map-take-drop (suc n) (r ∷ rs) = ap (λ qs. as_record r ∷ qs) (map-take-drop n rs)

pub length-drop : (n : ℕ) (rs : List AuditRow) → length (drop n rs) ≤ length rs
length-drop zero rs = omega arith
length-drop (suc n) [] = omega arith
length-drop (suc n) (r ∷ rs) = omega (arith, length-drop n rs)

pub Falling-drop : (n : ℕ) (rs : List AuditRow) → Falling rs → Falling (drop n rs)
Falling-drop zero rs h = h
Falling-drop (suc n) [] h = h
Falling-drop (suc n) (r ∷ rs) h = Falling-drop n rs h.1
