-- ===== src/Stream/Scan.antt =====
-- What a page of `scan` holds, and a whole paging run.
use j_messenger.Common.{
  ℕ, zero, suc, ◌≤◌, ◌<◌, ◌≡◌, refl, sym, subst, Bool, true, false, List, [], ◌∷◌, ◌++◌, String,
  arith, leb, take, last_or, select, exists, All, All-take, Bool-cases, inl, inr,
}
use j_messenger.Common.Results.{ok, err, internal}
use j_messenger.Stream.{
  EventAppend, append, EventRow, Stream, ScanPage, in_range, window, row_ids, scanned_ids,
  read_page, scan,
}
use j_messenger.Stream.Invariant.{Between}

-- Above `through` there is nothing in the window.
window_above :
    (server : String) (after through lo : ℕ) (rs : List EventRow) (hi : ℕ)
    → through ≤ lo
    → Between lo rs hi
    → window server after through rs ≡ []
window_above server after through lo [] hi le h = refl
window_above server after through lo (r ∷ rs) hi le h =
    ground (arith, window_above server after through r.id rs hi)

-- In an ordered table a window splits at every position inside it.
pub window-split :
    (server : String) (after mid through lo : ℕ) (rs : List EventRow) (hi : ℕ)
    → after ≤ mid
    → mid ≤ through
    → Between lo rs hi
    → window server after through rs ≡ window server after mid rs ++ window server mid through rs
window-split server after mid through lo [] hi le ge h = refl
window-split server after mid through lo (r ∷ rs) hi le ge h = elim (Bool-cases (leb r.id mid)) [
  | inl low ↦ ground (arith, window-split server after mid through r.id rs hi)
  | inr high ↦ ground (
    arith,
    window-split server after mid through r.id rs hi,
    window_above server after mid r.id rs hi,
  )
]

pub window_empty : (server : String) (a : ℕ) (rs : List EventRow) → window server a a rs ≡ []
window_empty server a [] = refl
window_empty server a (r ∷ rs) = ground (arith, window_empty server a rs)

window-snoc :
    (server : String) (a b : ℕ) (rs : List EventRow) (r : EventRow)
    → b < r.id
    → window server a b (rs ++ r ∷ []) ≡ window server a b rs
window-snoc server a b [] r h = ground arith
window-snoc server a b (q ∷ rs) r h = ground (arith, window-snoc server a b rs r h)

-- An event that is appended is in no window that ends within the stream.
pub window-append :
    (server : String) (a b : ℕ) (e : EventAppend) (s : Stream)
    → b ≤ s.seq
    → window server a b (append e s).rows ≡ window server a b s.rows
unfolding append
window-append server a b e s h =
    window-snoc server a b s.rows (record { id = suc s.seq; event = e }) (omega arith)

abbrev InRange : ℕ → ℕ → EventRow → Type 0
InRange after through r = (after < r.id) × (r.id ≤ through)

select-InRange :
    (after through : ℕ) (rs : List EventRow)
    → All (InRange after through) (select (in_range after through) rs)
select-InRange after through [] = tt
select-InRange after through (r ∷ rs) = ground (arith, select-InRange after through rs)

last_id_bounds :
    (after through d : ℕ) (rs : List EventRow)
    → after < d
    → d ≤ through
    → All (InRange after through) rs
    → (after < last_or d (row_ids rs)) × (last_or d (row_ids rs) ≤ through)
last_id_bounds after through d [] le ge h = (le, ge)
last_id_bounds after through d (r ∷ rs) le ge h =
    last_id_bounds after through r.id rs h.0.0 h.0.1 h.1

exists-select : {A : Type 0} (p : A → Bool) (xs : List A) → select p xs ≡ [] → exists p xs ≡ false
exists-select p [] h = refl
exists-select p (x ∷ xs) h = ground (arith, exists-select p xs)

window_none :
    (server : String) (after through : ℕ) (rs : List EventRow)
    → exists (in_range after through) rs ≡ false
    → window server after through rs ≡ []
window_none server after through [] h = refl
window_none server after through (r ∷ rs) h = ground (arith, window_none server after through rs)

-- A limit of one or more cuts no list down to nothing.
take-eq-nil : {A : Type 0} (n : ℕ) (xs : List A) → 0 < n → take n xs ≡ [] → xs ≡ []
take-eq-nil zero xs h e = absurd (omega arith)
take-eq-nil (suc n) [] h e = refl
take-eq-nil (suc n) (x ∷ xs) h e = cc

-- What a reader may rely on in a page that was read from `after` up to `through`.
pub record IsPage (server : String) (after through : ℕ) (s : Stream) (page : ScanPage)
    : Type 0 where
  pub lower : after ≤ page.scanned_through
  pub upper : page.scanned_through ≤ through
  pub exact : page.rows ≡ window server after page.scanned_through s.rows
  pub done : page.has_more ≡ false → window server page.scanned_through through s.rows ≡ []
  pub progress : page.has_more ≡ true → after < page.scanned_through
  pub left : page.has_more ≡ exists (in_range page.scanned_through through) s.rows

module _ (server : String) (after through limit : ℕ) (s : Stream) where
  read_page-IsPage :
      (rs : List EventRow)
      → after ≤ through
      → 0 < limit
      → take limit (select (in_range after through) s.rows) ≡ rs
      → IsPage server after through s (read_page server after through (row_ids rs) s)
  read_page-IsPage [] le pos e =
      let none_left = take-eq-nil limit (select (in_range after through) s.rows) pos e in
      let nothing = exists-select (in_range after through) s.rows none_left in
      record {
        lower = omega arith;
        upper = le;
        exact = sym (window_empty server after s.rows);
        done = window_none server after through s.rows;
        progress = λ more. cc nothing;
        left = refl;
      }
  read_page-IsPage (r ∷ rs) le pos e =
      let inside =
        subst (All (InRange after through)) e
          (All-take (InRange after through) limit _ (select-InRange after through s.rows)) in
      let (above, below) = last_id_bounds after through r.id rs inside.0.0 inside.0.1 inside.1 in
      record {
        lower = omega arith;
        upper = below;
        exact = refl;
        done = window_none server (last_or r.id (row_ids rs)) through s.rows;
        progress = λ _. above;
        left = refl;
      }

-- If the range is not reversed, a page that `scan` returns is exactly the server's events from `after`
-- to where the scan ended, inside the range. `has_more` says whether the table, over all servers, has
-- a row of the range behind that end: where it does the scan has moved on, and where it does not the
-- server has no event left in the range.
pub scan-IsPage :
    (server : String) (after through limit : ℕ) (s : Stream) (page : ScanPage)
    → after ≤ through
    → scan server after through limit s ≡ ok page
    → IsPage server after through s page
unfolding scan
scan-IsPage server after through limit s page le e =
    let pos : 0 < limit = ground arith in
    let same_page : read_page server after through (scanned_ids after through limit s) s ≡ page =
      ground arith in
    subst (IsPage server after through s) same_page
      (read_page-IsPage server after through limit s _ le pos refl)

-- Within the limits of the method a scan always returns a page.
pub scan-total :
    (server : String) (after through limit : ℕ) (s : Stream)
    → 0 < limit
    → limit ≤ 1000
    → (page : ScanPage) × (scan server after through limit s ≡ ok page)
unfolding scan
scan-total server after through limit s pos small =
    (read_page server after through (scanned_ids after through limit s) s, ground arith)

-- Outside them it throws.
pub scan-over_limit :
    (server : String) (after through limit : ℕ) (s : Stream)
    → 1000 < limit
    → scan server after through limit s ≡ err internal
unfolding scan
scan-over_limit server after through limit s large = ground arith
