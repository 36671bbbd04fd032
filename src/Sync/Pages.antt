-- ===== src/Sync/Pages.antt =====
-- What a page of `sync` holds.
use j_messenger.Common.{
  ℕ, ◌≤◌, ◌<◌, ◌≡◌, ◌⊎◌, refl, sym, ap, ◌∙◌, Bool, true, false, List, [], ◌∷◌, ◌++◌, Option, none,
  some, String, arith, leb, ltb, ◌==◌, Bool-cases, inl, inr, if_intro, length, length-append,
  select, suc,
}
use mathlib.Core.List.{append-nil, append_assoc}
use j_messenger.Common.Results.{Result, Result-cases, ok, ◌>>=◌, >>=-eq-ok}
use j_messenger.Store.{Context}
use j_messenger.Stream.{EventRow, Stream, ScanPage, window, in_window, scan}
use j_messenger.Stream.Invariant.{Between, IsOrdered}
use j_messenger.Stream.Scan.{IsPage, scan-IsPage}
use j_messenger.Sync.{Options, Views, Page, collect, finish_page, page, nonempty, push}

module _ {E : Type 0} (hydrate : EventRow → Result (Option E)) where
  abbrev pub hydrate_all : List EventRow → Result (List E)
  hydrate_all [] = ok []
  hydrate_all (r ∷ rs) = do event ← hydrate r; events ← hydrate_all rs; ok (push [] event ++ events)

  abbrev up_to : ℕ → List EventRow → List EventRow
  up_to id rs = select (λ r. leb r.id id) rs

  abbrev beyond : ℕ → List EventRow → List EventRow
  beyond id rs = select (λ r. ltb id r.id) rs

  up_to_above :
      (id lo : ℕ) (rs : List EventRow) (hi : ℕ) → id ≤ lo → Between lo rs hi → up_to id rs ≡ []
  up_to_above id lo [] hi le h = refl
  up_to_above id lo (r ∷ rs) hi le h = ground (arith, up_to_above id r.id rs hi)

  beyond_above :
      (id lo : ℕ) (rs : List EventRow) (hi : ℕ) → id ≤ lo → Between lo rs hi → beyond id rs ≡ rs
  beyond_above id lo [] hi le h = refl
  beyond_above id lo (r ∷ rs) hi le h = ground (arith, beyond_above id r.id rs hi)

  -- The rows that the loop has used: all of them, or those up to where it stopped.
  abbrev used_rows : Option (ℕ × Bool) → List EventRow → List EventRow
  used_rows none rs = rs
  used_rows (some (id, rest)) rs = up_to id rs

  abbrev Stopped : ℕ → Option (ℕ × Bool) → List EventRow → Type 0
  Stopped lo none rs = Unit
  Stopped lo (some (id, rest)) rs = (lo < id) × (nonempty (beyond id rs) ≡ rest)

  record IsCollected (limit lo : ℕ) (events : List E) (rs : List EventRow) (all : List E)
      (stop : Option (ℕ × Bool)) : Type 0 where
    found : List E
    hydrated : hydrate_all (used_rows stop rs) ≡ ok found
    added : all ≡ events ++ found
    stopped : Stopped lo stop rs
    bounded : length all ≤ limit

  push-append :
      (xs : List E) (x : Option E) (ys : List E) → push xs x ++ ys ≡ xs ++ (push [] x ++ ys)
  push-append xs none ys = refl
  push-append xs (some x) ys = append_assoc xs (x ∷ []) ys

  length-push : (xs : List E) (x : Option E) → length (push xs x) ≤ suc (length xs)
  length-push xs none = omega arith
  length-push xs (some x) = omega (arith, length-append xs (x ∷ []))

  ltb_of_ne : (m n : ℕ) → m == n ≡ false → (m < n) ⊎ (n < m)
  ltb_of_ne m n h = ground arith

  stopped-IsCollected :
      (limit lo : ℕ) (events : List E) (r : EventRow) (rs : List EventRow) (hi : ℕ) (x : Option E)
      → length events < limit
      → Between lo (r ∷ rs) hi
      → hydrate r ≡ ok x
      → IsCollected limit lo events (r ∷ rs) (push events x) (some (r.id, nonempty rs))
  stopped-IsCollected limit lo events r rs hi x room h hx = record {
    found = push [] x;
    hydrated = ground (arith, up_to_above r.id r.id rs hi, append-nil (push [] x));
    added =
        ap (λ zs. zs) (sym (append-nil (push events x)))
        ∙ push-append events x []
        ∙ ap (λ zs. events ++ zs) (append-nil (push [] x));
    stopped = ground (arith, beyond_above r.id r.id rs hi);
    bounded = omega (arith, length-push events x);
  }

  more-IsCollected :
      (limit lo : ℕ) (events : List E) (r : EventRow) (rs : List EventRow) (x : Option E)
      (all : List E) (stop : Option (ℕ × Bool))
      → lo < r.id
      → hydrate r ≡ ok x
      → IsCollected limit r.id (push events x) rs all stop
      → IsCollected limit lo events (r ∷ rs) all stop
  more-IsCollected limit lo events r rs x all none lt hx rest = record {
    found = push [] x ++ rest.found;
    hydrated = ground (arith, rest.hydrated);
    added = rest.added ∙ push-append events x rest.found;
    stopped = tt;
    bounded = rest.bounded;
  }
  more-IsCollected limit lo events r rs x all (some (id, b)) lt hx rest = record {
    found = push [] x ++ rest.found;
    hydrated = ground (arith, rest.hydrated, rest.stopped);
    added = rest.added ∙ push-append events x rest.found;
    stopped = ground (arith, rest.stopped);
    bounded = rest.bounded;
  }

  collect-IsCollected :
      (limit lo : ℕ) (events : List E) (rs : List EventRow) (hi : ℕ) (all : List E)
      (stop : Option (ℕ × Bool))
      → length events < limit
      → Between lo rs hi
      → collect hydrate limit events rs ≡ ok (all, stop)
      → IsCollected limit lo events rs all stop
  unfolding collect
  collect-IsCollected limit lo events [] hi all stop room h e =
      let (same_all, same_stop) : (all ≡ events) × (stop ≡ none) = ground arith in
      rw (same_all, same_stop)
        (record {
          found = [];
          hydrated = refl;
          added = sym (append-nil events);
          stopped = tt;
          bounded = omega arith;
        })
  collect-IsCollected limit lo events (r ∷ rs) hi all stop room h e =
      let (x, hx, e') = >>=-eq-ok (hydrate r) _ e in
      elim (Bool-cases (length (push events x) == limit)) [
        | inl full ↦
            let (same_all, same_stop) : (all ≡ push events x) × (stop ≡ some (r.id, nonempty rs)) =
              ground arith in
            rw (same_all, same_stop) (stopped-IsCollected limit lo events r rs hi x room h hx)
        | inr more ↦ more-IsCollected limit lo events r rs x all stop h.0 hx (
            collect-IsCollected limit r.id (push events x) rs hi all stop
              (omega (arith, length-push events x, ltb_of_ne (length (push events x)) limit more))
              h.1 (ground arith))
      ]

  Between-lower :
      (a lo : ℕ) (rs : List EventRow) (hi : ℕ) → a ≤ lo → Between lo rs hi → Between a rs hi
  Between-lower a lo [] hi le h = omega arith
  Between-lower a lo (r ∷ rs) hi le h = (omega (arith, h.0), h.1)

  window_keeps :
      (server : String) (after through lo : ℕ) (rs : List EventRow) (hi : ℕ)
      → Between lo rs hi
      → Between lo (window server after through rs) hi
  window_keeps server after through lo [] hi h = h
  window_keeps server after through lo (r ∷ rs) hi h =
      let rest = window_keeps server after through r.id rs hi h.1 in
      if_intro (λ xs. Between lo xs hi) (in_window server after through r) (λ _. (h.0, rest))
        (λ _. Between-lower lo r.id (window server after through rs) hi (omega (arith, h.0)) rest)

  window-Between :
      (server : String) (after through lo : ℕ) (rs : List EventRow) (hi : ℕ)
      → Between lo rs hi
      → after ≤ hi
      → Between after (window server after through rs) hi
  window-Between server after through lo [] hi h top = top
  window-Between server after through lo (r ∷ rs) hi h top =
      if_intro (λ xs. Between after xs hi) (in_window server after through r)
        (λ inside. (ground arith, window_keeps server after through r.id rs hi h.1))
        (λ _. window-Between server after through r.id rs hi h.1 top)

  up_to-window :
      (server : String) (after id through : ℕ) (rs : List EventRow)
      → id ≤ through
      → up_to id (window server after through rs) ≡ window server after id rs
  up_to-window server after id through [] le = refl
  up_to-window server after id through (r ∷ rs) le =
      ground (arith, up_to-window server after id through rs)

  up_to_all : (id : ℕ) (rs : List EventRow) → nonempty (beyond id rs) ≡ false → up_to id rs ≡ rs
  up_to_all id [] h = refl
  up_to_all id (r ∷ rs) h = ground (arith, up_to_all id rs)

  beyond_inside :
      (server : String) (after id through : ℕ) (rs : List EventRow)
      → nonempty (beyond id (window server after through rs)) ≡ true
      → id < through
  beyond_inside server after id through [] h = cc
  beyond_inside server after id through (r ∷ rs) h =
      ground (arith, beyond_inside server after id through rs)

  -- What a client may rely on in a page between two positions.
  pub record IsExact (server : String) (after through limit : ℕ) (s : Stream) (p : Page hydrate)
      : Type 0 where
    pub lower : after ≤ p.scanned_through
    pub upper : p.scanned_through ≤ through
    pub exact : hydrate_all (window server after p.scanned_through s.rows) ≡ ok p.events
    pub done : p.has_more ≡ false → window server p.scanned_through through s.rows ≡ []
    pub progress : p.has_more ≡ true → after < p.scanned_through
    pub bounded : length p.events ≤ limit

  module _ (server : String) (after through limit : ℕ) (s : Stream) (q : ScanPage)
      (ordered : IsOrdered s) (scanned : IsPage server after through s q)
      (top : after ≤ s.seq) where
    finish_page-IsExact :
        (events : List E) (stop : Option (ℕ × Bool))
        → IsCollected limit after [] q.rows events stop
        → IsExact server after through limit s (finish_page hydrate events stop q)
    unfolding finish_page
    finish_page-IsExact events none h = record {
      lower = scanned.lower;
      upper = scanned.upper;
      exact = cc (h.hydrated, h.added, scanned.exact);
      done = scanned.done;
      progress = scanned.progress;
      bounded = h.bounded;
    }
    finish_page-IsExact events (some (id, false)) h = record {
      lower = scanned.lower;
      upper = scanned.upper;
      exact = cc (h.hydrated, h.added, scanned.exact, up_to_all id q.rows h.stopped.1);
      done = scanned.done;
      progress = scanned.progress;
      bounded = h.bounded;
    }
    finish_page-IsExact events (some (id, true)) h =
        let inside =
          beyond_inside server after id q.scanned_through s.rows
            (cc (h.stopped.1, scanned.exact)) in
        record {
          lower = omega (arith, h.stopped.0);
          upper = omega (arith, inside, scanned.upper);
          exact = cc (
            h.hydrated,
            h.added,
            scanned.exact,
            up_to-window server after id q.scanned_through s.rows (omega (arith, inside)),
          );
          done = λ no_more. cc no_more;
          progress = λ _. h.stopped.0;
          bounded = h.bounded;
        }

  -- A page holds exactly the caller's events between the position before it and the one after it,
  -- at most as many as asked for; if it says that there is more the position has moved, and if not
  -- nothing is left up to the end of the range.
  pub page-IsExact :
      {T : Type 0} (o : Options T) (c : Context) (limit after through : ℕ) (epoch : String)
      (v : Views) (p : Page hydrate)
      → 0 < limit
      → IsOrdered v.marked
      → page hydrate o c limit after through epoch v ≡ ok p
      → IsExact c.server_id after through limit v.marked p
  unfolding page
  page-IsExact o c limit after through epoch v p pos ordered e =
      elim (Result-cases (scan c.server_id after through o.scan_limit v.marked)) [
        | inr (x, failed) ↦ absurd (ground arith)
        | inl (q, scanned) ↦ elim (Result-cases (collect hydrate limit [] q.rows)) [
          | inr (x, failed) ↦ absurd (ground arith)
          | inl ((events, stop), collected) ↦
              let bounds : (after ≤ through) × (through ≤ v.marked.seq) = ground arith in
              let is_page =
                scan-IsPage c.server_id after through o.scan_limit v.marked q bounds.0 scanned in
              let ordered_rows : Between after q.rows v.marked.seq = rw is_page.exact (
                window-Between c.server_id after q.scanned_through v.marked.min_valid_position
                  v.marked.rows v.marked.seq ordered (omega (arith, bounds))) in
              let same_page : p ≡ finish_page hydrate events stop q = ground arith in
              rw same_page (
                finish_page-IsExact c.server_id after through limit v.marked q ordered is_page
                  (omega (arith, bounds)) events stop
                  (collect-IsCollected limit after [] q.rows v.marked.seq events stop pos
                    ordered_rows collected))
        ]
      ]
