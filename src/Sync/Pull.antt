-- ===== src/Sync/Pull.antt =====
-- A client that asks for pages until there is no more gets every event once.
use j_messenger.Common.{
  ℕ, zero, suc, ◌+◌, ◌≤◌, ◌<◌, ◌≡◌, refl, sym, ap, ◌∙◌, ◌==◌, length, Bool, true, false, List, [],
  ◌∷◌, ◌++◌, Option, none, some, String, arith, Bool-cases, inl, inr,
}
use mathlib.Core.List.{append_assoc, append-nil}
use j_messenger.Common.Results.{Result, ok, err, internal, ◌>>=◌, >>=-eq-ok}
use j_messenger.Decimal.{max_sqlite_id}
use j_messenger.Store.{Context}
use j_messenger.Stream.{EventRow, ScanPage, window, scan}
use j_messenger.Stream.Invariant.{IsOrdered}
use j_messenger.Stream.Scan.{window-split, scan-total, scan-IsPage, IsPage}
use j_messenger.Sync.{Options, Views, Page, collect, finish_page, page, push, nonempty}
use j_messenger.Sync.Pages.{hydrate_all, page-IsExact}

-- The stream has the same events of the server up to the end of the range; others may have come.
abbrev pub IsUnchanged : String → ℕ → List EventRow → Views → Type 0
IsUnchanged server through rows v =
    (a b : ℕ) → b ≤ through → window server a b v.marked.rows ≡ window server a b rows

module _ {E : Type 0} (hydrate : EventRow → Result (Option E)) where
  hydrate_all-append :
      (rs qs : List EventRow) (es fs : List E)
      → hydrate_all hydrate rs ≡ ok es
      → hydrate_all hydrate qs ≡ ok fs
      → hydrate_all hydrate (rs ++ qs) ≡ ok (es ++ fs)
  hydrate_all-append [] qs es fs h k = ground arith
  hydrate_all-append (r ∷ rs) qs es fs h k =
      let (x, hx, h') = >>=-eq-ok (hydrate r) _ h in
      let (xs, hxs, same_es) = >>=-eq-ok (hydrate_all hydrate rs) _ h' in
      ground (arith, hydrate_all-append rs qs xs fs hxs k, append_assoc (push [] x) xs fs)

  module _ {T : Type 0} (o : Options T) (c : Context) (limit through : ℕ) (epoch : String)
      (v : ℕ → Views) where
    -- The pages from `after` on, joined: request `n` finds the stream as `v n`, and the fuel is the
    -- number of requests.
    unfoldable pub pull : ℕ → ℕ → ℕ → Result (List E)
    pull zero n after = err internal
    pull (suc fuel) n after = do
      p ← page hydrate o c limit after through epoch (v n)
      elim p.has_more [
        | true ↦ do rest ← pull fuel (suc n) p.scanned_through; ok (p.events ++ rest)
        | false ↦ ok p.events
      ]

    module _ (rows : List EventRow) (pos : 0 < limit) (ordered : (n : ℕ) → IsOrdered (v n).marked)
        (unchanged : (n : ℕ) → IsUnchanged c.server_id through rows (v n)) where
      -- In every view the range splits where a page ends.
      range-split :
          (n after mid : ℕ)
          → after ≤ mid
          → mid ≤ through
          → window c.server_id after through rows
            ≡ window c.server_id after mid rows ++ window c.server_id mid through rows
      range-split n after mid le ge =
          let split =
            window-split c.server_id after mid through (v n).marked.min_valid_position
              (v n).marked.rows (v n).marked.seq le ge (ordered n) in
          cc (
            split,
            unchanged n after through (omega arith),
            unchanged n after mid ge,
            unchanged n mid through (omega arith),
          )

      pull_exact :
          (fuel n after : ℕ) (es : List E)
          → pull fuel n after ≡ ok es
          → hydrate_all hydrate (window c.server_id after through rows) ≡ ok es
      unfolding pull
      pull_exact zero n after es e = cc
      pull_exact (suc fuel) n after es e =
          let (p, paged, e') = >>=-eq-ok (page hydrate o c limit after through epoch (v n)) _ e in
          let x =
            page-IsExact hydrate o c limit after through epoch (v n) p pos (ordered n) paged in
          let split = range-split n after p.scanned_through x.lower x.upper in
          let first : hydrate_all hydrate (window c.server_id after p.scanned_through rows)
              ≡ ok p.events =
            ap (hydrate_all hydrate) (sym (unchanged n after p.scanned_through x.upper))
            ∙ x.exact in
          elim (Bool-cases p.has_more) [
            | inl more ↦
                let (rest, pulled, joined) =
                  >>=-eq-ok (pull fuel (suc n) p.scanned_through) (λ rest. ok (p.events ++ rest))
                    {end = es} (ground arith) in
                ground (
                  arith,
                  split,
                  hydrate_all-append (window c.server_id after p.scanned_through rows)
                      (window c.server_id p.scanned_through through rows) p.events rest first
                      (pull_exact fuel (suc n) p.scanned_through rest pulled),
                )
            | inr last ↦
                let nothing : window c.server_id p.scanned_through through rows ≡ [] =
                  sym (unchanged n p.scanned_through through (omega arith)) ∙ x.done last in
                ground (
                  arith,
                  split,
                  first,
                  nothing,
                  append-nil (window c.server_id after p.scanned_through rows),
                )
          ]

  -- The stream keeps its epoch during a request, has the range, and the limits are those that `scan` takes.
  pub record IsSteady {T : Type 0} (o : Options T) (through : ℕ) (epoch : String) (v : Views)
      : Type 0 where
    pub marked : v.marked.epoch ≡ epoch
    pub ended : v.ended.epoch ≡ epoch
    pub some_rows : 0 < o.scan_limit
    pub few_rows : o.scan_limit ≤ 1000
    pub in_stream : through ≤ v.marked.seq
    pub representable : through ≤ max_sqlite_id

  module _ (answers : (r : EventRow) → (x : Option E) × (hydrate r ≡ ok x)) where
    collect-total :
        (limit : ℕ) (events : List E) (rs : List EventRow)
        → (d : List E × Option (ℕ × Bool)) × (collect hydrate limit events rs ≡ ok d)
    unfolding collect
    collect-total limit events [] = ((events, none), refl)
    collect-total limit events (r ∷ rs) =
        let (x, hx) = answers r in
        let (d, hd) = collect-total limit (push events x) rs in
        elim (Bool-cases (length (push events x) == limit)) [
          | inl full ↦ ((push events x, some (r.id, nonempty rs)), ground arith)
          | inr room ↦ (d, ground arith)
        ]

    module _ {T : Type 0} (o : Options T) (c : Context) (limit through : ℕ) (epoch : String) where
      page_ok :
          (v : Views) (after : ℕ) (q : ScanPage) (events : List E) (stop : Option (ℕ × Bool))
          → IsSteady o through epoch v
          → after ≤ through
          → v.marked.min_valid_position ≤ after
          → scan c.server_id after through o.scan_limit v.marked ≡ ok q
          → IsPage c.server_id after through v.marked q
          → collect hydrate limit [] q.rows ≡ ok (events, stop)
          → page hydrate o c limit after through epoch v ≡ ok (finish_page hydrate events stop q)
      unfolding page
      page_ok v after q events stop steady le valid scanned is_page collected = ground (
        arith, steady.marked, steady.ended, steady.in_stream, steady.representable, is_page.lower,
        is_page.upper,
      )

      page-total :
          (v : Views) (after : ℕ)
          → IsSteady o through epoch v
          → after ≤ through
          → v.marked.min_valid_position ≤ after
          → (p : Page hydrate) × (page hydrate o c limit after through epoch v ≡ ok p)
      unfolding page
      page-total v after steady le valid =
          let (q, scanned) =
            scan-total c.server_id after through o.scan_limit v.marked steady.some_rows
              steady.few_rows in
          let is_page = scan-IsPage c.server_id after through o.scan_limit v.marked q le scanned in
          let (d, collected) = collect-total limit [] q.rows in
          (
            finish_page hydrate d.0 d.1 q,
            page_ok v after q d.0 d.1 steady le valid scanned is_page collected,
          )

      module _ (v : ℕ → Views) (steady : (n : ℕ) → IsSteady o through epoch (v n))
          (ordered : (n : ℕ) → IsOrdered (v n).marked) (pos : 0 < limit) where
        pull-total :
            (fuel n after : ℕ)
            → after ≤ through
            → ((m : ℕ) → (v m).marked.min_valid_position ≤ after)
            → through < fuel + after
            → (es : List E) × (pull o c limit through epoch v fuel n after ≡ ok es)
        unfolding pull
        pull-total zero n after le valid enough = absurd (omega arith)
        pull-total (suc fuel) n after le valid enough =
            let (p, paged) = page-total (v n) after (steady n) le (valid n) in
            let x =
              page-IsExact hydrate o c limit after through epoch (v n) p pos (ordered n) paged in
            elim (Bool-cases p.has_more) [
              | inl more ↦
                  let (rest, pulled) =
                    pull-total fuel (suc n) p.scanned_through x.upper
                      (λ m. omega (arith, x.lower, valid m)) (omega (arith, x.progress more)) in
                  (p.events ++ rest, ground arith)
              | inr last ↦ (p.events, ground arith)
            ]

        -- A client that asks for pages of one event or more ends up with exactly the caller's
        -- events of the whole range, hydrated, in their order and each once, whatever is appended
        -- behind the range between its requests. This holds from a position inside the range that
        -- has not been pruned, and with as many requests as there are positions, if hydration
        -- always answers, the scan limit is from 1 to 1000, the range ends within the stream and
        -- at an id of SQLite, and at every request the stream is in the order of its ids, has the
        -- epoch of the range, and has the same events of the caller's server in the range.
        pub pull_complete :
            (rows : List EventRow) (fuel n after : ℕ)
            → ((m : ℕ) → IsUnchanged c.server_id through rows (v m))
            → after ≤ through
            → ((m : ℕ) → (v m).marked.min_valid_position ≤ after)
            → through < fuel + after
            → (es : List E) × (pull o c limit through epoch v fuel n after ≡ ok es)
              × (hydrate_all hydrate (window c.server_id after through rows) ≡ ok es)
        pull_complete rows fuel n after unchanged le valid enough =
            let (es, pulled) = pull-total fuel n after le valid enough in
            (
              es,
              pulled,
              pull_exact o c limit through epoch v rows pos ordered unchanged fuel n after es
                  pulled,
            )
