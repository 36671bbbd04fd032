-- ===== src/Audit/Pages.antt =====
-- The pages of the audit log of apps/server/src/modules/audit/index.ts, followed by their cursors, are
-- the whole log of a server.
use j_messenger.Common.{
  ℕ, zero, suc, ◌-◌, ◌≤◌, ◌<◌, ◌≡◌, refl, ap, ◌∙◌, sym, subst, true, List, [], ◌∷◌, ◌++◌, map,
  reverse, Option, none, some, arith, ltb, length, Bool-cases, inl, inr, take, last_or, get_last?,
  select, All,
}
use j_messenger.Common.Results.{Result, ok, err, internal, ◌>>=◌}
use j_messenger.Store.{Context}
use j_messenger.Audit.{
  AuditRow, AuditLog, AuditRecord, below, of_server, list_rows, as_record, cursor_after, list,
}
use j_messenger.Audit.Falling.{
  drop, IsRising, Falling, Falling-reverse, IsRising-select, select-reverse, select-and,
  select-narrow, last-All, select-after, select-true, select-below-none, take-take, length-query,
  take_all, map-take-drop, length-drop, Falling-drop,
}

module _ (c : Context) (limit : ℕ) (a : AuditLog) where
  -- The server's rows, the newest first
  abbrev pub newest_first : List AuditRow
  newest_first = reverse (select (of_server c.server_id) a.rows)

  -- The pages from a cursor on, joined, with as many requests as the fuel allows.
  unfoldable pub list_all : ℕ → Option ℕ → Result (List AuditRecord)
  list_all zero cursor = err internal
  list_all (suc fuel) cursor = do
    p ← list true c cursor limit a
    elim p.next_cursor [
      | none ↦ ok p.items
      | some k ↦ do rest ← list_all fuel (some k); ok (p.items ++ rest)
    ]

  list_rows-below :
      (cursor : Option ℕ)
      → list_rows c.server_id cursor limit a ≡ take (suc limit) (select (below cursor) newest_first)
  list_rows-below cursor =
      ap (λ rs. take (suc limit) (reverse rs))
        (select-and (of_server c.server_id) (below cursor) a.rows)
      ∙ ap (take (suc limit))
          (sym (select-reverse (below cursor) (select (of_server c.server_id) a.rows)))

  module _ (pos : 0 < limit) (small : limit ≤ 100) where
    list-eq :
        (cursor : Option ℕ) (rs : List AuditRow)
        → select (below cursor) newest_first ≡ rs
        → list true c cursor limit a
          ≡ ok (record {
            items = map as_record (take limit rs);
            next_cursor = cursor_after (ltb limit (length rs)) (get_last? (take limit rs));
          })
    unfolding list
    list-eq cursor rs e =
        ground (arith, list_rows-below cursor, take-take limit rs, length-query limit rs)

    -- What the page that starts with `r` leaves
    rest-eq :
        (cursor : Option ℕ) (m : ℕ) (r : AuditRow) (rs : List AuditRow)
        → Falling (r ∷ rs)
        → select (below cursor) newest_first ≡ r ∷ rs
        → select (below (some (last_or r (take m rs)).id)) newest_first ≡ drop m rs
    rest-eq cursor m r rs falls e =
        let last = last_or r (take m rs) in
        let passes : All (λ (x : AuditRow). below cursor x ≡ true) (r ∷ rs) =
          subst (All (λ (x : AuditRow). below cursor x ≡ true)) e
            (select-true (below cursor) newest_first) in
        let inside : below cursor last ≡ true =
          last-All (λ (x : AuditRow). below cursor x ≡ true) r m rs passes.0 passes.1 in
        select-narrow (below cursor) (below (some last.id)) newest_first
          (λ q h. below_below cursor last q inside h)
        ∙ ap (select (below (some last.id))) e
        ∙ select-after m r rs falls
      where
        below_below :
            (cursor : Option ℕ) (l q : AuditRow)
            → below cursor l ≡ true
            → below (some l.id) q ≡ true
            → below cursor q ≡ true
        below_below none l q h k = refl
        below_below (some b) l q h k = ground arith

    -- A page that is not the last, and the pages after it
    list_all-more :
        (fuel m : ℕ) (cursor : Option ℕ) (r : AuditRow) (rs : List AuditRow)
        → suc m ≡ limit
        → select (below cursor) newest_first ≡ r ∷ rs
        → ltb limit (length (r ∷ rs)) ≡ true
        → list_all fuel (some (last_or r (take m rs)).id) ≡ ok (map as_record (drop m rs))
        → list_all (suc fuel) cursor ≡ ok (map as_record (r ∷ rs))
    unfolding list_all
    list_all-more fuel m cursor r rs same_limit e more after =
        let first : get_last? (take limit (r ∷ rs)) ≡ some (last_or r (take m rs)) =
          ap (λ n. get_last? (take n (r ∷ rs))) (sym same_limit) in
        let items : map as_record (take limit (r ∷ rs)) ≡ as_record r ∷ map as_record (take m rs) =
          ap (λ n. map as_record (take n (r ∷ rs))) (sym same_limit) in
        ground (arith, list-eq cursor (r ∷ rs) e, first, items, map-take-drop m rs)

    list_all-from :
        (fuel : ℕ) (cursor : Option ℕ) (rs : List AuditRow)
        → Falling rs
        → select (below cursor) newest_first ≡ rs
        → length rs < fuel
        → list_all fuel cursor ≡ ok (map as_record rs)
    unfolding list_all
    list_all-from zero cursor rs falls e enough = absurd (omega arith)
    list_all-from (suc fuel) cursor [] falls e enough =
        ground (arith, list-eq cursor [] e, take_all limit [])
    list_all-from (suc fuel) cursor (r ∷ rs) falls e enough =
        elim (Bool-cases (ltb limit (length (r ∷ rs)))) [
          | inr last ↦ ground (arith, list-eq cursor (r ∷ rs) e, take_all limit (r ∷ rs))
          | inl more ↦
              let m = limit - 1 in
              list_all-more fuel m cursor r rs (omega (arith, pos)) e more (
                list_all-from fuel (some (last_or r (take m rs)).id) (drop m rs)
                  (Falling-drop m rs falls.1) (rest-eq cursor m r rs falls e)
                  (omega (arith, length-drop m rs)))
        ]

    -- With more requests than the server has rows, the pages that an administrator gets by following
    -- the cursors are all of its rows, each once, the newest first, if the ids of the table rise.
    pub list_all_complete :
        (fuel : ℕ)
        → IsRising a.rows
        → length newest_first < fuel
        → list_all fuel none ≡ ok (map as_record newest_first)
    list_all_complete fuel rising enough =
        list_all-from fuel none newest_first
          (Falling-reverse (select (of_server c.server_id) a.rows)
            (IsRising-select (of_server c.server_id) a.rows rising))
          (select-below-none newest_first) enough
