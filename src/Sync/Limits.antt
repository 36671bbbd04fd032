-- ===== src/Sync/Limits.antt =====
-- The limits of `createSyncService` against those of `scan`.
use j_messenger.Common.{ℕ, String, ◌<◌, ◌≢◌, Option, arith, ltb, ◌||◌}
use j_messenger.Common.Results.{Result, ok, bad_request, throw_if, >>=-eq-ok}
use j_messenger.Store.{Context}
use j_messenger.Stream.{EventRow}
use j_messenger.Stream.Scan.{scan-over_limit}
use j_messenger.Sync.{
  Options, Views, Page, Input, Response, page, sync, decode_after, decode_through,
}

module _ {E T : Type 0} (hydrate : EventRow → Result (Option E)) (o : Options T) (c : Context) where
  page-over_limit :
      (limit after through : ℕ) (epoch : String) (v : Views) (p : Page hydrate)
      → 1000 < o.scan_limit
      → page hydrate o c limit after through epoch v ≢ ok p
  unfolding page
  page-over_limit limit after through epoch v p large e =
      ground (arith, scan-over_limit c.server_id after through o.scan_limit v.marked large)

  -- With a scan limit above 1000, which `createSyncService` accepts up to 5000, no call of `sync`
  -- returns a page.
  pub sync-over_limit :
      (i : Input T) (now : ℕ) (v : Views) (r : Response hydrate T)
      → 1000 < o.scan_limit
      → sync hydrate o c i now v ≢ ok r
  unfolding sync
  sync-over_limit i now v r large e =
      let (_, _, e₁) = >>=-eq-ok (throw_if (ltb i.limit 1 || ltb 100 i.limit) bad_request) _ e in
      let (after, _, e₂) = >>=-eq-ok (decode_after o c i.after v.begun.epoch now) _ e₁ in
      let (range, _, e₃) = >>=-eq-ok (decode_through o c i.through v.begun.epoch now v) _ e₂ in
      let (p, paged, _) = >>=-eq-ok (page hydrate o c i.limit after range.1 v.begun.epoch v) _ e₃ in
      page-over_limit i.limit after range.1 v.begun.epoch v p large paged
