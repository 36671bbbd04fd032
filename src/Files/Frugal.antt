-- ===== src/Files/Frugal.antt =====
-- What apps/server/src/modules/files/index.ts does to files during the upload of another one: it takes no
-- more of the quota, and leaves the row of the upload as it is or ends it.
use j_messenger.Common.{
  ℕ, ◌-◌, ◌≤◌, ◌≡◌, refl, subst, inl, inr, Bool, true, false, ◌&&◌, List, [], ◌∷◌, none, some,
  String, arith, ltb, ◌||◌, take, select, update, All, Bool-cases, Option-cases,
}
use j_messenger.Common.Results.{ok}
use j_messenger.Store.{Store, Context, FileRow, attached, deleting, deleted}
use j_messenger.Files.{is_file, attach, is_ready, bind_each, bind, lookup}
use j_messenger.Files.Deletion.{
  Queue, is_going, mark_deleting, is_deleting, clear_file, schedule_delete,
}
use j_messenger.Jobs.{JobRow}
use j_messenger.Files.Upload.{is_uploading, in_upload, valid_key}
use j_messenger.Files.Reservation.{weight}
use j_messenger.Common.Sorting.{sort}
use j_messenger.Files.Orphans.{older, is_stale, drop_upload, reconcile_each, reconcile_orphans}
use j_messenger.Files.Quota.{IsWithin, IsSized, used-update}

module _ (quota : ℕ) (id : String) (reserved : ℕ) where
  -- What a change of the tables keeps
  abbrev pub Keeps : Store → Store → Type 0
  Keeps s s' =
      (IsWithin quota s → IsWithin quota s')
      × (IsSized id reserved s.files → IsSized id reserved s'.files)

  module _ (p : FileRow → Bool) (f : FileRow → FileRow)
      (ended : (r : FileRow) → is_uploading (f r).state ≡ false) where
    IsSized-update :
        (rs : List FileRow) → IsSized id reserved rs → IsSized id reserved (update p f rs)
    IsSized-update [] h = tt
    IsSized-update (r ∷ rs) h = (λ u. ground (arith, h.0, ended r), IsSized-update rs h.1)

    -- An update that ends uploads, and takes no more of the quota for the rows that there are
    rows-Keeps :
        (s : Store)
        → ((server : String)
            → All (λ (r : FileRow). p r ≡ true → weight server (f r) ≤ weight server r) s.files)
        → Keeps s (record s { files = update p f s.files })
    rows-Keeps s lighter = (
      λ w server. omega (arith, w server, used-update server p f s.files (lighter server)),
      IsSized-update s.files,
    )

    module _
        (lighter : (server : String) (r : FileRow)
          → p r ≡ true
          → weight server (f r) ≤ weight server r) where
      no_heavier :
          (server : String) (rs : List FileRow)
          → All (λ (r : FileRow). p r ≡ true → weight server (f r) ≤ weight server r) rs
      no_heavier server [] = tt
      no_heavier server (r ∷ rs) = (lighter server r, no_heavier server rs)

      update-Keeps : (s : Store) → Keeps s (record s { files = update p f s.files })
      update-Keeps s = rows-Keeps s (λ server. no_heavier server s.files)

  marked :
      (server other : String) (s : Store) (r : FileRow) (rs : List FileRow)
      → All (λ (q : FileRow). lookup q.id s ≡ some q) rs
      → lookup other s ≡ some r
      → is_going r.state ≡ false
      → All
          (λ (q : FileRow).
            is_file other q ≡ true
            → weight server (record q { state = deleting }) ≤ weight server q)
          rs
  marked server other s r [] keyed found staying = tt
  marked server other s r (q ∷ rs) keyed found staying = (
    λ here.
        let is_other : q.id ≡ other = ground arith in
        let is_r : q ≡ r = ground (arith, keyed.0, is_other) in ground arith,
    marked server other s r rs keyed.1 found staying,
  )

  schedule_delete-Keeps :
      (q : Queue) (other reason : String) (now : ℕ) (s s' : Store) (jobs jobs' : List JobRow)
      → All (λ (r : FileRow). lookup r.id s ≡ some r) s.files
      → schedule_delete q other reason now (s, jobs) ≡ ok (s', jobs')
      → Keeps s s'
  unfolding schedule_delete
  schedule_delete-Keeps q other reason now s s' jobs jobs' keyed h =
      elim (Option-cases (lookup other s)) [
        | inl missing ↦
            let end : s ≡ s' = ground arith in subst (λ t. Keeps s t) end (λ w. w, λ z. z)
        | inr (r, found) ↦ elim (Bool-cases (is_going r.state)) [
          | inl going ↦
              let end : s ≡ s' = ground arith in subst (λ t. Keeps s t) end (λ w. w, λ z. z)
          | inr staying ↦
              let end : record s { files = mark_deleting other s.files } ≡ s' = ground arith in
              subst (λ t. Keeps s t) end
                (rows-Keeps (is_file other) (λ r. record r { state = deleting }) (λ r. refl) s
                  (λ server. marked server other s r s.files keyed found staying))
        ]
      ]

  drop_upload-Keeps : (other : String) (s : Store) → Keeps s (drop_upload other s)
  unfolding drop_upload
  drop_upload-Keeps other s =
      update-Keeps (in_upload other)
        (λ r. record r {
          state = deleted;
          filename = none;
          mime_type = "application/octet-stream";
          size_bytes = 0;
        })
        (λ r. refl) (λ server r h. ground arith) s

  pub clear_file-Keeps : (other : String) (s : Store) → Keeps s (clear_file other s)
  unfolding clear_file
  clear_file-Keeps other s =
      update-Keeps (λ r. is_file other r && is_deleting r.state)
        (λ r. record r {
          state = deleted;
          filename = none;
          mime_type = "application/octet-stream";
          size_bytes = 0;
        })
        (λ r. refl) (λ server r h. ground arith) s

  attach-Keeps :
      (message : ℕ) (other : String) (s : Store)
      → Keeps s (record s { files = attach message other s.files })
  attach-Keeps message other s =
      update-Keeps (λ r. is_file other r && is_ready r.state)
        (λ r. record r { state = attached; message_id = some message }) (λ r. refl)
        (λ server r h. ground arith) s

  bind_each-Keeps :
      (c : Context) (conversation message : ℕ) (ids : List String) (s s' : Store)
      → bind_each c conversation message ids s ≡ ok s'
      → Keeps s s'
  unfolding bind_each
  bind_each-Keeps c conversation message [] s s' h =
      let end : s ≡ s' = ground arith in subst (λ t. Keeps s t) end (λ w. w, λ z. z)
  bind_each-Keeps c conversation message (i ∷ ids) s s' h =
      let t = record s { files = attach message i s.files } in
      let (w, z) = attach-Keeps message i s in
      let (w', z') = bind_each-Keeps c conversation message ids t s' (ground arith) in
      (λ x. w' (w x), λ x. z' (z x))

  reconcile_each-Keeps :
      (removable : String → Bool) (meanwhile : String → Store → Store)
      → ((other : String) (s : Store) → Keeps s (meanwhile other s))
      → (rs : List FileRow) (s : Store) → Keeps s (reconcile_each removable meanwhile rs s).1
  unfolding reconcile_each
  reconcile_each-Keeps removable meanwhile keeps [] s = (λ w. w, λ z. z)
  reconcile_each-Keeps removable meanwhile keeps (r ∷ rs) s =
      let t = meanwhile r.id s in
      let (w₁, z₁) = keeps r.id s in
      let (w₂, z₂) = drop_upload-Keeps r.id t in
      let (w₃, z₃) = reconcile_each-Keeps removable meanwhile keeps rs (drop_upload r.id t) in
      elim (Bool-cases (valid_key r.object_key && removable r.object_key)) [
        | inl gone ↦ rw gone (λ w. w₃ (w₂ (w₁ w)), λ z. z₃ (z₂ (z₁ z)))
        | inr kept ↦ rw kept (λ w. w, λ z. z)
      ]

  reconcile_orphans-Keeps :
      (removable : String → Bool) (meanwhile : String → Store → Store)
      → ((other : String) (s : Store) → Keeps s (meanwhile other s))
      → (limit now : ℕ) (s : Store) → Keeps s (reconcile_orphans removable meanwhile limit now s).1
  unfolding reconcile_orphans
  reconcile_orphans-Keeps removable meanwhile keeps limit now s =
      elim (Bool-cases (ltb limit 1 || ltb 1000 limit)) [
        | inl refused ↦ rw refused (λ w. w, λ z. z)
        | inr asked ↦ rw asked (
            reconcile_each-Keeps removable meanwhile keeps
              (take limit (sort older (select (is_stale (now - 3600000)) s.files))) s)
      ]

  -- On tables within the quota in which ids of files are unique, and the row of an upload has its size
  -- if it is still in upload: both stay so after a `bind` or a `scheduleDelete` that succeeds, after the
  -- end of a deletion, and after `reconcileOrphans`, if what others do during that keeps them so.
  pub files-IsWithin :
      (removable : String → Bool) (meanwhile : String → Store → Store)
      → ((other : String) (s : Store) → Keeps s (meanwhile other s))
      → (c : Context) (conversation message : ℕ) (ids : List String) (q : Queue)
        (other reason : String) (limit now later : ℕ) (s s₁ s₂ : Store) (jobs jobs' : List JobRow)
      → IsWithin quota s
      → IsSized id reserved s.files
      → All (λ (r : FileRow). lookup r.id s ≡ some r) s.files
      → bind c conversation message ids now s ≡ ok s₁
      → schedule_delete q other reason now (s, jobs) ≡ ok (s₂, jobs')
      → (IsWithin quota s₁ × IsSized id reserved s₁.files)
        × (IsWithin quota s₂ × IsSized id reserved s₂.files)
        × (IsWithin quota (clear_file other s) × IsSized id reserved (clear_file other s).files)
        × (IsWithin quota (reconcile_orphans removable meanwhile limit later s).1
            × IsSized id reserved (reconcile_orphans removable meanwhile limit later s).1.files)
  unfolding bind
  files-IsWithin removable meanwhile keeps c conversation message ids q other reason limit now later
        s s₁ s₂ jobs jobs' w z keyed h g =
      let bound = bind_each-Keeps c conversation message ids s s₁ (ground arith) in
      let scheduled = schedule_delete-Keeps q other reason now s s₂ jobs jobs' keyed g in
      let cleared = clear_file-Keeps other s in
      let reconciled = reconcile_orphans-Keeps removable meanwhile keeps limit later s in
      (
        (bound.0 w, bound.1 z),
        (scheduled.0 w, scheduled.1 z),
        (cleared.0 w, cleared.1 z),
        (reconciled.0 w, reconciled.1 z),
      )
