-- ===== src/Files/Ending.antt =====
-- A deletion that has been scheduled takes place, and takes place once.
use j_messenger.Common.{
  ℕ, ◌≡◌, refl, Bool, true, ◌&&◌, List, [], ◌∷◌, none, some, String, arith, select_one, update,
  Bool-cases, inl, inr,
}
use j_messenger.Common.Results.{ok}
use j_messenger.Store.{Store, FileRow, deleting, deleted}
use j_messenger.Files.{is_file, lookup}
use j_messenger.Jobs.{JobRow}
use j_messenger.Jobs.Batch.{done}
use j_messenger.Files.Deletion.{
  Queue, valid_reason, is_going, mark_deleting, schedule_delete, is_deleting, clear_file,
  handle_delete,
}

marked :
    (id : String) (files : List FileRow) (r : FileRow)
    → select_one (is_file id) files ≡ some r
    → select_one (is_file id) (mark_deleting id files) ≡ some (record r { state = deleting })
marked id [] r e = cc
marked id (q ∷ files) r e = ground (arith, marked id files r)

-- A deletion that has been scheduled is scheduled once: a second call changes neither the files nor
-- the jobs, and the file is on its way out.
pub schedule_delete_again :
    (q q' : Queue) (id reason reason' : String) (now now' : ℕ) (s s' : Store)
    (jobs jobs' : List JobRow) (r : FileRow)
    → lookup id s ≡ some r
    → valid_reason reason' ≡ true
    → schedule_delete q id reason now (s, jobs) ≡ ok (s', jobs')
    → (schedule_delete q' id reason' now' (s', jobs') ≡ ok (s', jobs'))
      × ((r' : FileRow) × (lookup id s' ≡ some r') × (is_going r'.state ≡ true))
unfolding schedule_delete lookup
schedule_delete_again q q' id reason reason' now now' s s' jobs jobs' r found valid e =
    elim (Bool-cases (is_going r.state)) [
      | inl going ↦ (ground arith, (r, ground arith, going))
      | inr staying ↦
          let found_again = marked id s.files r found in
          (
            ground (arith, found_again),
            (record r { state = deleting }, ground (arith, found_again), refl),
          )
    ]

cleared :
    (id : String) (files : List FileRow) (r : FileRow)
    → select_one (is_file id) files ≡ some r
    → r.state ≡ deleting
    → select_one (is_file id) (
        update
          (λ (q : FileRow). is_file id q && is_deleting q.state)
          (λ q. record q {
            state = deleted;
            filename = none;
            mime_type = "application/octet-stream";
            size_bytes = 0;
          })
          files)
      ≡ some (record r {
        state = deleted;
        filename = none;
        mime_type = "application/octet-stream";
        size_bytes = 0;
      })
cleared id [] r e h = cc
cleared id (q ∷ files) r e h = ground (arith, cleared id files r)

-- Where the job of a known file is done its row reads deleted, and it is done only for a file that
-- was on its way out.
pub handle_delete_done :
    (id : String) (removed : Bool) (now : ℕ) (s t : Store) (r : FileRow)
    → lookup id s ≡ some r
    → handle_delete (some id) removed now s s ≡ (done, t)
    → (is_going r.state ≡ true) × ((r' : FileRow) × (lookup id t ≡ some r') × (r'.state ≡ deleted))
unfolding handle_delete lookup clear_file
handle_delete_done id removed now s t r found e = elim (Bool-cases (is_deleting r.state)) [
  | inl going ↦
      let is_state : r.state ≡ deleting = ground arith in
      let after = cleared id s.files r found is_state in
      (
        ground arith,
        (
          record r {
            state = deleted;
            filename = none;
            mime_type = "application/octet-stream";
            size_bytes = 0;
          },
          ground (arith, after),
          refl,
        ),
      )
  | inr other ↦
      let is_state : r.state ≡ deleted = ground arith in (ground arith, (r, ground arith, is_state))
]
