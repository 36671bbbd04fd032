-- ===== src/Files/Binding.antt =====
-- What `bind` leaves in the files table.
use j_messenger.Common.{
  ℕ, ◌≡◌, refl, subst, true, List, [], ◌∷◌, some, String, arith, select_one, All, Option-cases, inl,
  inr,
}
use j_messenger.Common.Results.{ok}
use j_messenger.Store.{Store, Context, FileRow, ready, attached}
use j_messenger.Files.{is_file, lookup, can_bind, attach, bind_each, bind}

-- The file is attached to the message, and it is the caller's own in the conversation.
pub record IsBound (c : Context) (conversation message : ℕ) (files : List FileRow) (id : String)
    : Type 0 where
  pub row : FileRow
  pub found : select_one (is_file id) files ≡ some row
  pub state : row.state ≡ attached
  pub on : row.message_id ≡ some message
  pub own :
      (row.server_id ≡ c.server_id)
      × (row.owner_user_id ≡ c.user_id)
      × (row.conversation_id ≡ conversation)

-- Attaching a file changes its row, and no row that is attached already.
attach_found :
    (message : ℕ) (id : String) (files : List FileRow) (r : FileRow)
    → select_one (is_file id) files ≡ some r
    → r.state ≡ ready
    → select_one (is_file id) (attach message id files)
      ≡ some (record r { state = attached; message_id = some message })
attach_found message id [] r e h = cc
attach_found message id (q ∷ files) r e h = ground (arith, attach_found message id files r)

attach_keeps :
    (message : ℕ) (id other : String) (files : List FileRow) (r : FileRow)
    → select_one (is_file id) files ≡ some r
    → r.state ≡ attached
    → select_one (is_file id) (attach message other files) ≡ some r
attach_keeps message id other [] r e h = cc
attach_keeps message id other (q ∷ files) r e h =
    ground (arith, attach_keeps message id other files r)

module _ (c : Context) (conversation message : ℕ) where
  -- A file that is bound stays bound while others are.
  IsBound-bind_each :
      (ids : List String) (s t : Store) (id : String)
      → bind_each c conversation message ids s ≡ ok t
      → IsBound c conversation message s.files id
      → IsBound c conversation message t.files id
  unfolding bind_each
  IsBound-bind_each [] s t id e b =
      let same_files : s.files ≡ t.files = ground arith in
      subst (λ files. IsBound c conversation message files id) same_files b
  IsBound-bind_each (f ∷ ids) s t id e b =
      IsBound-bind_each ids (record s { files = attach message f s.files }) t id (ground arith)
        (record {
          row = b.row;
          found = attach_keeps message id f s.files b.row b.found b.state;
          state = b.state;
          on = b.on;
          own = b.own;
        })

  bind_each-IsBound :
      (ids : List String) (s t : Store)
      → bind_each c conversation message ids s ≡ ok t
      → All (IsBound c conversation message t.files) ids
  unfolding bind_each lookup
  bind_each-IsBound [] s t e = tt
  bind_each-IsBound (f ∷ ids) s t e =
      let s' = record s { files = attach message f s.files } in
      elim (Option-cases (select_one (is_file f) s.files)) [
        | inl missing ↦ absurd (ground arith)
        | inr (r, found) ↦
            let rest : bind_each c conversation message ids s' ≡ ok t = ground arith in
            let is_mine : can_bind c conversation r ≡ true = ground arith in
            (
              IsBound-bind_each ids s' t f rest (record {
                row = record r { state = attached; message_id = some message };
                found = attach_found message f s.files r found (ground arith);
                state = refl;
                on = refl;
                own = ground arith;
              }),
              bind_each-IsBound ids s' t rest,
            )
      ]

  -- A call of `bind` that succeeds has attached every file it was given to the message, and each is
  -- the caller's own file of that conversation.
  pub bind-IsBound :
      (ids : List String) (now : ℕ) (s t : Store)
      → bind c conversation message ids now s ≡ ok t
      → All (IsBound c conversation message t.files) ids
  unfolding bind
  bind-IsBound ids now s t e = bind_each-IsBound ids s t (ground arith)
