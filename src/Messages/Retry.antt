-- ===== src/Messages/Retry.antt =====
-- A message is stored once: the same request, sent again, finds what the first one stored.
use mathlib.Core.List.{append-nil}
use j_messenger.Common.{
  ℕ, suc, ◌≤◌, ◌≡◌, refl, ◌∙◌, Bool, false, List, [], ◌∷◌, ◌++◌, none, some, String, arith, select,
  select_one, select-append, All, select_one-append, select_one-none,
}
use j_messenger.Common.Results.{ok, >>=-eq-ok}
use j_messenger.Names.{sort_names, same_names_self}
use j_messenger.Store.{Store, Context, MessageRow, MessageFileRow}
use j_messenger.Conversations.{record_message}
use j_messenger.Files.{bind, bind_each, attach}
use j_messenger.Messages.{
  MessageOutput, CreateInput, output, is_message, is_dedup, of_message, bound_files, file_rows,
  replay, new_message, new_dedup, insert_message, attach_files, store_message, announce,
}

-- No message id beyond the sequence is in use, in a row or in an attachment.
pub record IdsUsed (s : Store) : Type 0 where
  pub in_rows : All (λ (r : MessageRow). r.id ≤ s.message_seq) s.messages
  pub in_files : All (λ (r : MessageFileRow). r.message_id ≤ s.message_seq) s.message_files

-- The tables of messages are left alone.
pub record Keeps (s t : Store) : Type 0 where
  pub messages : t.messages ≡ s.messages
  pub dedup : t.dedup ≡ s.dedup
  pub message_files : t.message_files ≡ s.message_files
  pub message_seq : t.message_seq ≡ s.message_seq
  pub members : t.members ≡ s.members
  pub stream : t.stream ≡ s.stream

bind_each-Keeps :
    (c : Context) (conversation message : ℕ) (ids : List String) (s t : Store)
    → bind_each c conversation message ids s ≡ ok t
    → Keeps s t
unfolding bind_each
bind_each-Keeps c conversation message [] s t e = ground arith
bind_each-Keeps c conversation message (id ∷ ids) s t e = ground (
  arith,
  bind_each-Keeps c conversation message ids (record s { files = attach message id s.files }) t,
)

pub bind-Keeps :
    (c : Context) (conversation message now : ℕ) (ids : List String) (s t : Store)
    → bind c conversation message ids now s ≡ ok t
    → Keeps s t
unfolding bind
bind-Keeps c conversation message now ids s t e =
    ground (arith, bind_each-Keeps c conversation message ids s t)

pub record_message-Keeps :
    (c : Context) (conversation at now : ℕ) (s t : Store)
    → record_message c conversation at now s ≡ ok t
    → Keeps s t
unfolding record_message
record_message-Keeps c conversation at now s t e = ground arith

module _ (c : Context) (conversation : ℕ) (i : CreateInput) (now : ℕ) (s : Store) where
  abbrev id : ℕ
  id = suc s.message_seq

  -- The tables after a message has been stored.
  pub record IsStored (t : Store) : Type 0 where
    pub messages : t.messages ≡ s.messages ++ new_message c conversation i id now ∷ []
    pub dedup : t.dedup ≡ s.dedup ++ new_dedup c conversation i id now ∷ []
    pub message_files : t.message_files ≡ s.message_files ++ file_rows c.server_id id i.file_ids
    pub message_seq : t.message_seq ≡ id

  row_read :
      (t : Store)
      → IdsUsed s
      → IsStored t
      → select_one (is_message c.server_id id) t.messages
        ≡ some (new_message c conversation i id now)
  row_read t used stored =
      let p = is_message c.server_id id in
      let fresh =
        select_one-none (λ (r : MessageRow). r.id ≤ s.message_seq) p s.messages used.in_rows
          (λ r le. ground arith) in
      rw stored.messages (
        select_one-append p s.messages (new_message c conversation i id now ∷ []) fresh
        ∙ ground arith)

  attach_files-IsStored :
      (ids : List String) (t : Store)
      → i.file_ids ≡ ids
      → attach_files c conversation id ids now (insert_message c conversation i now s) ≡ ok t
      → IsStored t
  unfolding attach_files insert_message
  attach_files-IsStored [] t same_ids e = ground (arith, append-nil s.message_files)
  attach_files-IsStored (f ∷ fs) t same_ids e =
      let (s', bound, rest) = >>=-eq-ok (bind c conversation id (f ∷ fs) now _) _ e in
      ground (arith, bind-Keeps c conversation id now (f ∷ fs) _ s' bound)

  announce-IsStored :
      (m : MessageOutput) (b : Bool) (s₃ t : Store)
      → IdsUsed s
      → IsStored s₃
      → announce c conversation id now s₃ ≡ ok ((m, b), t)
      → IsStored t × (m ≡ output c.server_id (new_message c conversation i id now) now t)
  unfolding announce
  announce-IsStored m b s₃ t used stored e = ground (arith, row_read s₃ used stored)

  IsStored-later : (s₂ s₃ : Store) → IsStored s₂ → Keeps s₂ s₃ → IsStored s₃
  IsStored-later s₂ s₃ stored kept = ground arith

  -- What a call that stored a message has done: the rows, and the message that it returned.
  pub store_message-IsStored :
      (m : MessageOutput) (b : Bool) (t : Store)
      → IdsUsed s
      → store_message c conversation i now s ≡ ok ((m, b), t)
      → IsStored t × (m ≡ output c.server_id (new_message c conversation i id now) now t)
  unfolding store_message
  store_message-IsStored m b t used e =
      let (s₂, attached, e₂) = >>=-eq-ok (attach_files c conversation id i.file_ids now _) _ e in
      let (s₃, recorded, e₃) = >>=-eq-ok (record_message c conversation now now s₂) _ e₂ in
      let stored = attach_files-IsStored i.file_ids s₂ refl attached in
      let kept = record_message-Keeps c conversation now now s₂ s₃ recorded in
      announce-IsStored m b s₃ t used (IsStored-later s₂ s₃ stored kept) e₃

  pub dedup_read :
      (t : Store)
      → IsStored t
      → select_one (is_dedup c.server_id c.user_id i.client_message_id) s.dedup ≡ none
      → select_one (is_dedup c.server_id c.user_id i.client_message_id) t.dedup
        ≡ some (new_dedup c conversation i id now)
  dedup_read t stored missing =
      let p = is_dedup c.server_id c.user_id i.client_message_id in
      rw stored.dedup (
        select_one-append p s.dedup (new_dedup c conversation i id now ∷ []) missing ∙ ground arith)

  files_read :
      (t : Store) → IdsUsed s → IsStored t → bound_files c.server_id id t.message_files ≡ i.file_ids
  files_read t used stored =
      rw
        (
          stored.message_files,
          select-append (of_message c.server_id id) s.message_files,
          no_others s.message_files used.in_files,
        )
        (own_files i.file_ids)
    where
      no_others :
          (fs : List MessageFileRow)
          → All (λ (r : MessageFileRow). r.message_id ≤ s.message_seq) fs
          → select (of_message c.server_id id) fs ≡ []
      no_others [] h = refl
      no_others (f ∷ fs) h = ground (arith, no_others fs h.1)

      own_files : (fs : List String) → bound_files c.server_id id (file_rows c.server_id id fs) ≡ fs
      own_files [] = refl
      own_files (f ∷ fs) = ground (arith, own_files fs)

  -- The answer to the same request, sent again at `later`.
  pub replay_stored :
      (t : Store) (later : ℕ)
      → IdsUsed s
      → IsStored t
      → sort_names i.file_ids ≡ i.file_ids
      → replay c conversation i (new_dedup c conversation i id now) later t
        ≡ ok ((output c.server_id (new_message c conversation i id now) later t, false), t)
  unfolding replay
  replay_stored t later used stored in_order =
      ground (arith, row_read t used stored, files_read t used stored, same_names_self i.file_ids)
