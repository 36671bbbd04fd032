-- ===== src/Messages/Effect.antt =====
-- What a request that succeeds leaves behind.
use mathlib.Core.List.{append-nil}
use j_messenger.Common.{
  ℕ, suc, ◌≤◌, ◌≡◌, refl, Bool, true, false, List, [], ◌∷◌, ◌++◌, String, arith, if◌then◌else◌,
  select_one, All, All-append, Option-cases, inl, inr,
}
use j_messenger.Common.Results.{ok, >>=-eq-ok}
use j_messenger.Store.{Store, Context, MessageRow, MessageFileRow}
use j_messenger.Stream.{append}
use j_messenger.Conversations.{member_ids, members_of, record_message}
use j_messenger.Files.{bind}
use j_messenger.Messages.{
  MessageOutput, CreateInput, output, is_dedup, created_event, store_message, create_in, announce,
  attach_files, insert_message, file_rows, new_message,
}
use j_messenger.Messages.Replay.{create_in_used}
use j_messenger.Messages.Retry.{
  IdsUsed, IsStored, bind-Keeps, record_message-Keeps, store_message-IsStored,
}

module _ (c : Context) (conversation : ℕ) (i : CreateInput) (now : ℕ) (s : Store) where
  -- Members and the outbox are not touched before the event.
  abbrev Quiet : Store → Type 0
  Quiet t = (t.members ≡ s.members) × (t.stream ≡ s.stream)

  attach_files-Quiet :
      (ids : List String) (t : Store)
      → attach_files c conversation
          (suc s.message_seq)
          ids
          now
          (insert_message c conversation i now s)
        ≡ ok t
      → Quiet t
  unfolding attach_files insert_message
  attach_files-Quiet [] t e = ground arith
  attach_files-Quiet (f ∷ fs) t e =
      let (s', bound, rest) =
        >>=-eq-ok (bind c conversation (suc s.message_seq) (f ∷ fs) now _) _ e in
      ground (arith, bind-Keeps c conversation (suc s.message_seq) now (f ∷ fs) _ s' bound)

  announce-stream :
      (id : ℕ) (m : MessageOutput) (b : Bool) (s₃ t : Store)
      → Quiet s₃
      → announce c conversation id now s₃ ≡ ok ((m, b), t)
      → (b ≡ true)
        × (t.stream
            ≡ append
                (created_event c.server_id conversation id now
                  (member_ids c.server_id conversation s))
                s.stream)
  unfolding announce member_ids members_of
  announce-stream id m b s₃ t quiet e = ground arith

  store_message-stream :
      (m : MessageOutput) (b : Bool) (t : Store)
      → store_message c conversation i now s ≡ ok ((m, b), t)
      → (b ≡ true)
        × (t.stream
            ≡ append
                (created_event c.server_id conversation
                  (suc s.message_seq)
                  now
                  (member_ids c.server_id conversation s))
                s.stream)
  unfolding store_message
  store_message-stream m b t e =
      let (s₂, attached, e₂) =
        >>=-eq-ok (attach_files c conversation (suc s.message_seq) i.file_ids now _) _ e in
      let (s₃, recorded, e₃) = >>=-eq-ok (record_message c conversation now now s₂) _ e₂ in
      let quiet = attach_files-Quiet i.file_ids s₂ attached in
      let kept = record_message-Keeps c conversation now now s₂ s₃ recorded in
      announce-stream (suc s.message_seq) m b s₃ t (ground arith) e₃

  file_rows-id :
      (ids : List String)
      → All
          (λ (r : MessageFileRow). r.message_id ≤ suc s.message_seq)
          (file_rows c.server_id (suc s.message_seq) ids)
  file_rows-id [] = tt
  file_rows-id (f ∷ fs) = (omega arith, file_rows-id fs)

  raise_rows :
      (rs : List MessageRow)
      → All (λ (r : MessageRow). r.id ≤ s.message_seq) rs
      → All (λ (r : MessageRow). r.id ≤ suc s.message_seq) rs
  raise_rows [] h = tt
  raise_rows (r ∷ rs) h = (omega (arith, h.0), raise_rows rs h.1)

  raise_files :
      (rs : List MessageFileRow)
      → All (λ (r : MessageFileRow). r.message_id ≤ s.message_seq) rs
      → All (λ (r : MessageFileRow). r.message_id ≤ suc s.message_seq) rs
  raise_files [] h = tt
  raise_files (r ∷ rs) h = (omega (arith, h.0), raise_files rs h.1)

  IsStored-IdsUsed : (t : Store) → IdsUsed s → IsStored c conversation i now s t → IdsUsed t
  IsStored-IdsUsed t used stored = record {
    in_rows =
        rw (stored.messages, stored.message_seq)
          (All-append (λ (r : MessageRow). r.id ≤ suc s.message_seq) s.messages _
            (raise_rows s.messages used.in_rows) (omega arith, tt));
    in_files =
        rw (stored.message_files, stored.message_seq)
          (All-append (λ (r : MessageFileRow). r.message_id ≤ suc s.message_seq) s.message_files _
            (raise_files s.message_files used.in_files) (file_rows-id i.file_ids));
  }

  -- What a request that succeeds has done to the tables: the rows of messages and of the outbox.
  pub record IsEffect (m : MessageOutput) (b : Bool) (t : Store) : Type 0 where
    pub ids : IdsUsed t
    pub rows :
        t.messages
        ≡ s.messages
          ++ (if b then new_message c conversation i (suc s.message_seq) now ∷ [] else [])
    pub event : t.stream ≡ (
        if b
        then append
            (created_event c.server_id conversation m.id now
              (member_ids c.server_id conversation s))
            s.stream
        else s.stream)
    pub fresh : b ≡ true → m.id ≡ suc s.message_seq

  store_message-IsEffect :
      (m : MessageOutput) (b : Bool) (t : Store)
      → IdsUsed s
      → store_message c conversation i now s ≡ ok ((m, b), t)
      → IsEffect m b t
  unfolding output
  store_message-IsEffect m b t used e =
      let (stored, shown) = store_message-IsStored c conversation i now s m b t used e in
      let (new, streamed) = store_message-stream m b t e in
      record {
        ids = IsStored-IdsUsed t used stored;
        rows = rw new stored.messages;
        event = ground arith;
        fresh = λ _. rw shown refl;
      }

  kept-IsEffect :
      (m : MessageOutput) (b : Bool) (t : Store) → IdsUsed s → t ≡ s → b ≡ false → IsEffect m b t
  kept-IsEffect m b t used kept old = record {
    ids = rw kept used;
    rows = rw (kept, old, append-nil s.messages) refl;
    event = rw (kept, old) refl;
    fresh = λ new. cc;
  }

  -- A request that succeeds as new adds one row, under the next id, and one event that goes to the
  -- members of the conversation; one that succeeds as a replay adds neither. Ids stay within the sequence.
  pub create_in-IsEffect :
      (m : MessageOutput) (b : Bool) (t : Store)
      → IdsUsed s
      → create_in c conversation i now s ≡ ok ((m, b), t)
      → IsEffect m b t
  unfolding create_in
  create_in-IsEffect m b t used e =
      elim (Option-cases
        (select_one (is_dedup c.server_id c.user_id i.client_message_id) s.dedup)) [
          | inl missing ↦ store_message-IsEffect m b t used (ground arith)
          | inr (r, found) ↦
              let (kept, old, _, _, _) = create_in_used c conversation i now s r m b t found e in
              kept-IsEffect m b t used kept old
        ]
