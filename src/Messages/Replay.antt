-- ===== src/Messages/Replay.antt =====
-- What a key that has been used answers, case by case.
use j_messenger.Common.{
  ℕ, ◌≡◌, Bool, false, none, some, inl, inr, suc, arith, select_one, Option-cases,
}
use j_messenger.Common.Results.{ok}
use j_messenger.Common.Sorting.{sort_idem}
use j_messenger.Names.{sort_names, distinct_names, name_le, name_le_total}
use j_messenger.Store.{Store, Context, DedupRow}
use j_messenger.Conversations.{recheck_member}
use j_messenger.Files.{attached_live_ids}
use j_messenger.Messages.{
  MessageOutput, CreateInput, CreateRequest, output, is_dedup, replay, store_message, create_in,
  check_create, new_dedup,
}
use j_messenger.Messages.Retry.{IdsUsed, store_message-IsStored, dedup_read, replay_stored}

-- The checks hand the transaction its file ids in their order.
pub check_create-sorted :
    (c : Context) (conversation : ℕ) (q : CreateRequest) (now : ℕ) (s : Store) (i : CreateInput)
    → check_create c conversation q now s ≡ ok i
    → sort_names i.file_ids ≡ i.file_ids
unfolding check_create
check_create-sorted c conversation q now s i e =
    ground (arith, sort_idem name_le name_le_total (distinct_names q.file_ids))

-- The same message to a reader of the tables `t` at `later`: of its files, those that still live.
abbrev pub as_read : Context → ℕ → Store → MessageOutput → MessageOutput
as_read c later t m = record m { file_ids = attached_live_ids c.server_id m.id later t }

module _ (c : Context) (conversation : ℕ) (i : CreateInput) (now later : ℕ) (s : Store) where
  -- A replay changes nothing, and depends on the clock only in the files that still live.
  replay-later :
      (prior : DedupRow) (m : MessageOutput) (b : Bool) (t : Store)
      → replay c conversation i prior now s ≡ ok ((m, b), t)
      → (t ≡ s) × (replay c conversation i prior later s ≡ ok ((as_read c later s m, false), s))
  unfolding replay output
  replay-later prior m b t e = ground arith

  again_stored :
      (m : MessageOutput) (b : Bool) (t : Store)
      → IdsUsed s
      → sort_names i.file_ids ≡ i.file_ids
      → select_one (is_dedup c.server_id c.user_id i.client_message_id) s.dedup ≡ none
      → store_message c conversation i now s ≡ ok ((m, b), t)
      → (select_one (is_dedup c.server_id c.user_id i.client_message_id) t.dedup
          ≡ some (new_dedup c conversation i (suc s.message_seq) now))
        × (replay c conversation i (new_dedup c conversation i (suc s.message_seq) now) later t
            ≡ ok ((as_read c later t m, false), t))
  unfolding output
  again_stored m b t used in_order missing e =
      let (stored, shown) = store_message-IsStored c conversation i now s m b t used e in
      (
        dedup_read c conversation i now s t stored missing,
        rw shown (replay_stored c conversation i now s t later used stored in_order),
      )

  -- A request that has succeeded, sent again: it returns the message of the first, reported as not
  -- new, and changes nothing, as long as its sender still passes the access check.
  pub create_in_again :
      (m : MessageOutput) (b : Bool) (t : Store)
      → IdsUsed s
      → sort_names i.file_ids ≡ i.file_ids
      → create_in c conversation i now s ≡ ok ((m, b), t)
      → recheck_member c conversation later t ≡ ok tt
      → create_in c conversation i later t ≡ ok ((as_read c later t m, false), t)
  unfolding create_in
  create_in_again m b t used in_order done passes =
      elim (Option-cases
        (select_one (is_dedup c.server_id c.user_id i.client_message_id) s.dedup)) [
          | inl missing ↦ ground (arith, again_stored m b t used in_order missing)
          | inr (r, found) ↦ ground (arith, replay-later r m b t)
        ]

-- A key that has been used never stores again: where such a request succeeds, it is the one that
-- the key was used for, its message has not expired, and no table changes.
pub create_in_used :
    (c : Context) (conversation : ℕ) (i : CreateInput) (now : ℕ) (s : Store) (prior : DedupRow)
    (m : MessageOutput) (b : Bool) (t : Store)
    → select_one (is_dedup c.server_id c.user_id i.client_message_id) s.dedup ≡ some prior
    → create_in c conversation i now s ≡ ok ((m, b), t)
    → (t ≡ s)
      × (b ≡ false)
      × (m.text ≡ some i.text)
      × (prior.conversation_id ≡ conversation)
      × (prior.expired_at ≡ none)
unfolding create_in replay output
create_in_used c conversation i now s prior m b t found e = ground arith
