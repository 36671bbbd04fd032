-- ===== src/Retention/Spared.antt =====
-- What the parts of a batch of apps/server/src/modules/retention/index.ts keep of a message.
use j_messenger.Common.{
  ℕ, suc, ◌-◌, ◌*◌, ◌<◌, ◌≡◌, refl, Bool, true, false, not, ◌&&◌, List, [], ◌∷◌, none, some, String,
  arith, ◌==◌, same, take, length, select, select_one, update, delete, All, All-take, Bool-cases,
  Option-cases, inl, inr, ◌∙◌, map,
}
use j_messenger.Common.Results.{ok, >>=-eq-ok}
use j_messenger.Common.Sorting.{sort}
use j_messenger.Store.{Store, MessageRow, day}
use j_messenger.Names.{name_le}
use j_messenger.Files.{file_id}
use j_messenger.Jobs.{JobRow}
use j_messenger.Files.Deletion.{
  Queue, ExpiredFiles, expiring_file, schedule_delete, schedule_each, expire_batch,
}
use j_messenger.Messages.{is_message, of_message}
use j_messenger.Messages.Purge.{
  Purged, purge_batch, drop_files, remove_tombstone, clear_tombstones, expire_rows, expire_message,
  expire_messages, expiring, old_tombstone, old_dedup, expired_first, delete_keys, of_file,
  expire_file_reference,
}
use j_messenger.Retention.{event_each}

module _ {A : Type 0} (p q : A → Bool) where
  select_one-update_other :
      (f : A → A) (xs : List A)
      → ((x : A) → q x ≡ true → (p x ≡ false) × (p (f x) ≡ false))
      → select_one p (update q f xs) ≡ select_one p xs
  select_one-update_other f [] h = refl
  select_one-update_other f (x ∷ xs) h = elim (Bool-cases (q x)) [
    | inl hit ↦ ground (arith, (h x hit).0, (h x hit).1, select_one-update_other f xs h)
    | inr miss ↦ ground (arith, select_one-update_other f xs h)
  ]

  -- A row that a delete does not take is still the first of its kind.
  select_one-delete_found :
      (xs : List A) {r : A}
      → select_one p xs ≡ some r
      → q r ≡ false
      → select_one p (delete q xs) ≡ some r
  select_one-delete_found [] e k = cc
  select_one-delete_found (x ∷ xs) {r} e k = ground (arith, select_one-delete_found xs {r = r})

module _ (server : String) (r : MessageRow) (fresh : r.content_expired ≡ false) where
  -- The message is there as it was.
  abbrev pub IsThere : Store → Type 0
  IsThere s = select_one (is_message server r.id) s.messages ≡ some r

  remove_tombstone-IsThere :
      (id : ℕ) (s : Store) → IsThere s → IsThere (remove_tombstone server id s)
  unfolding remove_tombstone
  remove_tombstone-IsThere id s e =
      select_one-delete_found (is_message server r.id)
        (λ (q : MessageRow). is_message server id q && q.content_expired) s.messages e
        (ground arith)

  drop_files-IsThere : (id now : ℕ) (s : Store) → IsThere s → IsThere (drop_files server id now s)
  unfolding drop_files
  drop_files-IsThere id now s e = e

  clear_tombstones-IsThere :
      (rs : List MessageRow) (now : ℕ) (s : Store)
      → IsThere s
      → IsThere (clear_tombstones server rs now s).1
  unfolding clear_tombstones
  clear_tombstones-IsThere [] now s e = e
  clear_tombstones-IsThere (q ∷ rs) now s e =
      let s' = drop_files server q.id now s in
      let e' = drop_files-IsThere q.id now s e in
      ground (
        arith,
        clear_tombstones-IsThere rs now s' e',
        clear_tombstones-IsThere rs now (remove_tombstone server q.id s')
            (remove_tombstone-IsThere q.id s' e'),
      )

  expire_message-IsThere :
      (q : MessageRow) (now : ℕ) (s : Store)
      → (q.id == r.id) ≡ false
      → IsThere s
      → IsThere (expire_message server q now s)
  unfolding expire_message expire_rows drop_files
  expire_message-IsThere q now s other e = ground (
    arith,
    select_one-update_other (is_message server r.id)
        (λ (x : MessageRow). is_message server q.id x && not x.content_expired)
        (λ (x : MessageRow). record x { text = none; content_expired = true }) s.messages
        (λ x h. (ground arith, ground arith)),
  )

  -- None of the rows has the message's id.
  abbrev IsOther : MessageRow → Type 0
  IsOther q = (q.id == r.id) ≡ false

  expire_messages-IsThere :
      (rs : List MessageRow) (now : ℕ) (s : Store)
      → All IsOther rs
      → IsThere s
      → IsThere (expire_messages server rs now s)
  unfolding expire_messages
  expire_messages-IsThere [] now s others e = e
  expire_messages-IsThere (q ∷ rs) now s others e =
      expire_messages-IsThere rs now (expire_message server q now s) others.1
        (expire_message-IsThere q now s others.0 e)

  -- The id is a key of the table.
  abbrev pub IsKey : Store → Type 0
  IsKey s = All (λ (q : MessageRow). is_message server r.id q ≡ true → q ≡ r) s.messages

  expiring-IsOther :
      (cutoff after : ℕ) (rs : List MessageRow)
      → cutoff < r.created_at
      → All (λ (q : MessageRow). is_message server r.id q ≡ true → q ≡ r) rs
      → All IsOther (select (expiring server cutoff after) rs)
  expiring-IsOther cutoff after [] young key = tt
  expiring-IsOther cutoff after (q ∷ rs) young key = elim (Bool-cases (q.id == r.id)) [
    | inr other ↦ ground (arith, expiring-IsOther cutoff after rs young key.1)
    | inl hit ↦ elim (Bool-cases (same q.server_id server)) [
      | inr apart ↦ ground (arith, expiring-IsOther cutoff after rs young key.1)
      | inl here ↦
          ground (arith, key.0 (ground arith), expiring-IsOther cutoff after rs young key.1)
    ]
  ]

  pub purge_batch-IsThere :
      (cutoff after limit now : ℕ) (s s' : Store) (x : Purged)
      → cutoff < r.created_at
      → IsKey s
      → IsThere s
      → purge_batch server cutoff after limit now s ≡ ok (x, s')
      → IsThere s'
  unfolding purge_batch
  purge_batch-IsThere cutoff after limit now s s' x young key e purged =
      let rows = take limit (select (expiring server cutoff after) s.messages) in
      let others =
        All-take IsOther limit (select (expiring server cutoff after) s.messages)
          (expiring-IsOther cutoff after s.messages young key) in
      let old = take limit (select (old_tombstone server (now - 14 * day)) s.messages) in
      let cleared = (clear_tombstones server old now s).1 in
      let keys =
        take limit
          (sort expired_first (select (old_dedup server (now - 30 * day)) cleared.dedup)) in
      let kept = record cleared { dedup = delete_keys keys cleared.dedup } in
      ground
        (arith, expire_messages-IsThere rows now kept others (clear_tombstones-IsThere old now s e))

  expire_file_reference-IsThere :
      (f : String) (s : Store) → IsThere s → IsThere (expire_file_reference server f s)
  unfolding expire_file_reference
  expire_file_reference-IsThere f s e =
      elim (Option-cases (select_one (of_file server f) s.message_files)) [
        | inl none_left ↦ ground arith
        | inr (m, found) ↦
            let s' = record s {
              message_files =
                  delete (λ q. of_message server m.message_id q && same q.file_id f)
                    s.message_files;
            } in
            ground (arith, remove_tombstone-IsThere m.message_id s' e)
      ]

  pub event_each-IsThere :
      (fs : List String) (s : Store) → IsThere s → IsThere (event_each server fs s)
  unfolding event_each
  event_each-IsThere [] s e = e
  event_each-IsThere (f ∷ fs) s e =
      event_each-IsThere fs (expire_file_reference server f s) (expire_file_reference-IsThere f s e)

schedule_delete-messages :
    (q : Queue) (id reason : String) (now : ℕ) (s s' : Store) (jobs jobs' : List JobRow)
    → schedule_delete q id reason now (s, jobs) ≡ ok (s', jobs')
    → s'.messages ≡ s.messages
unfolding schedule_delete
schedule_delete-messages q id reason now s s' jobs jobs' e = ground arith

schedule_each-messages :
    (q : ℕ → Queue) (ids : List String) (now : ℕ) (s s' : Store) (jobs jobs' : List JobRow)
    → schedule_each q ids now (s, jobs) ≡ ok (s', jobs')
    → s'.messages ≡ s.messages
unfolding schedule_each
schedule_each-messages q [] now s s' jobs jobs' e = ground arith
schedule_each-messages q (id ∷ ids) now s s' jobs jobs' e =
    let ((s₁, jobs₁), scheduled, rest) =
      >>=-eq-ok (schedule_delete (q (length ids)) id "retention_expired" now (s, jobs))
        (λ t. schedule_each q ids now t) {end = (s', jobs')} e in
    schedule_each-messages q ids now s₁ s' jobs₁ jobs' rest
    ∙ schedule_delete-messages (q (length ids)) id "retention_expired" now s s₁ jobs jobs₁ scheduled

pub expire_batch-messages :
    (q : ℕ → Queue) (server after : String) (cutoff limit now : ℕ) (s s' : Store)
    (jobs jobs' : List JobRow) (x : ExpiredFiles)
    → expire_batch q server cutoff after limit now (s, jobs) ≡ ok (x, (s', jobs'))
    → s'.messages ≡ s.messages
unfolding expire_batch
expire_batch-messages q server after cutoff limit now s s' jobs jobs' x e =
    let rows =
      take (suc limit)
        (sort name_le (map file_id (select (expiring_file server cutoff after) s.files))) in
    ground (arith, schedule_each-messages q (take limit rows) now s s' jobs jobs')
