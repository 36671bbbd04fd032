-- ===== src/Client/Collision.antt =====
-- `mergeMessage` of packages/client-core/src/index.ts takes messages with the same key for the same
-- message; the server's keys are unique for a sender only.
use j_messenger.Common.{
  ℕ, ◌≡◌, refl, Bool, true, false, List, [], ◌∷◌, ◌++◌, ◌==◌, same, arith, exists,
}
use j_messenger.Common.Sorting.{sort, insert}
use j_messenger.Messages.{MessageOutput}
use j_messenger.Client.{
  Client, current, is_valid_message_output, is_deleted, replaces, put_message, merge_valid,
  merge_message, has_id, id_le, live_files,
}

module _ (p : MessageOutput → Bool) where
  exists-insert :
      (m : MessageOutput) (xs : List MessageOutput)
      → p m ≡ false
      → exists p xs ≡ false
      → exists p (insert id_le m xs) ≡ false
  unfolding insert
  exists-insert m [] misses clear = ground arith
  exists-insert m (x ∷ xs) misses clear = ground (arith, exists-insert m xs)

  exists-sort : (xs : List MessageOutput) → exists p xs ≡ false → exists p (sort id_le xs) ≡ false
  unfolding sort
  exists-sort [] clear = refl
  exists-sort (x ∷ xs) clear =
      exists-insert x (sort id_le xs) (ground arith) (exists-sort xs (ground arith))

  exists-put_message :
      (m x : MessageOutput) (before after : List MessageOutput)
      → exists (replaces m) before ≡ false
      → replaces m x ≡ true
      → p m ≡ false
      → exists p before ≡ false
      → exists p after ≡ false
      → exists p (put_message m (before ++ x ∷ after)) ≡ false
  unfolding put_message
  exists-put_message m x [] after kept gives misses b a = ground arith
  exists-put_message m x (y ∷ ys) after kept gives misses b a =
      ground (arith, exists-put_message m x ys after)

-- When a message comes in, valid and not known to be deleted, the first message of the cache that
-- has its key is gone from the cache, whoever sent the one and the other and though their ids differ.
pub merge_message-displaces :
    (before after : List MessageOutput) (x m : MessageOutput) (g : ℕ) (c : Client)
    → c.snapshot.messages ≡ before ++ x ∷ after
    → exists (has_id x.id) before ≡ false
    → exists (has_id x.id) after ≡ false
    → exists (replaces m) before ≡ false
    → same x.client_message_id m.client_message_id ≡ true
    → (m.id == x.id) ≡ false
    → current g c ≡ true
    → is_valid_message_output m ≡ true
    → is_deleted m.id c.message_tombstones ≡ false
    → exists (has_id x.id) (merge_message m g c).snapshot.messages ≡ false
unfolding merge_message merge_valid
merge_message-displaces before after x m g c cached b a kept key other now valid live =
    let merged = record m { file_ids = live_files c.file_tombstones m.file_ids } in
    let gone =
      exists-sort (has_id x.id) (put_message merged (before ++ x ∷ after))
        (exists-put_message (has_id x.id) merged x before after kept (ground arith) other b a) in
    ground (arith, gone, cached)
