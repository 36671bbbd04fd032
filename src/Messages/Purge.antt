-- ===== src/Messages/Purge.antt =====
-- `purgeBatch` and `expireFileReference` of apps/server/src/modules/messages/index.ts: what is left of
-- a message when its term, or that of its files, has run out.
use j_messenger.Common.{
  ℕ, suc, ◌+◌, ◌-◌, ◌*◌, Bool, true, false, not, ◌&&◌, ◌||◌, List, [], ◌∷◌, Option, none, some,
  String, ltb, leb, ◌==◌, same, if◌then◌else◌, is_some, length, take, last_or, select, select_one,
  update, delete, exists,
}
use j_messenger.Common.Results.{Result, ok, bad_request, throw_if, ◌>>=◌, ◌>>◌}
use j_messenger.Common.Sorting.{sort}
use j_messenger.Names.{valid_server_id}
use j_messenger.Store.{Store, MessageRow, DedupRow, MessageFileRow, day}
use j_messenger.Stream.{EventAppend, EventType, EntityType, EntityReference, append}
use j_messenger.Conversations.{member_ids}
use j_messenger.Files.{attached_live_ids}
use j_messenger.Messages.{is_message, is_dedup, of_message}

-- The loop that deletes the attachments of a message whose files are no longer live.
unfoldable pub drop_files : String → ℕ → ℕ → Store → Store
drop_files server message now s =
    let live = attached_live_ids server message now s in
    record s {
      message_files =
          delete (λ r. of_message server message r && not (exists (same r.file_id) live))
            s.message_files;
    }

abbrev points_at : String → ℕ → DedupRow → Bool
points_at server message r =
    same r.server_id server && (elim r.message_id [ none ↦ false | some id ↦ id == message ])

-- The row of an expired message goes, and its key forgets it.
unfoldable pub remove_tombstone : String → ℕ → Store → Store
remove_tombstone server message s = record s {
  dedup = update (points_at server message) (λ r. record r { message_id = none }) s.dedup;
  messages = delete (λ r. is_message server message r && r.content_expired) s.messages;
}

-- The loop over the old expired messages: those without attachments are removed and counted.
unfoldable pub clear_tombstones : String → List MessageRow → ℕ → Store → ℕ × Store
clear_tombstones server [] now s = (0, s)
clear_tombstones server (r ∷ rs) now s =
    let s' = drop_files server r.id now s in
    let kept = exists (of_message server r.id) s'.message_files in
    let (n, t) =
      clear_tombstones server rs now (if kept then s' else remove_tombstone server r.id s') in
    (if kept then n else suc n, t)

-- 'message.deleted.v1'
abbrev pub deleted_event : String → ℕ → ℕ → ℕ → List ℕ → EventAppend
deleted_event server conversation id at recipients = record {
  type = EventType.message_deleted;
  occurred_at = at;
  server_id = server;
  conversation_id = some conversation;
  entity_id = EntityReference.id id;
  payload_ref = record { entity_type = EntityType.message; entity_id = EntityReference.id id };
  recipient_user_ids = recipients;
}

-- The UPDATE statements that expire one message and its key.
unfoldable pub expire_rows : String → MessageRow → ℕ → Store → Store
expire_rows server r now s = record s {
  messages =
      update (λ q. is_message server r.id q && not q.content_expired)
        (λ q. record q { text = none; content_expired = true }) s.messages;
  dedup =
      update (λ q. is_dedup server r.sender_id r.client_message_id q && not (is_some q.expired_at))
        (λ q. record q { expired_at = some now }) s.dedup;
}

-- One message expires: its text goes, its dead attachments go, and the members are told.
unfoldable pub expire_message : String → MessageRow → ℕ → Store → Store
expire_message server r now s =
    let s' = drop_files server r.id now (expire_rows server r now s) in
    record s' {
      stream =
          append
            (deleted_event server r.conversation_id r.id now
              (member_ids server r.conversation_id s'))
            s'.stream;
    }

unfoldable pub expire_messages : String → List MessageRow → ℕ → Store → Store
expire_messages server [] now s = s
expire_messages server (r ∷ rs) now s =
    expire_messages server rs now (expire_message server r now s)

-- WHERE server_id=? AND content_expired=0 AND created_at<=? AND id>?
abbrev pub expiring : String → ℕ → ℕ → MessageRow → Bool
expiring server cutoff after r =
    same r.server_id server && not r.content_expired && leb r.created_at cutoff && ltb after r.id

-- WHERE server_id=? AND content_expired=1 AND created_at<=?
abbrev pub old_tombstone : String → ℕ → MessageRow → Bool
old_tombstone server cutoff r =
    same r.server_id server && r.content_expired && leb r.created_at cutoff

abbrev expired_by : ℕ → Option ℕ → Bool
expired_by cutoff none = false
expired_by cutoff (some t) = leb t cutoff

-- WHERE server_id=? AND expired_at<=? AND message_id IS NULL
abbrev pub old_dedup : String → ℕ → DedupRow → Bool
old_dedup server cutoff r =
    same r.server_id server && expired_by cutoff r.expired_at && not (is_some r.message_id)

abbrev pub expired_first : DedupRow → DedupRow → Bool
expired_first r q = elim r.expired_at [
  | none ↦ true
  | some a ↦ elim q.expired_at [ none ↦ false | some b ↦ leb a b ]
]

-- DELETE FROM message_dedup, row by row
abbrev pub delete_keys : List DedupRow → List DedupRow → List DedupRow
delete_keys [] rows = rows
delete_keys (r ∷ rs) rows =
    delete_keys rs (delete (is_dedup r.server_id r.sender_id r.client_message_id) rows)

abbrev row_id : List MessageRow → List ℕ
row_id [] = []
row_id (r ∷ rs) = r.id ∷ row_id rs

pub record Purged : Type 0 where
  pub processed : ℕ
  pub last_id : ℕ
  pub has_more : Bool

-- `purgeBatch`
unfoldable pub purge_batch : String → ℕ → ℕ → ℕ → ℕ → Store → Result (Purged × Store)
purge_batch server cutoff after limit now s = do
  throw_if (not (valid_server_id server) || ltb limit 1 || ltb 5000 limit) bad_request
  let rows = take limit (select (expiring server cutoff after) s.messages)
  let file_cutoff = now - 14 * day
  let dedup_cutoff = now - 30 * day
  let tombstones = take limit (select (old_tombstone server file_cutoff) s.messages)
  let (removed, s₁) = clear_tombstones server tombstones now s
  let keys = take limit (sort expired_first (select (old_dedup server dedup_cutoff) s₁.dedup))
  let t = expire_messages server rows now (record s₁ { dedup = delete_keys keys s₁.dedup })
  let last_id = last_or after (row_id rows)
  ok (
    record {
      processed = length rows + removed + length keys;
      last_id = last_id;
      has_more =
          exists (expiring server cutoff last_id) t.messages
          || exists (old_tombstone server file_cutoff) t.messages
          || exists (old_dedup server dedup_cutoff) t.dedup;
    },
    t,
  )

-- `purgeExpiredForServer`
unfoldable pub purge_expired_for_server : String → ℕ → ℕ → ℕ → Store → Result (ℕ × Store)
purge_expired_for_server server cutoff limit now s = do
  (r, t) ← purge_batch server cutoff 0 limit now s
  ok (r.processed, t)

abbrev pub of_file : String → String → MessageFileRow → Bool
of_file server file r = same r.server_id server && same r.file_id file

-- `expireFileReference`: an expired message goes with its last file.
unfoldable pub expire_file_reference : String → String → Store → Store
expire_file_reference server file s = elim (select_one (of_file server file) s.message_files) [
  | none ↦ s
  | some r ↦
      let s' = record s {
        message_files =
            delete (λ q. of_message server r.message_id q && same q.file_id file) s.message_files;
      } in
      elim (select_one (is_message server r.message_id) s'.messages) [
        | none ↦ s'
        | some m ↦
            if not m.content_expired || exists (of_message server r.message_id) s'.message_files
            then s'
            else remove_tombstone server r.message_id s'
      ]
]
