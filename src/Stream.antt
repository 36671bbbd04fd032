-- ===== src/Stream.antt =====
-- The event outbox of apps/server/src/platform/database/index.ts: the tables event_outbox,
-- sqlite_sequence, platform_metadata and consumer_positions, and the methods of `Database` on them.
-- A table with an INTEGER PRIMARY KEY is the list of its rows in the order of the key.
pub mod Invariant
pub mod Scan
use j_messenger.Common.{
  ℕ, suc, ◌+◌, ◌≤◌, Bool, true, false, ◌&&◌, ◌||◌, not, List, [], ◌∷◌, ◌++◌, map, Option, none,
  some, String, ltb, leb, ◌==◌, same, if◌then◌else◌, length, take, last_or, select, delete, exists,
}
use j_messenger.Common.Results.{Result, ok, err, ErrorCode, internal, throw_if, ◌>>=◌, ◌>>◌}

-- The types of the events that the services append; the code has them as texts.
pub data EventType : Type 0 where
  conversation_created message_created message_deleted receipt_updated file_deleted : EventType

pub data EntityType : Type 0 where
  message conversation receipt file retention device job : EntityType

-- A decimal id, or a UUID.
pub data EntityReference : Type 0 where
  id : ℕ → EntityReference
  uuid : String → EntityReference

pub record PayloadRef : Type 0 where
  pub entity_type : EntityType
  pub entity_id : EntityReference

-- What a writer hands to `append`.
pub record EventAppend : Type 0 where
  pub type : EventType
  pub occurred_at : ℕ
  pub server_id : String
  pub conversation_id : Option ℕ
  pub entity_id : EntityReference
  pub payload_ref : PayloadRef
  pub recipient_user_ids : List ℕ

pub record EventRow : Type 0 where
  pub id : ℕ
  pub event : EventAppend

pub record Stream : Type 0 where
  pub rows : List EventRow
  pub seq : ℕ
  pub epoch : String
  pub min_valid_position : ℕ
  pub consumers : List (String × ℕ)

-- `append`: AUTOINCREMENT gives one more than the largest id ever used.
unfoldable pub append : EventAppend → Stream → Stream
append e s = record s {
  rows = s.rows ++ record { id = suc s.seq; event = e } ∷ [];
  seq = suc s.seq;
}

-- `snapshotPosition` and `highWatermark`
unfoldable pub high_watermark : Stream → ℕ
high_watermark s = s.seq

-- WHERE id>after AND id<=through
abbrev pub in_range : ℕ → ℕ → EventRow → Bool
in_range after through r = ltb after r.id && leb r.id through

-- WHERE server_id=? AND id>after AND id<=through
abbrev pub in_window : String → ℕ → ℕ → EventRow → Bool
in_window server after through r = same r.event.server_id server && in_range after through r

abbrev pub window : String → ℕ → ℕ → List EventRow → List EventRow
window server after through rows = select (in_window server after through) rows

abbrev pub row_ids : List EventRow → List ℕ
row_ids [] = []
row_ids (r ∷ rs) = r.id ∷ row_ids rs

pub record ScanPage : Type 0 where
  pub rows : List EventRow
  pub scanned_through : ℕ
  pub has_more : Bool

-- The ids of `scannedIds`, and the last of them.
abbrev pub scanned_ids : ℕ → ℕ → ℕ → Stream → List ℕ
scanned_ids after through limit s = row_ids (take limit (select (in_range after through) s.rows))

abbrev is_empty : List ℕ → Bool
is_empty [] = true
is_empty (x ∷ xs) = false

-- What `scan` reads once it has the scanned ids.
abbrev pub read_page : String → ℕ → ℕ → List ℕ → Stream → ScanPage
read_page server after through ids s =
    let scanned = last_or after ids in
    record {
      rows = if is_empty ids then [] else window server after scanned s.rows;
      scanned_through = scanned;
      has_more = exists (in_range scanned through) s.rows;
    }

-- `scan`
unfoldable pub scan : String → ℕ → ℕ → ℕ → Stream → Result ScanPage
scan server after through limit s = do
  throw_if (ltb limit 1 || ltb 1000 limit) internal
  ok (read_page server after through (scanned_ids after through limit s) s)

-- `rotateStreamEpoch`; the new epoch is a random UUID.
unfoldable pub rotate_stream_epoch : String → Stream → Stream
rotate_stream_epoch next s = record s { epoch = next }

-- `pruneEvents`: the number of rows deleted, and what is left.
unfoldable pub prune_events : ℕ → Stream → Result (ℕ × Stream)
prune_events cut s = do
  throw_if (ltb cut s.min_valid_position || ltb s.seq cut) internal
  let old = λ (r : EventRow). leb r.id cut
  ok (length (select old s.rows), record s { rows = delete old s.rows; min_valid_position = cut })

unfoldable pub consumer_position : String → List (String × ℕ) → Option ℕ
consumer_position c [] = none
consumer_position c ((k, v) ∷ ps) = if same k c then some v else consumer_position c ps

-- INSERT … ON CONFLICT DO UPDATE … WHERE the new position is larger
upsert_position : String → ℕ → List (String × ℕ) → List (String × ℕ)
upsert_position c p [] = (c, p) ∷ []
upsert_position c p ((k, v) ∷ ps) =
    if same k c then (k, if ltb v p then p else v) ∷ ps else (k, v) ∷ upsert_position c p ps

-- `advanceConsumerPosition`
unfoldable pub advance_consumer_position : String → ℕ → Stream → Stream
unfolding upsert_position
advance_consumer_position c p s = record s { consumers = upsert_position c p s.consumers }
