-- ===== src/Messages/Reads.antt =====
-- `list` and `hydrateEvent` of apps/server/src/modules/messages/index.ts.
use j_messenger.Common.{
  ℕ, suc, Bool, true, false, not, ◌&&◌, ◌||◌, List, [], map, reverse, Option, none, some, String,
  ltb, ◌==◌, same, if◌then◌else◌, is_some, or_else, length, take, get_last?, select, select_one,
}
use j_messenger.Common.Results.{Result, ok, bad_request, throw_if, ◌>>=◌, ◌>>◌}
use j_messenger.Decimal.{max_sqlite_id}
use j_messenger.Store.{Store, Context, MessageRow, positive_id}
use j_messenger.Stream.{
  EventRow, EventType, message_created, message_deleted, EntityReference, high_watermark,
}
use j_messenger.Conversations.{require_member, recheck_member, can_access}
use j_messenger.Files.{attached_live_ids}
use j_messenger.Messages.{MessageOutput, output, is_message}

pub record ListInput : Type 0 where
  pub before : Option ℕ
  pub after : Option ℕ
  pub limit : ℕ

pub record MessagePage : Type 0 where
  pub items : List MessageOutput
  pub next_cursor : Option ℕ
  pub snapshot_position : ℕ

abbrev opt_positive : Option ℕ → Bool
opt_positive none = true
opt_positive (some id) = positive_id id

abbrev pub in_list : String → ℕ → (ℕ → Bool) → MessageRow → Bool
in_list server conversation p r =
    same r.server_id server && r.conversation_id == conversation && p r.id

-- The rows of the query, at most one more than the limit: forward from `after`, else backward.
unfoldable pub list_rows : Context → ℕ → ListInput → Store → List MessageRow
list_rows c conversation i s = elim i.after [
  | some a ↦ take (suc i.limit) (select (in_list c.server_id conversation (ltb a)) s.messages)
  | none ↦ take (suc i.limit) (
      reverse (
        select (in_list c.server_id conversation (λ id. ltb id (or_else i.before max_sqlite_id)))
          s.messages))
]

abbrev pub last_id : List MessageRow → Option ℕ
last_id rs = elim (get_last? rs) [ none ↦ none | some r ↦ some r.id ]

-- The page that is made of the rows of the query.
unfoldable pub list_page : Context → ListInput → List MessageRow → ℕ → Store → MessagePage
list_page c i rows now s =
    let first = take i.limit rows in
    let page_rows = if is_some i.after then first else reverse first in
    record {
      items = map (λ r. output c.server_id r now s) page_rows;
      next_cursor = if ltb i.limit (length rows) then last_id page_rows else none;
      snapshot_position = high_watermark s.stream;
    }

-- `list`. Other requests may run between the check, on the tables `seen`, and the transaction.
unfoldable pub list : Context → ℕ → ListInput → ℕ → Store → Store → Result MessagePage
list c conversation i now seen s = do
  throw_if
      (not (positive_id conversation)
        || ltb i.limit 1
        || ltb 100 i.limit
        || (is_some i.before && is_some i.after)
        || not (opt_positive i.before)
        || not (opt_positive i.after))
      bad_request
  require_member c conversation now seen
  recheck_member c conversation now s
  ok (list_page c i (list_rows c conversation i s) now s)

-- The data of an event: what the message reads now, or that it is gone.
pub data EventData : Type 0 where
  created : MessageOutput → EventData
  deleted : ℕ → List String → EventData

abbrev is_message_event : EventType → Bool
is_message_event message_created = true
is_message_event message_deleted = true
is_message_event _ = false

abbrev is_deleted : EventType → Bool
is_deleted message_deleted = true
is_deleted _ = false

-- The transaction of `hydrateEvent`.
unfoldable pub hydrate_in : Context → ℕ → ℕ → Bool → ℕ → Store → Result (Option EventData)
hydrate_in c conversation id gone now s = do
  recheck_member c conversation now s
  let row =
      select_one (λ r. is_message c.server_id id r && r.conversation_id == conversation) s.messages
  ok (elim row [
    | none ↦ if gone then some (deleted id []) else none
    | some r ↦
        if gone
        then some (deleted id (attached_live_ids c.server_id id now s))
        else some (created (output c.server_id r now s))
  ])

-- `hydrateEvent`; `seen` has the tables at the access check.
unfoldable pub hydrate_event : Context → EventRow → ℕ → Store → Store → Result (Option EventData)
hydrate_event c r now seen s =
    if not (is_message_event r.event.type) then ok none else elim r.event.conversation_id [
      | none ↦ ok none
      | some conversation ↦ elim r.event.entity_id [
        | EntityReference.uuid _ ↦ ok none
        | EntityReference.id id ↦ if not (positive_id id) then ok none else do
          allowed ← can_access c conversation now seen
          elim allowed [
            | false ↦ ok none
            | true ↦ hydrate_in c conversation id (is_deleted r.event.type) now s
          ]
      ]
    ]
