-- ===== src/Files.antt =====
-- apps/server/src/modules/files/index.ts: the files table behind messages. Object storage and streams
-- are not modelled.
pub mod Download
pub mod Binding
pub mod Deletion
pub mod Ending
pub mod Frugal
pub mod Orphans
pub mod Quota
pub mod Reservation
pub mod Sniff
pub mod Upload
use j_messenger.Common.{
  ℕ, Bool, true, false, not, ◌&&◌, List, [], ◌∷◌, map, Option, none, some, String, ltb, leb, ◌==◌,
  same, if◌then◌else◌, length, select, select_one, update,
}
use j_messenger.Common.Results.{Result, ok, err, bad_request, not_found, throw_if, ◌>>◌}
use j_messenger.Names.{sort_names, distinct_names}
use j_messenger.Store.{Store, Context, FileRow, FileState, ready, attached}
use j_messenger.Conversations.{recheck_member}

abbrev pub is_file : String → FileRow → Bool
is_file id r = same r.id id

-- `lookup`
unfoldable pub lookup : String → Store → Option FileRow
lookup id s = select_one (is_file id) s.files

abbrev pub is_ready : FileState → Bool
is_ready ready = true
is_ready _ = false

abbrev pub is_attached : FileState → Bool
is_attached attached = true
is_attached _ = false

abbrev pub on_message : ℕ → Option ℕ → Bool
on_message m none = false
on_message m (some k) = k == m

abbrev pub file_id : FileRow → String
file_id r = r.id

-- WHERE server_id=? AND message_id=? AND state='attached' AND expires_at>?
abbrev pub is_live : String → ℕ → ℕ → FileRow → Bool
is_live server message now r =
    same r.server_id server
    && on_message message r.message_id
    && is_attached r.state
    && ltb now r.expires_at

-- `attachedLiveIds`, ORDER BY id
unfoldable pub attached_live_ids : String → ℕ → ℕ → Store → List String
attached_live_ids server message now s =
    if leb 1 message
    then sort_names (map file_id (select (is_live server message now) s.files))
    else []

-- The caller's own file of the conversation, ready to be attached.
abbrev pub can_bind : Context → ℕ → FileRow → Bool
can_bind c conversation r =
    same r.server_id c.server_id
    && r.owner_user_id == c.user_id
    && r.conversation_id == conversation
    && is_ready r.state

-- UPDATE files SET state='attached',message_id=? WHERE id=? AND state='ready'
abbrev pub attach : ℕ → String → List FileRow → List FileRow
attach message id files =
    update (λ r. is_file id r && is_ready r.state)
      (λ r. record r { state = attached; message_id = some message }) files

-- The loop of `bind`. The row was found ready, so the update changes it.
unfoldable pub bind_each : Context → ℕ → ℕ → List String → Store → Result Store
bind_each c conversation message [] s = ok s
bind_each c conversation message (id ∷ ids) s = elim (lookup id s) [
  | none ↦ err not_found
  | some r ↦ elim (can_bind c conversation r) [
    | false ↦ err not_found
    | true ↦ bind_each c conversation message ids (record s { files = attach message id s.files })
  ]
]

-- `bind`
unfoldable pub bind : Context → ℕ → ℕ → List String → ℕ → Store → Result Store
bind c conversation message ids now s = do
  recheck_member c conversation now s
  throw_if (not (length (distinct_names ids) == length ids)) bad_request
  bind_each c conversation message ids s
