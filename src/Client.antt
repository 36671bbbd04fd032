-- ===== src/Client.antt =====
-- packages/client-core/src/index.ts: the state of `createMessengerClient` and what the handlers do
-- to it between two awaits. An id or a position is the number of its decimal text, whose schema
-- leaves one text for a number; a timer is there or not, whatever its delay.
pub mod Cache
pub mod Catchup
pub mod Send
pub mod Session
pub mod Collision
pub mod Deletion
pub mod Stale
pub mod Steps
pub mod Entering
pub mod Follow
pub mod Lists
pub mod Place
pub mod Runs
pub mod Wire
use j_messenger.Common.{
  ℕ, suc, ◌+◌, Bool, true, false, not, ◌&&◌, ◌||◌, List, [], ◌∷◌, ◌++◌, map, Option, none, some,
  String, ltb, leb, ◌==◌, same, if◌then◌else◌, is_some, or_else, update, delete, exists,
}
use j_messenger.Common.Sorting.{sort}
use j_messenger.Decimal.{Text}
use j_messenger.Messages.{MessageOutput}
use j_messenger.Conversations.{ConversationDto}

-- `CurrentUserDto`
pub record CurrentUser : Type 0 where
  pub id : ℕ
  pub server_id : String
  pub display_name : String
  pub enabled_features : List (String × Bool)

pub record User : Type 0 where
  pub id : ℕ
  pub display_name : String

pub data SendState : Type 0 where
  pending failed : SendState

-- A message of the reader that the server has not acknowledged.
pub record Pending : Type 0 where
  pub conversation_id : ℕ
  pub client_message_id : String
  pub text : Text
  pub file_ids : List String
  pub created_at : ℕ
  pub state : SendState

pub record Snapshot : Type 0 where
  pub generation : ℕ
  pub user : Option CurrentUser
  pub users : List User
  pub conversations : List ConversationDto
  pub messages : List MessageOutput
  pub pending : List Pending
  pub sync_cursor : Option String
  pub snapshot_position : ℕ
  pub position_by_conversation : List (ℕ × ℕ)

-- `emptySnapshot`
unfoldable pub empty_snapshot : ℕ → Snapshot
empty_snapshot g = record {
  generation = g;
  user = none;
  users = [];
  conversations = [];
  messages = [];
  pending = [];
  sync_cursor = none;
  snapshot_position = 0;
  position_by_conversation = [];
}

-- What an event tells, where its data has the form that the handler asks for.
pub data EventData : Type 0 where
  message_created : MessageOutput → EventData
  conversation_created : ConversationDto → EventData
  message_deleted : ℕ → Option (List String) → EventData
  file_deleted : String → EventData
  other : EventData

pub record Event : Type 0 where
  pub event_id : ℕ
  pub conversation_id : Option ℕ
  pub payload : EventData

-- The variables of `createMessengerClient`: a socket is there until it is closed.
pub record Client : Type 0 where
  pub snapshot : Snapshot
  pub generation : ℕ
  pub socket : Bool
  pub retry_timer : Bool
  pub message_retry_timers : List String
  pub message_retry_attempts : List (String × ℕ)
  pub sync_timer : Bool
  pub last_event_id : ℕ
  pub buffered : List Event
  pub bootstrapping : Bool
  pub message_tombstones : List ℕ
  pub file_tombstones : List String
  pub disposed : Bool

-- The client as `createMessengerClient` makes it.
unfoldable pub new_client : Client
unfolding empty_snapshot
new_client = record {
  snapshot = empty_snapshot 0;
  generation = 0;
  socket = false;
  retry_timer = false;
  message_retry_timers = [];
  message_retry_attempts = [];
  sync_timer = false;
  last_event_id = 0;
  buffered = [];
  bootstrapping = false;
  message_tombstones = [];
  file_tombstones = [];
  disposed = false;
}

-- `publish`, but for the listeners
abbrev pub publish : Snapshot → Client → Client
publish s c = record c { snapshot = s }

-- `current`
abbrev pub current : ℕ → Client → Bool
current g c = not c.disposed && c.generation == g

abbrev pub remove_text : String → List String → List String
remove_text k ks = delete (same k) ks

abbrev pub remove_attempts : String → List (String × ℕ) → List (String × ℕ)
remove_attempts k [] = []
remove_attempts k ((j, n) ∷ ps) =
    if same k j then remove_attempts k ps else (j, n) ∷ remove_attempts k ps

-- `isValidMessageOutput` on a message of the right form
abbrev pub is_valid_message_output : MessageOutput → Bool
is_valid_message_output m = if m.content_expired then not (is_some m.text) else is_some m.text

-- The files that are not known to be gone.
abbrev pub live_files : List String → List String → List String
live_files gone [] = []
live_files gone (f ∷ fs) =
    if exists (same f) gone then live_files gone fs else f ∷ live_files gone fs

abbrev pub is_deleted : ℕ → List ℕ → Bool
is_deleted id ids = exists (λ t. t == id) ids

-- The same id, or the same key.
abbrev pub replaces : MessageOutput → MessageOutput → Bool
replaces m x = x.id == m.id || same x.client_message_id m.client_message_id

-- The first message that it replaces gives way to it; without one it comes last.
unfoldable pub put_message : MessageOutput → List MessageOutput → List MessageOutput
put_message m [] = m ∷ []
put_message m (x ∷ xs) = if replaces m x then m ∷ xs else x ∷ put_message m xs

abbrev pub id_le : MessageOutput → MessageOutput → Bool
id_le a b = leb a.id b.id

abbrev pub of_key : String → Pending → Bool
of_key k p = same p.client_message_id k

-- `mergeMessage`, past its early returns
unfoldable pub merge_valid : MessageOutput → Client → Client
merge_valid m c =
    let merged = record m { file_ids = live_files c.file_tombstones m.file_ids } in
    let k = m.client_message_id in
    record c {
      snapshot = record c.snapshot {
        messages = sort id_le (put_message merged c.snapshot.messages);
        pending = delete (of_key k) c.snapshot.pending;
      };
      message_retry_timers = remove_text k c.message_retry_timers;
      message_retry_attempts = remove_attempts k c.message_retry_attempts;
    }

-- `mergeMessage`
unfoldable pub merge_message : MessageOutput → ℕ → Client → Client
merge_message m g c =
    if not (current g c) || not (is_valid_message_output m) || is_deleted m.id c.message_tombstones
    then c
    else merge_valid m c

-- `byId.set`: a conversation keeps its place.
unfoldable pub put_conversation : ConversationDto → List ConversationDto → List ConversationDto
put_conversation v [] = v ∷ []
put_conversation v (x ∷ xs) = if x.id == v.id then v ∷ xs else x ∷ put_conversation v xs

-- `[...new Map(…).values()]`, once the entries of `ys` have been set as well
unfoldable pub put_conversations :
    List ConversationDto → List ConversationDto → List ConversationDto
put_conversations xs [] = xs
put_conversations xs (y ∷ ys) = put_conversations (put_conversation y xs) ys

-- What a deleted message looks like.
abbrev pub hide_message : Option (List String) → MessageOutput → MessageOutput
hide_message files m = record m {
  text = none;
  content_expired = true;
  file_ids = or_else files m.file_ids;
}

abbrev pub has_id : ℕ → MessageOutput → Bool
has_id id m = m.id == id

abbrev pub without_file : String → MessageOutput → MessageOutput
without_file f m = record m { file_ids = remove_text f m.file_ids }

-- What `applyEvent` does with the data of an event.
unfoldable pub apply_payload : EventData → ℕ → Client → Client
apply_payload (message_created m) g c = merge_message m g c
apply_payload (conversation_created v) g c = record c {
  snapshot = record c.snapshot {
    conversations = put_conversation v (put_conversations [] c.snapshot.conversations);
  };
}
apply_payload (message_deleted id files) g c = record c {
  message_tombstones = id ∷ c.message_tombstones;
  snapshot = record c.snapshot {
    messages = update (has_id id) (hide_message files) c.snapshot.messages;
  };
}
apply_payload (file_deleted f) g c = record c {
  file_tombstones = f ∷ c.file_tombstones;
  snapshot = record c.snapshot { messages = map (without_file f) c.snapshot.messages };
}
apply_payload other g c = c

abbrev pub see_event : ℕ → Client → Client
see_event id c = if ltb c.last_event_id id then record c { last_event_id = id } else c

-- `applyEvent`
unfoldable pub apply_event : ℕ → Event → Client → Client
apply_event g e c = if current g c then see_event e.event_id (apply_payload e.payload g c) else c

unfoldable pub apply_events : ℕ → List Event → Client → Client
apply_events g [] c = c
apply_events g (e ∷ es) c = apply_events g es (apply_event g e c)
