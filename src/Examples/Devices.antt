-- ===== src/Examples/Devices.antt =====
-- A client, its cache and its calls of `sync`.
use j_messenger.Common.{
  ℕ, suc, ◌+◌, ◌≡◌, refl, Bool, true, false, List, [], ◌∷◌, Option, none, some, String, arith, All,
  same, exists, ◌==◌, ◌≤◌, ◌<◌,
}
use j_messenger.Common.Results.{sync_reset_required}
use j_messenger.Messages.{MessageOutput}
use j_messenger.Client.{
  Client, CurrentUser, Event, EventData, new_client, merge_message, apply_event, apply_events,
  has_id,
}
use j_messenger.Client.Wire.{Network, lost, answered, refused, SyncPage, return}
use j_messenger.Client.Catchup.{sync, begin_generation, clear_session}
use j_messenger.Client.Session.{Connection}
use j_messenger.Client.Cache.{IsGood}
use j_messenger.Client.Steps.{Reach, stop, next, merged, framed, Reach-new_client-IsGood}
use j_messenger.Client.Deletion.{IsGone, apply_events-IsGone}
use j_messenger.Client.Stale.{IsBlank, frame, tick, react_all, sync-stale, sync-reset_lost}
use j_messenger.Client.Collision.{merge_message-displaces}

abbrev key : String
key = "3f2504e0-4f89-41d3-9a0c-0305e82c3301"

abbrev message : ℕ → ℕ → String → MessageOutput
message id sender k = record {
  id = id;
  conversation_id = 5;
  sender_id = sender;
  client_message_id = k;
  text = some (b'h' ∷ b'i' ∷ []);
  content_expired = false;
  file_ids = [];
  created_at = 10;
}

-- Its socket is ready, and no `sync` is under way.
abbrev connection : Connection
connection = record { generation = 0; ready = true; syncing = false }

abbrev deletion : ℕ → ℕ → Event
deletion id message = record {
  event_id = id;
  conversation_id = some 5;
  payload = EventData.message_deleted message none;
}

abbrev arrival : ℕ → MessageOutput → Event
arrival id m = record {
  event_id = id;
  conversation_id = some 5;
  payload = EventData.message_created m;
}

-- A message comes, and the news of its deletion.
abbrev before_deletion : Client
before_deletion = merge_message (message 8 1 key) 0 new_client

deletion_steps :
    Reach new_client (j_messenger.Client.Session.on_event connection (deletion 2 8) before_deletion)
deletion_steps =
    next (next (stop new_client) (merged (message 8 1 key) 0 new_client))
      (framed connection (deletion 2 8) before_deletion)

Reach-new_client-IsGood_example :
    IsGood (j_messenger.Client.Session.on_event connection (deletion 2 8) before_deletion)
Reach-new_client-IsGood_example = Reach-new_client-IsGood deletion_steps

before_deletion-IsGood : IsGood before_deletion
before_deletion-IsGood =
    Reach-new_client-IsGood (next (stop new_client) (merged (message 8 1 key) 0 new_client))

before_current : j_messenger.Client.current 0 before_deletion ≡ true
unfolding merge_message j_messenger.Client.merge_valid new_client
before_current = refl

apply_events-IsGone_example :
    All
      (IsGone 8)
      (apply_events 0
        (deletion 2 8 ∷ arrival 3 (message 8 1 key) ∷ [])
        before_deletion).snapshot.messages
apply_events-IsGone_example =
    apply_events-IsGone 8 0 none (deletion 2 8) (arrival 3 (message 8 1 key) ∷ []) before_deletion
      before_deletion-IsGood before_current refl

-- Another sender uses the key of ann's message.
abbrev ann_only : Client
ann_only = record new_client {
  snapshot = record new_client.snapshot { messages = message 8 1 key ∷ [] };
}

merge_message-displaces_example :
    exists (has_id 8) (merge_message (message 9 2 key) 0 ann_only).snapshot.messages ≡ false
unfolding new_client
merge_message-displaces_example =
    merge_message-displaces [] [] (message 8 1 key) (message 9 2 key) 0 ann_only refl refl refl refl
      (ground arith) refl refl refl refl

-- A reader that has signed in, with a cursor; the reader signs in again while a request is under way.
abbrev reader : Client
reader = record new_client {
  snapshot = record new_client.snapshot { sync_cursor = some "c"; messages = message 8 1 key ∷ [] };
}

abbrev empty_page : SyncPage
empty_page = record {
  events = [];
  next_cursor = "d";
  has_more = false;
  through = "d";
  through_position = 9;
  scanned_through = 9;
}

abbrev late_network : Network
late_network = record {
  sync_page = λ n q c. record { client = begin_generation c; reply = answered (some empty_page) };
  conversations = λ n c. record { client = c; reply = lost };
  messages = λ n ids c. record { client = c; reply = lost };
}

given_cursor : same "c" "" ≡ false
unfolding j_messenger.Common.text_dec
given_cursor = refl

stale_generation : j_messenger.Client.current reader.generation (begin_generation reader) ≡ false
unfolding begin_generation new_client
stale_generation = refl

sync-stale_example :
    (sync late_network 0 reader.generation reader
      ≡ return (clear_session (begin_generation reader)))
    × IsBlank (sync late_network 0 reader.generation reader).client.snapshot
sync-stale_example =
    sync-stale late_network 0 "c" reader (some empty_page) refl given_cursor stale_generation refl

-- The server asks for a reset, and then the connection is lost.
abbrev reset_network : Network
reset_network = record late_network {
  sync_page = λ n q c. record { client = c; reply = refused 409 (some sync_reset_required) };
}

reader-current : j_messenger.Client.current reader.generation reader ≡ true
unfolding new_client
reader-current = refl

sync-reset_lost_example :
    (react_all
      (frame connection (arrival 9 (message 9 2 key)) ∷ tick reset_network 1 0 ∷ [])
      (sync reset_network 0 reader.generation reader).client).snapshot.messages
    ≡ []
sync-reset_lost_example =
    sync-reset_lost reset_network 0 409 "c" reader
      (frame connection (arrival 9 (message 9 2 key)) ∷ tick reset_network 1 0 ∷ []) refl
      given_cursor reader-current refl refl refl
