-- ===== src/Client/Wire.antt =====
-- `request` of packages/client-core/src/index.ts, and the two halves of a load: each handler
-- between two awaits is a function of the client as the reply finds it.
use j_messenger.Common.{
  ℕ, Bool, true, false, List, [], ◌∷◌, Option, none, some, String, ◌==◌, if◌then◌else◌,
}
use j_messenger.Common.Sorting.{sort}
use j_messenger.Common.Results.{ErrorCode, unauthorized, internal}
use j_messenger.Messages.{MessageOutput}
use j_messenger.Conversations.{ConversationDto}
use j_messenger.Client.{Client, Event, current, live_files, is_deleted, id_le}

-- `ClientErrorCode`
pub data ClientError : Type 0 where
  from_server : ErrorCode → ClientError
  network timeout invalid_response : ClientError

-- What `fetch` ends with: no response, a response whose body is not JSON, a status that is not ok
-- with the code of a well-formed error body, or a body of the schema asked for, if it is one.
pub data Reply (A : Type 0) : Type 0 where
  lost timed_out unreadable : Reply A
  refused : ℕ → Option ErrorCode → Reply A
  answered : Option A → Reply A

pub data Answer (A : Type 0) : Type 0 where
  got : A → Answer A
  threw : ClientError → Answer A

-- The code of a refusal.
abbrev pub refusal : ℕ → Option ErrorCode → ErrorCode
refusal status (some code) = code
refusal status none = if status == 401 then unauthorized else internal

-- The body of a response that came in time, to a client that is still the one that asked.
unfoldable pub read_body : {A : Type 0} → Reply A → Answer A
read_body (refused status code) = threw (from_server (refusal status code))
read_body (answered (some a)) = got a
read_body lost = threw network
read_body timed_out = threw timeout
read_body _ = threw invalid_response

-- `request`, made in generation `g`, once its reply is there
unfoldable pub receive : {A : Type 0} → ℕ → Reply A → Client → Answer A
receive g lost c = threw network
receive g timed_out c = threw timeout
receive g r c = if current g c then read_body r else threw (from_server unauthorized)

-- The client when a reply arrives, other handlers having run since the request, and the reply.
pub record Arrival (A : Type 0) : Type 0 where
  pub client : Client
  pub reply : Reply A

-- `SyncResponse`
pub record SyncPage : Type 0 where
  pub events : List Event
  pub next_cursor : String
  pub has_more : Bool
  pub through : String
  pub through_position : ℕ
  pub scanned_through : ℕ

pub record SyncQuery : Type 0 where
  pub after : String
  pub through : String

pub record ConversationList : Type 0 where
  pub items : List ConversationDto
  pub snapshot_cursor : String
  pub snapshot_position : ℕ

pub record MessageList : Type 0 where
  pub items : List MessageOutput
  pub snapshot_position : ℕ

-- The server, the network and the other handlers, in the eyes of one call of a client: what happens
-- while its n-th request is under way. The lists of messages are asked for together; their reply is
-- that of the first to fail, else all the lists in the order of the ids.
pub record Network : Type 0 where
  pub sync_page : ℕ → SyncQuery → Client → Arrival SyncPage
  pub conversations : ℕ → Client → Arrival ConversationList
  pub messages : ℕ → List ℕ → Client → Arrival (List MessageList)

-- `positions` of `loadSnapshot`
abbrev pub positions : List ConversationDto → List MessageList → List (ℕ × ℕ)
positions (v ∷ vs) (p ∷ ps) = (v.id, p.snapshot_position) ∷ positions vs ps
positions _ _ = []

-- A loaded message, without what is known to be gone.
abbrev pub loaded : Client → MessageOutput → MessageOutput
loaded c m =
    let files = live_files c.file_tombstones m.file_ids in
    if is_deleted m.id c.message_tombstones
    then record m { text = none; content_expired = true; file_ids = files }
    else record m { file_ids = files }

-- `byId.set(message.id, message)`
unfoldable pub put_by_id : MessageOutput → List MessageOutput → List MessageOutput
put_by_id m [] = m ∷ []
put_by_id m (x ∷ xs) = if x.id == m.id then m ∷ xs else x ∷ put_by_id m xs

unfoldable pub put_page : Client → List MessageOutput → List MessageOutput → List MessageOutput
put_page c xs [] = xs
put_page c xs (m ∷ ms) = put_page c (put_by_id (loaded c m) xs) ms

unfoldable pub put_pages : Client → List MessageOutput → List MessageList → List MessageOutput
put_pages c xs [] = xs
put_pages c xs (p ∷ ps) = put_pages c (put_page c xs p.items) ps

-- The conversations have come.
unfoldable pub show_conversations : ConversationList → Client → Client
show_conversations l c = record c { snapshot = record c.snapshot { conversations = l.items } }

-- The messages of all of them have come.
unfoldable pub show_messages : ConversationList → List MessageList → Client → Client
show_messages l pages c = record c {
  snapshot = record c.snapshot {
    messages = sort id_le (put_pages c [] pages);
    sync_cursor = some l.snapshot_cursor;
    snapshot_position = l.snapshot_position;
    position_by_conversation = positions l.items pages;
  };
}

abbrev pub list_ids : List ConversationDto → List ℕ
list_ids [] = []
list_ids (v ∷ vs) = v.id ∷ list_ids vs

-- What a call leaves: the client, and the error that it throws, if it does.
pub record Run : Type 0 where
  pub client : Client
  pub thrown : Option ClientError

abbrev pub return : Client → Run
return c = record { client = c; thrown = none }

abbrev pub throw : ClientError → Client → Run
throw e c = record { client = c; thrown = some e }

-- What follows a call that has not thrown.
abbrev pub and_then : Run → (Client → Run) → Run
and_then r f = elim r.thrown [ none ↦ f r.client | some e ↦ r ]

module _ (net : Network) where
  -- The second half of `loadSnapshot`
  unfoldable pub load_messages : ℕ → ℕ → ConversationList → Client → Run
  load_messages n g l c =
      let a = net.messages n (list_ids l.items) c in
      elim (receive c.generation a.reply a.client) [
        | threw e ↦ throw e a.client
        | got pages ↦
            return (if current g a.client then show_messages l pages a.client else a.client)
      ]

  -- `loadSnapshot`, with request `n` and the next
  unfoldable pub load_snapshot : ℕ → ℕ → Client → Run
  load_snapshot n g c =
      let a = net.conversations n c in
      elim (receive c.generation a.reply a.client) [
        | threw e ↦ throw e a.client
        | got l ↦ elim (current g a.client) [
          | true ↦ load_messages n g l (show_conversations l a.client)
          | false ↦ return a.client
        ]
      ]
