-- ===== src/Store.antt =====
-- The tables of apps/server/src/bootstrap/migrations.ts, as one record. Times are milliseconds since
-- 1970, which order as their ISO texts do; ids are the numbers that their decimal texts denote.
use j_messenger.Common.{ℕ, Bool, List, Option, String, ◌&&◌, leb}
use j_messenger.Decimal.{Text, max_sqlite_id}
use j_messenger.Stream.{Stream}

-- packages/contracts/src/ports.ts, `RequestContext`, without what only the log lines use.
pub record Context : Type 0 where
  pub server_id : String
  pub user_id : ℕ
  pub session_id : ℕ

pub record UserRow : Type 0 where
  pub id : ℕ
  pub server_id : String
  pub username : String
  pub display_name : String

pub record SessionRow : Type 0 where
  pub id : ℕ
  pub server_id : String
  pub user_id : ℕ
  pub token_hash : String
  pub expires_at : ℕ

pub data Kind : Type 0 where
  direct group : Kind

pub record ConversationRow : Type 0 where
  pub id : ℕ
  pub server_id : String
  pub kind : Kind
  pub title : Option Text
  pub direct_pair : Option (ℕ × ℕ)
  pub created_at : ℕ
  pub last_message_at : Option ℕ

pub record MemberRow : Type 0 where
  pub server_id : String
  pub conversation_id : ℕ
  pub user_id : ℕ

pub record RequestRow : Type 0 where
  pub server_id : String
  pub sender_id : ℕ
  pub client_request_id : String
  pub payload_digest : String
  pub conversation_id : ℕ

-- `content_expired` is 0 or 1, and the text is NULL exactly when it is 1.
pub record MessageRow : Type 0 where
  pub id : ℕ
  pub server_id : String
  pub conversation_id : ℕ
  pub sender_id : ℕ
  pub client_message_id : String
  pub text : Option Text
  pub content_expired : Bool
  pub created_at : ℕ

pub record DedupRow : Type 0 where
  pub server_id : String
  pub sender_id : ℕ
  pub client_message_id : String
  pub conversation_id : ℕ
  pub message_id : Option ℕ
  pub created_at : ℕ
  pub expired_at : Option ℕ

pub record MessageFileRow : Type 0 where
  pub server_id : String
  pub message_id : ℕ
  pub file_id : String

pub data FileState : Type 0 where
  uploading ready attached deleting deleted : FileState

pub record FileRow : Type 0 where
  pub id : String
  pub server_id : String
  pub owner_user_id : ℕ
  pub conversation_id : ℕ
  pub filename : Option String
  pub mime_type : String
  pub size_bytes : ℕ
  pub object_key : String
  pub state : FileState
  pub created_at : ℕ
  pub expires_at : ℕ
  pub message_id : Option ℕ

pub record ReadCursorRow : Type 0 where
  pub server_id : String
  pub conversation_id : ℕ
  pub user_id : ℕ
  pub last_read_message_id : ℕ

pub record Store : Type 0 where
  pub stream : Stream
  pub users : List UserRow
  pub user_seq : ℕ
  pub sessions : List SessionRow
  pub session_seq : ℕ
  pub conversations : List ConversationRow
  pub conversation_seq : ℕ
  pub members : List MemberRow
  pub requests : List RequestRow
  pub messages : List MessageRow
  pub message_seq : ℕ
  pub dedup : List DedupRow
  pub message_files : List MessageFileRow
  pub read_cursors : List ReadCursorRow
  pub files : List FileRow

-- `positive` on the number of an id: a text that it refuses stands as 0.
abbrev pub positive_id : ℕ → Bool
positive_id n = leb 1 n && leb n max_sqlite_id

abbrev pub day : ℕ
day = 86400000
