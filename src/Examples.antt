-- ===== src/Examples.antt =====
-- Small tables for the tests: two users of one server, and a conversation of theirs.
mod Batches
mod Browsing
mod Devices
mod Doors
mod Events
mod Posts
mod Rooms
mod Sockets
mod Streams
mod Tasks
mod Terms
mod Texts
mod Uploads
mod Vault
use j_messenger.Common.{ℕ, List, [], ◌∷◌, none, some, String}
use j_messenger.Common.Results.{Result, ok, err}
use j_messenger.Store.{
  Store, Context, UserRow, SessionRow, ConversationRow, MemberRow, FileRow, direct, ready,
}
use j_messenger.Stream.{Stream}

abbrev pub server : String
server = "main"

abbrev pub file_id : String
file_id = "3f2504e0-4f89-41d3-9a0c-0305e82c3301"

abbrev pub other_id : String
other_id = "6fa459ea-ee8a-4ca4-894e-db77e160355e"

abbrev pub ann : Context
ann = record { server_id = server; user_id = 1; session_id = 1 }

abbrev pub bob : Context
bob = record { server_id = server; user_id = 2; session_id = 2 }

abbrev pub user : ℕ → UserRow
user id = record { id = id; server_id = server; username = "u"; display_name = "U" }

abbrev pub session : ℕ → SessionRow
session id = record {
  id = id;
  server_id = server;
  user_id = id;
  token_hash = "hash";
  expires_at = 5000;
}

abbrev pub empty_stream : Stream
empty_stream = record {
  rows = [];
  seq = 0;
  epoch = "epoch";
  min_valid_position = 0;
  consumers = [];
}

-- The users and their sessions.
abbrev pub users_only : Store
users_only = record {
  stream = empty_stream;
  users = user 1 ∷ user 2 ∷ [];
  user_seq = 2;
  sessions = session 1 ∷ session 2 ∷ [];
  session_seq = 2;
  conversations = [];
  conversation_seq = 4;
  members = [];
  requests = [];
  messages = [];
  message_seq = 7;
  dedup = [];
  message_files = [];
  read_cursors = [];
  files = [];
}

abbrev pub chat : ConversationRow
chat = record {
  id = 5;
  server_id = server;
  kind = direct;
  title = none;
  direct_pair = some (1, 2);
  created_at = 10;
  last_message_at = none;
}

abbrev pub member : ℕ → MemberRow
member user_id = record { server_id = server; conversation_id = 5; user_id = user_id }

abbrev pub picture : FileRow
picture = record {
  id = file_id;
  server_id = server;
  owner_user_id = 1;
  conversation_id = 5;
  filename = some "a.png";
  mime_type = "image/png";
  size_bytes = 3;
  object_key = "k";
  state = ready;
  created_at = 20;
  expires_at = 9000;
  message_id = none;
}

-- Their conversation, with a file that Ann has uploaded to it.
abbrev pub chat_store : Store
chat_store = record users_only {
  conversations = chat ∷ [];
  conversation_seq = 5;
  members = member 1 ∷ member 2 ∷ [];
  files = picture ∷ [];
}

abbrev pub result_or {ℓ} : {A : Type ℓ} → Result A → A → A
result_or (ok a) d = a
result_or (err e) d = d
