-- ===== src/Client/Lists.antt =====
-- `getMe`, `listUsers`, `listConversations`, `createConversation` and `listMessages` of
-- packages/client-core/src/index.ts: what a reply changes.
use j_messenger.Common.{List, [], ◌∷◌, ◌++◌, ◌==◌, if◌then◌else◌, delete}
use j_messenger.Messages.{MessageOutput}
use j_messenger.Conversations.{ConversationDto}
use j_messenger.Client.{Client, User, CurrentUser, current, put_conversations, merge_message}
use j_messenger.Client.Wire.{got, threw, receive, Arrival, Run, return, throw}
use j_messenger.Client.Session.{set_user}

unfoldable pub put_user : User → List User → List User
put_user v [] = v ∷ []
put_user v (x ∷ xs) = if x.id == v.id then v ∷ xs else x ∷ put_user v xs

unfoldable pub put_users : List User → List User → List User
put_users xs [] = xs
put_users xs (y ∷ ys) = put_users (put_user y xs) ys

-- `users`, once those of a page have been set
unfoldable pub add_users : List User → Client → Client
add_users us c = record c {
  snapshot = record c.snapshot { users = put_users (put_users [] c.snapshot.users) us };
}

-- `conversations`, once those of a page have been set
unfoldable pub add_conversations : List ConversationDto → Client → Client
add_conversations vs c = record c {
  snapshot = record c.snapshot {
    conversations = put_conversations (put_conversations [] c.snapshot.conversations) vs;
  };
}

-- A new conversation comes last.
unfoldable pub add_conversation : ConversationDto → Client → Client
add_conversation v c = record c {
  snapshot = record c.snapshot {
    conversations =
        delete (λ (x : ConversationDto). x.id == v.id) c.snapshot.conversations ++ v ∷ [];
  };
}

unfoldable pub merge_all : List MessageOutput → Client → Client
merge_all [] c = c
merge_all (m ∷ ms) c = merge_all ms (merge_message m c.generation c)

-- A request whose reply changes the client, if its generation is still the same
unfoldable pub call : {A : Type 0} → (Client → Arrival A) → (A → Client → Client) → Client → Run
call ask change c =
    let a = ask c in
    elim (receive c.generation a.reply a.client) [
      | threw e ↦ throw e a.client
      | got x ↦ return (if current c.generation a.client then change x a.client else a.client)
    ]

-- `getMe`
abbrev pub get_me : (Client → Arrival CurrentUser) → Client → Run
get_me ask c = call ask set_user c

-- `listUsers`
abbrev pub list_users : (Client → Arrival (List User)) → Client → Run
list_users ask c = call ask add_users c

-- `listConversations`
abbrev pub list_conversations : (Client → Arrival (List ConversationDto)) → Client → Run
list_conversations ask c = call ask add_conversations c

-- `createConversation`
abbrev pub create_conversation : (Client → Arrival ConversationDto) → Client → Run
create_conversation ask c = call ask add_conversation c

-- `listMessages`
abbrev pub list_messages : (Client → Arrival (List MessageOutput)) → Client → Run
list_messages ask c = call ask merge_all c
