-- ===== src/Messages/Membership.antt =====
-- Who may send to a conversation and read it.
use j_messenger.Common.{ℕ, ◌≡◌, Bool, true, arith}
use j_messenger.Common.Results.{ok}
use j_messenger.Store.{Store, Context}
use j_messenger.Identity.{session_active}
use j_messenger.Conversations.Access.{IsMember, recheck_member_iff}
use j_messenger.Messages.{MessageOutput, CreateInput, create_in}
use j_messenger.Messages.Reads.{ListInput, MessagePage, list}

-- The session is live, and its user is a member of the conversation on the session's server.
abbrev pub MayUse : Context → ℕ → ℕ → Store → Type 0
MayUse c conversation now s = (session_active c now s ≡ true) × IsMember c conversation s

-- A message is stored only for a live session of a member of the conversation, on the tables that
-- the transaction sees.
pub create_in-MayUse :
    (c : Context) (conversation now : ℕ) (i : CreateInput) (s : Store)
    (x : (MessageOutput × Bool) × Store)
    → create_in c conversation i now s ≡ ok x
    → MayUse c conversation now s
unfolding create_in
create_in-MayUse c conversation now i s x e =
    (recheck_member_iff c conversation now s).0.0 (ground arith)

-- A page of messages is returned only to a live session of a member of the conversation, on the
-- tables that it is read from.
pub list-MayUse :
    (c : Context) (conversation now : ℕ) (i : ListInput) (seen s : Store) (p : MessagePage)
    → list c conversation i now seen s ≡ ok p
    → MayUse c conversation now s
unfolding list
list-MayUse c conversation now i seen s p e =
    (recheck_member_iff c conversation now s).0.0 (ground arith)
