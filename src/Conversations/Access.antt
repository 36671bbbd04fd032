-- ===== src/Conversations/Access.antt =====
-- Who passes the access checks, and that they stay within one server.
use j_messenger.Common.{
  ℕ, ◌≤◌, ◌≡◌, ◌↔◌, ◌⊎◌, Bool, true, ◌&&◌, List, [], ◌∷◌, some, arith, is_some, select_one, exists,
  select_one-test,
}
use j_messenger.Common.Results.{ok, err, not_found}
use j_messenger.Store.{Store, Context, ConversationRow, MemberRow}
use j_messenger.Decimal.{max_sqlite_id}
use j_messenger.Identity
use j_messenger.Conversations.{is_conversation, is_member, get_row, recheck_member}

-- The conversation exists on the session's server, and the user is listed as a member of it.
pub record IsMember (c : Context) (id : ℕ) (s : Store) : Type 0 where
  pub in_range : (1 ≤ id) × (id ≤ max_sqlite_id)
  pub is_there : exists (is_conversation c.server_id id) s.conversations ≡ true
  pub listed : exists (is_member c.server_id id c.user_id) s.members ≡ true

abbrev visible : Context → ℕ → List MemberRow → ConversationRow → Bool
visible c id ms r =
    is_conversation c.server_id id r && exists (is_member r.server_id r.id c.user_id) ms

visible_row :
    (c : Context) (id : ℕ) (ms : List MemberRow) (rs : List ConversationRow)
    → exists (is_conversation c.server_id id) rs ≡ true
    → exists (is_member c.server_id id c.user_id) ms ≡ true
    → is_some (select_one (visible c id ms) rs) ≡ true
visible_row c id ms [] h m = cc
visible_row c id ms (r ∷ rs) h m = ground (arith, visible_row c id ms rs)

visible_there :
    (c : Context) (id : ℕ) (ms : List MemberRow) (rs : List ConversationRow)
    → is_some (select_one (visible c id ms) rs) ≡ true
    → (exists (is_conversation c.server_id id) rs ≡ true)
      × (exists (is_member c.server_id id c.user_id) ms ≡ true)
visible_there c id ms [] h = cc
visible_there c id ms (r ∷ rs) h = ground (arith, visible_there c id ms rs)

pub get_row_iff :
    (c : Context) (id : ℕ) (s : Store) → (is_some (get_row c id s) ≡ true) ↔ IsMember c id s
unfolding get_row
get_row_iff c id s = (
  λ h. ground (arith, visible_there c id s.members s.conversations),
  λ m. ground (arith, visible_row c id s.members s.conversations m.is_there m.listed),
)

-- Inside a transaction access is granted exactly when the session is live and its user is a member
-- of a conversation of the session's own server; every refusal reads `not_found`.
pub recheck_member_iff :
    (c : Context) (id now : ℕ) (s : Store)
    → ((recheck_member c id now s ≡ ok tt)
        ↔ ((Identity.session_active c now s ≡ true) × IsMember c id s))
      × ((recheck_member c id now s ≡ ok tt) ⊎ (recheck_member c id now s ≡ err not_found))
unfolding recheck_member
recheck_member_iff c id now s =
    let (to, from) = get_row_iff c id s in
    ((λ h. (ground arith, to (ground arith)), λ (live, m). ground (arith, from m)), ground arith)

-- The row that a request is given lies on its own server and has the id that was asked for.
pub get_row_sound :
    (c : Context) (id : ℕ) (s : Store) {r : ConversationRow}
    → get_row c id s ≡ some r
    → (r.server_id ≡ c.server_id) × (r.id ≡ id)
unfolding get_row
get_row_sound c id s {r} h =
    ground (arith, select_one-test (visible c id s.members) s.conversations r)
