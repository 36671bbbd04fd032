-- ===== src/Identity/Sessions.antt =====
-- What `logout` and the expiry of a session do to later requests.
use j_messenger.Common.{
  ℕ, ◌≤◌, ◌<◌, ◌≡◌, Bool, true, false, ◌&&◌, some, String, arith, ltb, ◌==◌, same, select_one,
  exists, select_one-delete, select_one-delete_keep, select_one-test, ◌≢◌, All, All-select_one,
  select_one-other, Option-cases, inl, inr,
}
use j_messenger.Common.Results.{ok}
use j_messenger.Names.{valid_server_id}
use j_messenger.Store.{Store, Context, SessionRow}
use j_messenger.Identity.{is_live, session_row, session_active, logout, user_key, resolve}

abbrev row_test : Context → ℕ → Store → SessionRow → Bool
row_test c now s r = is_live c now r && exists (user_key r.server_id r.user_id) s.users

abbrev own_session : Context → SessionRow → Bool
own_session c r = r.id == c.session_id && same r.server_id c.server_id && r.user_id == c.user_id

-- After `logout` the session is not active, at any time.
pub session_active-logout :
    (c : Context) (now : ℕ) (s : Store) → session_active c now (logout c s) ≡ false
unfolding session_active logout
session_active-logout c now s =
    ground
      (arith, select_one-delete (row_test c now s) (own_session c) s.sessions (λ r h. ground arith))

-- No other session notices it.
pub session_active-logout_other :
    (c d : Context) (now : ℕ) (s : Store)
    → d.session_id ≢ c.session_id
    → session_active d now (logout c s) ≡ session_active d now s
unfolding session_active logout
session_active-logout_other c d now s ne = ground (
  arith,
  select_one-delete_keep (row_test d now s) (own_session c) s.sessions (λ r h. ground arith),
)

-- A session that is active belongs to a row of the table whose term has not run out, and whose
-- server and user are those of the request.
pub session_row_sound :
    (c : Context) (now : ℕ) (s : Store) {r : SessionRow}
    → session_row c now s ≡ some r
    → (r.server_id ≡ c.server_id) × (r.user_id ≡ c.user_id) × (now < r.expires_at)
unfolding session_row
session_row_sound c now s {r} h = ground (arith, select_one-test (row_test c now s) s.sessions r)

-- Ids that are positive, and a server id of the right shape.
abbrev pub Shaped : SessionRow → Type 0
Shaped r = (1 ≤ r.id) × (1 ≤ r.user_id) × (valid_server_id r.server_id ≡ true)

-- The context that a credential is given for is one of an active session: its id, server and user
-- pass `session_active` at the same time, if ids are positive and server ids have their shape.
pub resolve-session_active :
    (sha256 : String → String) (credential request_id : String) (now : ℕ) (s : Store) (c : Context)
    → All Shaped s.sessions
    → resolve sha256 credential request_id now s ≡ ok c
    → session_active c now s ≡ true
unfolding resolve session_active
resolve-session_active sha256 credential request_id now s c shaped e =
    let credited = λ (r : SessionRow).
      same r.token_hash (sha256 credential)
      && ltb now r.expires_at
      && exists (user_key r.server_id r.user_id) s.users in
    elim (Option-cases (select_one credited s.sessions)) [
      | inl missing ↦ absurd (ground arith)
      | inr (r, found) ↦
          let (shape, passed) = All-select_one Shaped credited s.sessions {r = r} shaped found in
          let same_c : c
              ≡ record { server_id = r.server_id; user_id = r.user_id; session_id = r.id } =
            ground arith in
          rw same_c (
            ground (
              arith,
              select_one-other credited
                  (row_test
                    (record { server_id = r.server_id; user_id = r.user_id; session_id = r.id }) now
                    s)
                  s.sessions {r = r} found,
            ))
    ]
