-- ===== src/Identity.antt =====
-- apps/server/src/modules/identity/index.ts: the session behind a request. The log lines of the
-- module are not modelled; `now` is what the clock says during the call.
pub mod Directory
pub mod Login
pub mod Sessions
use j_messenger.Common.{
  ℕ, Bool, not, ◌&&◌, ◌||◌, length, every, List, Option, none, some, String, ltb, leb, ◌==◌, same,
  if◌then◌else◌, is_some, select_one, delete, exists,
}
use j_messenger.Common.Results.{
  Result, ok, err, unauthorized, not_found, or_throw, throw_if, ◌>>=◌, ◌>>◌,
}
use j_messenger.Names.{valid_server_id, valid_uuid, codes}
use j_messenger.Store.{Store, Context, UserRow, SessionRow}

abbrev pub user_key : String → ℕ → UserRow → Bool
user_key server user u = same u.server_id server && u.id == user

-- WHERE s.id=? AND s.server_id=? AND s.user_id=? AND s.expires_at>?, joined with users
abbrev pub is_live : Context → ℕ → SessionRow → Bool
is_live c now r =
    r.id == c.session_id
    && same r.server_id c.server_id
    && r.user_id == c.user_id
    && ltb now r.expires_at

-- `sessionRow`
unfoldable pub session_row : Context → ℕ → Store → Option SessionRow
session_row c now s =
    if leb 1 c.session_id && leb 1 c.user_id && valid_server_id c.server_id
    then select_one (λ r. is_live c now r && exists (user_key r.server_id r.user_id) s.users)
        s.sessions
    else none

-- `sessionActive`
unfoldable pub session_active : Context → ℕ → Store → Bool
unfolding session_row
session_active c now s = is_some (session_row c now s)

-- `userById`
unfoldable pub user_by_id : String → ℕ → Store → Option UserRow
user_by_id server user s = select_one (user_key server user) s.users

-- `get`
unfoldable pub get : Context → ℕ → Store → Result UserRow
unfolding session_row user_by_id
get c now s = do
  or_throw (session_row c now s) unauthorized
  or_throw (user_by_id c.server_id c.user_id s) unauthorized

-- `requireSameServer`
unfoldable pub require_same_server : Context → ℕ → Store → Result (Unit {0})
require_same_server c user s = do
  throw_if (ltb user 1) not_found
  throw_if (not (exists (user_key c.server_id user) s.users)) not_found

abbrev base64url : ℕ → Bool
base64url c =
    (leb b'A' c && leb c b'Z')
    || (leb b'a' c && leb c b'z')
    || (leb b'0' c && leb c b'9')
    || c == b'_'
    || c == b'-'

-- `/^[A-Za-z0-9_-]{43}$/`
unfoldable pub valid_credential : String → Bool
valid_credential s = length (codes s) == 43 && every base64url (codes s)

-- `resolve`; SHA-256 is a parameter.
unfoldable pub resolve : (String → String) → String → String → ℕ → Store → Result Context
resolve sha256 credential request_id now s = do
  throw_if (not (valid_uuid request_id) || not (valid_credential credential)) unauthorized
  r ←
      or_throw
        (select_one
          (λ (r : SessionRow).
            same r.token_hash (sha256 credential)
            && ltb now r.expires_at
            && exists (user_key r.server_id r.user_id) s.users)
          s.sessions)
        unauthorized
  ok (record { server_id = r.server_id; user_id = r.user_id; session_id = r.id })

-- `logout`
unfoldable pub logout : Context → Store → Store
logout c s =
    if leb 1 c.session_id && leb 1 c.user_id && valid_server_id c.server_id
    then record s {
      sessions =
          delete
            (λ (r : SessionRow).
              r.id == c.session_id && same r.server_id c.server_id && r.user_id == c.user_id)
            s.sessions;
    }
    else s
