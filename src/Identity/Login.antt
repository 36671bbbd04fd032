-- ===== src/Identity/Login.antt =====
-- `login`, `authenticate` and `resolveServer` of apps/server/src/modules/identity/index.ts. The mail
-- server's answer, random bytes and SHA-256 are parameters; the kind of a session is not kept.
pub mod Entry
use j_messenger.Common.{
  ℕ, suc, ◌+◌, ◌*◌, Bool, true, false, not, ◌&&◌, ◌||◌, List, [], ◌∷◌, ◌++◌, map, Option, none,
  some, String, ltb, leb, ◌==◌, same, if◌then◌else◌, is_some, length, take, get_last?, select,
  select_one, update, exists,
}
use j_messenger.Common.Results.{
  Result, ok, err, bad_request, unauthorized, forbidden, not_found, unavailable, internal, throw_if,
  or_throw, ◌>>=◌, ◌>>◌,
}
use j_messenger.Names.{utf16_length}
use j_messenger.Store.{Store, Context, UserRow, SessionRow, day}

-- The name and the display name that an authenticator vouches for
pub record Account : Type 0 where
  pub canonical_username : String
  pub display_name : String

-- What an authenticator does: it vouches, it refuses (null, or 'unauthorized'), or it fails.
pub data Answer : Type 0 where
  accepted : Account → Answer
  refused failed : Answer

-- The configuration: the servers by their selectors, the kinds of sessions, and the authenticator
pub record Config : Type 0 where
  pub selectors : List (String × String)
  pub mail : Bool
  pub production : Bool
  pub native_sessions : Bool
  pub session_days : ℕ
  pub authenticator : Option (String → String → String → Answer)

unfoldable pub find_selector : String → List (String × String) → Option String
find_selector k [] = none
find_selector k ((j, server) ∷ ps) = if same j k then some server else find_selector k ps

-- `resolveServer`
unfoldable pub resolve_server : Config → String → Result String
resolve_server g selector = or_throw (find_selector selector g.selectors) not_found

-- `defaultAccounts`; a name that every object of JavaScript inherits is taken for an unknown one.
unfoldable pub default_account : String → String → Option String
default_account server username =
    if same server "dev-a"
    then (if same username "alice"
        then some "Alice"
        else if same username "bob"
        then some "Bob"
        else if same username "carol"
        then some "Carol"
        else none)
    else if same server "dev-b" && same username "mallory"
    then some "Mallory"
    else none

abbrev of_answer : Answer → Result (Option Account)
of_answer (accepted a) = ok (some a)
of_answer refused = ok none
of_answer failed = err unavailable

-- The fixed accounts of development
unfoldable pub fixed_account : Config → String → String → String → Result (Option Account)
fixed_account g server username password =
    if g.mail || g.production then err unavailable else elim (default_account server username) [
      | none ↦ ok none
      | some name ↦ ok (
          if same password "dev-only"
          then some (record { canonical_username = username; display_name = name })
          else none)
    ]

-- `authenticate`; a configuration that is not for mail is for the fixed accounts.
unfoldable pub authenticate : Config → String → String → String → Result (Option Account)
authenticate g server username password = elim g.authenticator [
  | none ↦ fixed_account g server username password
  | some ask ↦
      if g.mail
      then of_answer (ask server username password)
      else fixed_account g server username password
]

abbrev pub has_name : String → String → UserRow → Bool
has_name server name u = same u.server_id server && same u.username name

-- INSERT INTO users … ON CONFLICT(server_id,username) DO UPDATE SET display_name
unfoldable pub upsert_user : String → Account → Store → Store
upsert_user server a s =
    if exists (has_name server a.canonical_username) s.users
    then record s {
      users =
          update (has_name server a.canonical_username)
            (λ u. record u { display_name = a.display_name }) s.users;
    }
    else record s {
      users =
          s.users
          ++ record {
            id = suc s.user_seq;
            server_id = server;
            username = a.canonical_username;
            display_name = a.display_name;
          }
            ∷ [];
      user_seq = suc s.user_seq;
    }

-- INSERT INTO sessions; the hashes of the table are unique.
unfoldable pub insert_session : String → ℕ → String → ℕ → Store → Result Store
insert_session server user hash expires s = do
  throw_if (exists (λ (r : SessionRow). same r.token_hash hash) s.sessions) unavailable
  ok (record s {
    sessions =
        s.sessions
        ++ record {
          id = suc s.session_seq;
          server_id = server;
          user_id = user;
          token_hash = hash;
          expires_at = expires;
        }
          ∷ [];
    session_seq = suc s.session_seq;
  })

-- The transaction of `login`: the user's row
unfoldable pub login_in : String → Account → String → ℕ → Store → Result (UserRow × Store)
login_in server a hash expires s = do
  u ←
      or_throw (select_one (has_name server a.canonical_username) (upsert_user server a s).users)
        internal
  s' ← insert_session server u.id hash expires (upsert_user server a s)
  ok (u, s')

-- The tests of `login` on what it is given
unfoldable pub valid_login : String → String → Bool
valid_login username password =
    leb 1 (utf16_length username)
    && leb (utf16_length username) 256
    && leb 1 (utf16_length password)
    && leb (utf16_length password) 4096

unfoldable pub valid_account : Account → Bool
valid_account a =
    leb 1 (utf16_length a.canonical_username)
    && leb (utf16_length a.canonical_username) 256
    && leb 1 (utf16_length a.display_name)
    && leb (utf16_length a.display_name) 128

-- `login` before its transaction: the account that is vouched for on the server
unfoldable pub vouched_account : Config → String → String → String → Bool → Result Account
vouched_account g server username password native = do
  throw_if (not (valid_login username password)) unauthorized
  throw_if (native && not g.native_sessions) forbidden
  answer ← authenticate g server username password
  a ← or_throw answer unauthorized
  throw_if (not (valid_account a)) unavailable
  ok a

-- `login`, with the credential that the random bytes make: the user, the credential and its end
unfoldable pub login :
    Config
    → (String → String)
    → String
    → String
    → String
    → Bool
    → String
    → ℕ
    → Store
    → Result ((UserRow × String × ℕ) × Store)
login g sha256 selector username password native credential now s = do
  server ← resolve_server g selector
  a ← vouched_account g server username password native
  let expires = now + g.session_days * day
  (u, s') ← login_in server a (sha256 credential) expires s
  ok ((u, credential, expires), s')
