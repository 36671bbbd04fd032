-- ===== src/Identity/Login/Entry.antt =====
-- The credential that a login gives out opens the session that it has begun.
use j_messenger.Common.{
  ℕ, suc, ◌<◌, ◌≡◌, refl, ◌∙◌, Bool, true, false, ◌&&◌, List, [], ◌∷◌, ◌++◌, none, some, String,
  arith, ltb, same, select_one, select_one-test, select_one-append, exists,
}
use j_messenger.Common.Results.{ok, >>=-eq-ok}
use j_messenger.Names.{valid_uuid}
use j_messenger.Store.{Store, UserRow, SessionRow}
use j_messenger.Identity.{user_key, valid_credential, resolve}
use j_messenger.Identity.Login.{
  Config, Account, resolve_server, vouched_account, has_name, upsert_user, insert_session, login_in,
  login,
}

exists-found :
    (p q : UserRow → Bool) (us : List UserRow) (u : UserRow)
    → select_one p us ≡ some u
    → q u ≡ true
    → exists q us ≡ true
exists-found p q [] u e k = cc
exists-found p q (v ∷ us) u e k = ground (arith, exists-found p q us u)

-- The rows that a credential is looked up by
abbrev credited : (String → String) → String → ℕ → Store → SessionRow → Bool
credited sha256 credential now s r =
    same r.token_hash (sha256 credential)
    && ltb now r.expires_at
    && exists (user_key r.server_id r.user_id) s.users

no_other :
    (sha256 : String → String) (credential : String) (now : ℕ) (s : Store) (rs : List SessionRow)
    → exists (λ (r : SessionRow). same r.token_hash (sha256 credential)) rs ≡ false
    → select_one (credited sha256 credential now s) rs ≡ none
no_other sha256 credential now s [] h = refl
no_other sha256 credential now s (r ∷ rs) h = ground (arith, no_other sha256 credential now s rs)

-- The transaction of `login` ends with a session of the user whose name was vouched for.
login_in-resolve :
    (sha256 : String → String) (credential request_id server : String) (a : Account)
    (expires later : ℕ) (s s' : Store) (u : UserRow)
    → login_in server a (sha256 credential) expires s ≡ ok (u, s')
    → valid_credential credential ≡ true
    → valid_uuid request_id ≡ true
    → later < expires
    → resolve sha256 credential request_id later s'
      ≡ ok (record { server_id = server; user_id = u.id; session_id = s'.session_seq })
unfolding login_in insert_session resolve
login_in-resolve sha256 credential request_id server a expires later s s' u e shaped named early =
    let t = upsert_user server a s in
    let found : select_one (has_name server a.canonical_username) t.users ≡ some u = ground arith in
    let there : exists (user_key server u.id) t.users ≡ true =
      exists-found (has_name server a.canonical_username) (user_key server u.id) t.users u found
        (ground (arith, select_one-test (has_name server a.canonical_username) t.users u found)) in
    let new : SessionRow = record {
      id = suc t.session_seq;
      server_id = server;
      user_id = u.id;
      token_hash = sha256 credential;
      expires_at = expires;
    } in
    let fresh : exists (λ (r : SessionRow). same r.token_hash (sha256 credential)) t.sessions
        ≡ false =
      ground arith in
    let end : s' ≡ record t { sessions = t.sessions ++ new ∷ []; session_seq = suc t.session_seq } =
      ground arith in
    let looked_up : select_one (credited sha256 credential later s') (t.sessions ++ new ∷ [])
        ≡ some new =
      select_one-append (credited sha256 credential later s') t.sessions (new ∷ [])
        (no_other sha256 credential later s' t.sessions fresh)
      ∙ ground (arith, end, there) in
    ground (arith, looked_up, end)

-- What a login that returns has done last
login-login_in :
    (g : Config) (sha256 : String → String) (selector username password credential server : String)
    (native : Bool) (now expires : ℕ) (s s' : Store) (u : UserRow)
    → resolve_server g selector ≡ ok server
    → login g sha256 selector username password native credential now s
      ≡ ok ((u, credential, expires), s')
    → (a : Account) × (login_in server a (sha256 credential) expires s ≡ ok (u, s'))
unfolding login
login-login_in g sha256 selector username password credential server native now expires s s' u found
      e =
    let (named, e₀, e₁) = >>=-eq-ok (resolve_server g selector) _ e in
    let (a, _, e₂) = >>=-eq-ok (vouched_account g named username password native) _ e₁ in
    let (_, done, e₃) = >>=-eq-ok (login_in named a (sha256 credential) _ s) _ e₂ in
    (a, ground (arith, found, e₀, done, e₃))

-- A login that returns has begun a session that its credential opens: at any time before the end that
-- the login has returned, `resolve` takes the credential, when it and the request's id have their
-- shapes, to the new session, of the returned user on the server that the selector names.
pub login-resolve :
    (g : Config) (sha256 : String → String)
    (selector username password credential request_id server : String) (native : Bool)
    (now expires later : ℕ) (s s' : Store) (u : UserRow)
    → resolve_server g selector ≡ ok server
    → login g sha256 selector username password native credential now s
      ≡ ok ((u, credential, expires), s')
    → valid_credential credential ≡ true
    → valid_uuid request_id ≡ true
    → later < expires
    → resolve sha256 credential request_id later s'
      ≡ ok (record { server_id = server; user_id = u.id; session_id = s'.session_seq })
login-resolve g sha256 selector username password credential request_id server native now expires
      later s s' u found e shaped named early =
    let (a, done) =
      login-login_in g sha256 selector username password credential server native now expires s s' u
        found e in
    login_in-resolve sha256 credential request_id server a expires later s s' u done shaped named
      early
