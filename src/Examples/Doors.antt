-- ===== src/Examples/Doors.antt =====
-- Logins at a mail server and at the fixed accounts.
use j_messenger.Common.{
  ℕ, ◌+◌, ◌*◌, ◌≡◌, refl, Bool, true, false, List, [], ◌∷◌, Option, none, some, String, arith, same,
  if◌then◌else◌,
}
use j_messenger.Common.Results.{Result, ok, err, unauthorized, forbidden, unavailable, not_found}
use j_messenger.Names.{valid_uuid}
use j_messenger.Store.{Store, UserRow, day}
use j_messenger.Identity.{valid_credential, resolve}
use j_messenger.Identity.Login.{
  Account, Answer, accepted, refused, Config, resolve_server, authenticate, login,
}
use j_messenger.Identity.Directory.{UserSealer, UserClaims, list_same_server}
use j_messenger.Identity.Login.Entry.{login-resolve}
use j_messenger.Examples.{users_only, other_id, result_or, server, ann}

-- The mail server knows Zoe.
abbrev mail_server : String → String → String → Answer
mail_server at username password =
    if same username "zoe"
    then accepted (record { canonical_username = "zoe"; display_name = "Zoe" })
    else refused

abbrev by_mail : Config
by_mail = record {
  selectors = (server, server) ∷ ("post", server) ∷ [];
  mail = true;
  production = true;
  native_sessions = false;
  session_days = 7;
  authenticator = some mail_server;
}

abbrev fixed : Config
fixed = record by_mail {
  selectors = ("dev-a", "dev-a") ∷ [];
  mail = false;
  production = false;
  authenticator = none;
}

abbrev new_hash : String → String
new_hash s = "new"

abbrev key : String
key = "bbbbbbbbbbbbbbbbbbbbbbbbbbbbbbbbbbbbbbbbbbb"

abbrev entered : Config → String → String → Bool → Result ((UserRow × String × ℕ) × Store)
entered g selector username native =
    login g new_hash selector username "dev-only" native key 100 users_only

abbrev zoe : UserRow
zoe = record { id = 3; server_id = server; username = "zoe"; display_name = "Zoe" }

abbrev after_login : Store
after_login = (result_or (entered by_mail "post" "zoe" false) ((zoe, key, 0), users_only)).1

first_login : entered by_mail "post" "zoe" false ≡ ok ((zoe, key, 100 + 7 * day), after_login)
unfolding login resolve_server j_messenger.Identity.Login.find_selector j_messenger.Common.text_dec
    j_messenger.Identity.Login.vouched_account j_messenger.Identity.Login.valid_login
    j_messenger.Names.utf16_length authenticate j_messenger.Identity.Login.valid_account
    j_messenger.Identity.Login.login_in j_messenger.Identity.Login.upsert_user
    j_messenger.Identity.Login.insert_session
first_login = refl

unknown_server : entered by_mail "attic" "zoe" false ≡ err not_found
unfolding login resolve_server j_messenger.Identity.Login.find_selector j_messenger.Common.text_dec
unknown_server = refl

wrong_user : entered by_mail "post" "yan" false ≡ err unauthorized
unfolding login resolve_server j_messenger.Identity.Login.find_selector j_messenger.Common.text_dec
    j_messenger.Identity.Login.vouched_account j_messenger.Identity.Login.valid_login
    j_messenger.Names.utf16_length authenticate
wrong_user = refl

no_native : entered by_mail "post" "zoe" true ≡ err forbidden
unfolding login resolve_server j_messenger.Identity.Login.find_selector j_messenger.Common.text_dec
    j_messenger.Identity.Login.vouched_account j_messenger.Identity.Login.valid_login
    j_messenger.Names.utf16_length
no_native = refl

no_authenticator :
    entered (record by_mail { authenticator = none }) "post" "zoe" false ≡ err unavailable
unfolding login resolve_server j_messenger.Identity.Login.find_selector j_messenger.Common.text_dec
    j_messenger.Identity.Login.vouched_account j_messenger.Identity.Login.valid_login
    j_messenger.Names.utf16_length authenticate j_messenger.Identity.Login.fixed_account
no_authenticator = refl

alice_fixed :
    authenticate fixed "dev-a" "alice" "dev-only"
    ≡ ok (some (record { canonical_username = "alice"; display_name = "Alice" }))
unfolding authenticate j_messenger.Identity.Login.fixed_account
    j_messenger.Identity.Login.default_account j_messenger.Common.text_dec
alice_fixed = refl

post_is_main : resolve_server by_mail "post" ≡ ok server
unfolding resolve_server j_messenger.Identity.Login.find_selector j_messenger.Common.text_dec
post_is_main = refl

key_shaped : valid_credential key ≡ true
unfolding valid_credential
key_shaped = refl

id_shaped : valid_uuid other_id ≡ true
unfolding valid_uuid
id_shaped = refl

login-resolve_example :
    resolve new_hash key other_id 5000 after_login
    ≡ ok (record { server_id = server; user_id = 3; session_id = 3 })
unfolding login resolve_server j_messenger.Identity.Login.find_selector j_messenger.Common.text_dec
    j_messenger.Identity.Login.vouched_account j_messenger.Identity.Login.valid_login
    j_messenger.Names.utf16_length authenticate j_messenger.Identity.Login.valid_account
    j_messenger.Identity.Login.login_in j_messenger.Identity.Login.upsert_user
    j_messenger.Identity.Login.insert_session
login-resolve_example =
    login-resolve by_mail new_hash "post" "zoe" "dev-only" key other_id server false 100
      (100 + 7 * day) 5000 users_only after_login zoe post_is_main first_login key_shaped id_shaped
      (omega arith)

-- Tokens that are their claims
abbrev plain : UserSealer UserClaims
plain = record { sign = λ k. k; open_token = λ k. some k }

first_user :
    list_same_server plain ann none 1 100 users_only
    ≡ ok (
      (1, "U") ∷ [],
      some (record { server_id = server; user_id = 1; after = 1; expires_at = 900100 }),
    )
unfolding list_same_server j_messenger.Common.text_dec
first_user = refl
