-- ===== src/Identity/Directory.antt =====
-- `listSameServer` of apps/server/src/modules/identity/index.ts. The signature of a cursor is a
-- parameter.
use j_messenger.Common.{
  ℕ, suc, ◌+◌, ◌*◌, Bool, true, not, ◌&&◌, ◌||◌, List, map, Option, none, some, String, ltb, leb,
  ◌==◌, same, length, take, get_last?, select,
}
use j_messenger.Common.Results.{Result, ok, bad_request, throw_if, or_throw, ◌>>=◌, ◌>>◌}
use j_messenger.Store.{Store, Context, UserRow}

-- The claims of a cursor over users, and what their signature lets through
pub record UserClaims : Type 0 where
  pub server_id : String
  pub user_id : ℕ
  pub after : ℕ
  pub expires_at : ℕ

pub record UserSealer (T : Type 0) : Type 0 where
  pub sign : UserClaims → T
  pub open_token : T → Option UserClaims

-- `decodeCursor`
unfoldable pub decode_cursor : {T : Type 0} → UserSealer T → T → Context → ℕ → Result ℕ
decode_cursor z token c now = do
  k ← or_throw (z.open_token token) bad_request
  throw_if
      (not (same k.server_id c.server_id && k.user_id == c.user_id && leb 1 k.after)
        || leb k.expires_at now)
      bad_request
  ok k.after

abbrev after_of : {T : Type 0} → UserSealer T → Option T → Context → ℕ → Result ℕ
after_of z none c now = ok 0
after_of z (some token) c now = decode_cursor z token c now

abbrev next_token : {T : Type 0} → UserSealer T → Bool → Option UserRow → Context → ℕ → Option T
next_token z true (some u) c now = some (
    z.sign (record {
      server_id = c.server_id;
      user_id = c.user_id;
      after = u.id;
      expires_at = now + 15 * 60000;
    }))
next_token z _ _ c now = none

abbrev summary : UserRow → ℕ × String
summary u = (u.id, u.display_name)

-- `listSameServer`: the ids and names of the users, and the cursor of the next page. The table is
-- kept in the order of its ids.
unfoldable pub list_same_server :
    {T : Type 0}
    → UserSealer T
    → Context
    → Option T
    → ℕ
    → ℕ
    → Store
    → Result (List (ℕ × String) × Option T)
list_same_server z c cursor limit now s = do
  throw_if (ltb limit 1 || ltb 100 limit) bad_request
  after ← after_of z cursor c now
  let rows = take (suc limit) (select (λ u. same u.server_id c.server_id && ltb after u.id) s.users)
  let page = take limit rows
  ok (map summary page, next_token z (ltb limit (length rows)) (get_last? page) c now)
