-- ===== src/Sync/Cursor.antt =====
-- A cursor says what was put into it, to its own user, until it expires.
use j_messenger.Common.{
  ℕ, ◌+◌, ◌*◌, ◌≤◌, ◌≡◌, ◌≢◌, true, some, String, arith, ltb, same, ◌&&◌, if◌then◌else◌, ◌⊎◌,
}
use j_messenger.Common.Results.{ok, err, bad_request, sync_reset_required}
use j_messenger.Decimal.{max_sqlite_id}
use j_messenger.Store.{Context, day}
use j_messenger.Sync.{
  Claims, Sealer, Options, valid_claims, encode_claims, decode_token, encode, claims,
}

-- A signed token opens to the claims that were sealed in it, and stays within the length that `decode` reads.
pub record IsSealer {T : Type 0} (z : Sealer T) : Type 0 where
  pub opens : (k : Claims) → valid_claims k ≡ true → z.unseal (z.seal k) ≡ some k
  pub fits :
      (k : Claims) → valid_claims k ≡ true → k.user_id ≤ max_sqlite_id → z.units (z.seal k) ≤ 4096

encode-eq-ok :
    {T : Type 0} (o : Options T) (c : Context) (position now : ℕ) (epoch : String) (token : T)
    → encode o c position epoch now ≡ ok token
    → (valid_claims (claims o c position epoch now) ≡ true)
      × (o.sealer.seal (claims o c position epoch now) ≡ token)
unfolding encode encode_claims
encode-eq-ok o c position now epoch token e = ground arith

-- A cursor given to a user gives the position back to that user until it expires, as long as the
-- stream keeps its epoch; later, or under another epoch, it asks for a reset.
pub decode_token-encode :
    {T : Type 0} (o : Options T) (c : Context) (position now later : ℕ) (epoch next : String)
    (token : T)
    → IsSealer o.sealer
    → c.user_id ≤ max_sqlite_id
    → encode o c position epoch now ≡ ok token
    → decode_token o.sealer token c next later ≡ (
        if same epoch next && ltb later (now + o.cursor_days * day)
        then ok position
        else err sync_reset_required)
unfolding decode_token valid_claims
decode_token-encode o c position now later epoch next token z small e =
    let k = claims o c position epoch now in
    let (valid, sealed) = encode-eq-ok o c position now epoch token e in
    ground (arith, z.opens k valid, z.fits k valid small)

-- Another user, or a user of another server, gets no position from it.
pub decode_token-other :
    {T : Type 0} (o : Options T) (c d : Context) (position now later : ℕ) (epoch next : String)
    (token : T)
    → IsSealer o.sealer
    → ((d.user_id ≢ c.user_id) ⊎ (d.server_id ≢ c.server_id))
    → encode o c position epoch now ≡ ok token
    → decode_token o.sealer token d next later ≡ err bad_request
unfolding decode_token valid_claims
decode_token-other o c d position now later epoch next token z other e =
    let k = claims o c position epoch now in
    let (valid, sealed) = encode-eq-ok o c position now epoch token e in
    ground (arith, z.opens k valid)
