-- ===== src/Conversations/Listing/Cursors.antt =====
-- A list cursor says what was put into it, to its own user, for a quarter of an hour.
use j_messenger.Common.{
  ℕ, ◌+◌, ◌*◌, ◌≤◌, ◌<◌, ◌≡◌, true, some, String, arith, leb, length, if◌then◌else◌, Bool-cases,
  inl, inr,
}
use j_messenger.Common.Results.{ok, err, bad_request}
use j_messenger.Decimal.{max_sqlite_id}
use j_messenger.Names.{codes}
use j_messenger.Store.{Context}
use j_messenger.Sync.{Claims, Sealer, valid_claims, encode_claims, decode_token}
use j_messenger.Sync.Cursor.{IsSealer}
use j_messenger.Conversations.Listing.{
  Packing, url_safe, ListClaims, encode, decode, encode_list_cursor, decode_list_cursor,
}

-- What is relied on in JSON and base64url: the text of three tokens is read back as these, and it is of
-- that alphabet.
pub record IsPacked {T : Type 0} (k : Packing T) (a b d : T) : Type 0 where
  pub opens :
      k.parse (k.pack a b d) ≡ some (record { snapshot = some a; max = some b; after = some d })
  pub safe : url_safe (k.pack a b d) ≡ true

module _ {T : Type 0} (z : Sealer T) (k : Packing T) (sealed : IsSealer z) (c : Context)
    (small : c.user_id ≤ max_sqlite_id) where
  decode-encode :
      (position now later : ℕ) (epoch : String) (token : T)
      → encode z k c position epoch now ≡ ok token
      → later < now + 15 * 60000
      → decode z k c token epoch later ≡ ok position
  unfolding encode decode encode_claims decode_token valid_claims
  decode-encode position now later epoch token e early =
      let claims : Claims = record {
        server_id = c.server_id;
        user_id = c.user_id;
        epoch = epoch;
        position = position;
        expires_at = now + 15 * 60000;
      } in
      ground (arith, sealed.opens claims, sealed.fits claims)

  -- A list cursor that is made of three tokens, of the position of a snapshot, of the end of the list
  -- and of the last id, which is not above that end, and read within a quarter of an hour, by its own
  -- user and under the same epoch: up to a length of 4096 it gives back the three, and a longer one is
  -- refused.
  pub decode_list_cursor-encode_list_cursor :
      (l : ListClaims) (epoch : String) (now later : ℕ) (a b d : T)
      → encode z k c l.snapshot_position epoch now ≡ ok a
      → encode z k c l.snapshot_max epoch now ≡ ok b
      → encode z k c l.after epoch now ≡ ok d
      → IsPacked k a b d
      → l.after ≤ l.snapshot_max
      → later < now + 15 * 60000
      → (encode_list_cursor z k c l epoch now ≡ ok (k.pack a b d))
        × (decode_list_cursor z k c (k.pack a b d) epoch later
            ≡ (if leb (length (codes (k.pack a b d))) 4096 then ok l else err bad_request))
  unfolding encode_list_cursor decode_list_cursor
  decode_list_cursor-encode_list_cursor l epoch now later a b d sealed_a sealed_b sealed_d packed
        inside early =
      let made : encode_list_cursor z k c l epoch now ≡ ok (k.pack a b d) = ground arith in
      elim (Bool-cases (leb (length (codes (k.pack a b d))) 4096)) [
        | inr long ↦ (made, ground (arith, long))
        | inl short ↦ (
          made,
          ground (
            arith,
            short,
            packed.opens,
            packed.safe,
            decode-encode l.snapshot_position now later epoch a sealed_a early,
            decode-encode l.snapshot_max now later epoch b sealed_b early,
            decode-encode l.after now later epoch d sealed_d early,
          ),
        )
      ]
