-- ===== src/Examples/Browsing.antt =====
-- The list of ann's conversations, and its cursors.
use j_messenger.Common.{
  ℕ, suc, ◌+◌, ◌*◌, ◌≤◌, ◌<◌, ◌≡◌, refl, Bool, true, false, List, [], ◌∷◌, map, Option, none, some,
  String, arith, All, select,
}
use j_messenger.Common.Results.{ok, err, bad_request}
use j_messenger.Store.{Store}
use j_messenger.Sync.{Claims, Sealer}
use j_messenger.Sync.Cursor.{IsSealer}
use j_messenger.Conversations.Listing.{
  Packing, url_safe, encode, ListClaims, encode_list_cursor, decode_list_cursor, is_listed, row_id,
  max_id,
}
use j_messenger.Conversations.Listing.Cursors.{IsPacked, decode_list_cursor-encode_list_cursor}
use j_messenger.Conversations.Listing.Pages.{browse, browse_complete}
use j_messenger.Examples.{ann, server, chat, chat_store, member}

abbrev sealer : Sealer Claims
sealer = record { seal = λ k. k; unseal = some; units = λ t. 300 }

sealer-IsSealer : IsSealer sealer
sealer-IsSealer = record { opens = λ k valid. refl; fits = λ k valid small. ground arith }

abbrev place : ListClaims
place = record { snapshot_position = 3; snapshot_max = 9; after = 5 }

abbrev token : ℕ → Claims
token position = record {
  server_id = server;
  user_id = 1;
  epoch = "epoch";
  position = position;
  expires_at = 900100;
}

-- One text, which is read as three tokens
abbrev packing : Packing Claims
packing = record {
  pack = λ a b d. "a_Z-9";
  parse = λ s.
      some (record { snapshot = some (token 3); max = some (token 9); after = some (token 5) });
}

made : (p : ℕ) → p ≤ 9 → encode sealer packing ann p "epoch" 100 ≡ ok (token p)
unfolding encode j_messenger.Sync.encode_claims j_messenger.Sync.valid_claims
    j_messenger.Names.valid_server_id j_messenger.Names.utf16_length
made p small = ground arith

tokens-IsPacked : IsPacked packing (token 3) (token 9) (token 5)
unfolding url_safe
tokens-IsPacked = record { opens = refl; safe = refl }

-- A cursor that is no JSON of strings
one_token_refused :
    decode_list_cursor sealer
      (record packing {
        parse = λ s. some (record { snapshot = some (token 3); max = none; after = none });
      })
      ann
      "a_Z-9"
      "epoch"
      200
    ≡ err bad_request
unfolding decode_list_cursor url_safe
one_token_refused = refl

decode_list_cursor-encode_list_cursor_example :
    (encode_list_cursor sealer packing ann place "epoch" 100 ≡ ok "a_Z-9")
    × (decode_list_cursor sealer packing ann "a_Z-9" "epoch" 200 ≡ ok place)
decode_list_cursor-encode_list_cursor_example =
    decode_list_cursor-encode_list_cursor sealer packing sealer-IsSealer ann (ground arith) place
      "epoch" 100 200 (token 3) (token 9) (token 5) (made 3 (ground arith)) (made 9 (ground arith))
      (made 5 (ground arith)) tokens-IsPacked (ground arith) (ground arith)

-- A second conversation of ann.
abbrev two : Store
two = record chat_store {
  conversations = chat ∷ record chat { id = 6; direct_pair = none } ∷ [];
  conversation_seq = 6;
  members = member 1 ∷ member 2 ∷ record (member 1) { conversation_id = 6 } ∷ [];
}

last_is_six : max_id ann two ≡ 6
unfolding max_id j_messenger.Common.text_dec
last_is_six = refl

ids_listed : map row_id (select (is_listed ann 0 6 two) two.conversations) ≡ 5 ∷ 6 ∷ []
unfolding j_messenger.Common.text_dec
ids_listed = refl

browse_complete_example : browse ann 6 1 (λ n. two) 3 0 0 ≡ ok (5 ∷ 6 ∷ [])
browse_complete_example =
    browse_complete ann 6 1 (λ n. two) (5 ∷ 6 ∷ []) (λ n. ids_listed) (ground arith) 3
      ((ground arith, tt), (tt, tt)) (ground arith, (ground arith, tt)) (ground arith)
