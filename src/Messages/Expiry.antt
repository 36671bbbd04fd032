-- ===== src/Messages/Expiry.antt =====
-- A message that has expired does not come back.
use j_messenger.Common.{
  ℕ, ◌≡◌, ◌≢◌, Bool, true, not, ◌&&◌, List, [], ◌∷◌, none, some, String, arith, is_some, select_one,
  update,
}
use j_messenger.Common.Results.{ok}
use j_messenger.Store.{Store, Context, MessageRow, DedupRow}
use j_messenger.Messages.{MessageOutput, CreateInput, is_message, is_dedup, create_in}
use j_messenger.Messages.Replay.{create_in_used}
use j_messenger.Messages.Purge.{expire_rows, expire_message, drop_files}

expired_key :
    (server key : String) (sender now : ℕ) (rows : List DedupRow) (q : DedupRow)
    → select_one (is_dedup server sender key) (
        update
          (λ (r : DedupRow). is_dedup server sender key r && not (is_some r.expired_at))
          (λ r. record r { expired_at = some now })
          rows)
      ≡ some q
    → is_some q.expired_at ≡ true
expired_key server key sender now [] q e = cc
expired_key server key sender now (r ∷ rows) q e =
    ground (arith, expired_key server key sender now rows q)

expired_text :
    (server : String) (id : ℕ) (rows : List MessageRow) (q : MessageRow)
    → select_one (is_message server id) (
        update
          (λ (r : MessageRow). is_message server id r && not r.content_expired)
          (λ r. record r { text = none; content_expired = true })
          rows)
      ≡ some q
    → q.content_expired ≡ true
expired_text server id [] q e = cc
expired_text server id (r ∷ rows) q e = ground (arith, expired_text server id rows q)

-- Once a message has expired its row says so, and a request under the key of the message does not
-- succeed, for as long as the key is kept: the message is not stored a second time.
pub expire_message-final :
    (server : String) (r q : MessageRow) (prior : DedupRow) (now later conversation : ℕ)
    (c : Context) (i : CreateInput) (s t : Store) (x : (MessageOutput × Bool) × Store)
    → expire_message server r now s ≡ t
    → c.server_id ≡ server
    → c.user_id ≡ r.sender_id
    → i.client_message_id ≡ r.client_message_id
    → select_one (is_message server r.id) t.messages ≡ some q
    → select_one (is_dedup server r.sender_id r.client_message_id) t.dedup ≡ some prior
    → (q.content_expired ≡ true) × (create_in c conversation i later t ≢ ok x)
unfolding expire_message expire_rows drop_files
expire_message-final server r q prior now later conversation c i s t x gone sv us key there kept =
    let key_expired : is_some prior.expired_at ≡ true =
      expired_key server r.client_message_id r.sender_id now s.dedup prior (ground arith) in
    (
      expired_text server r.id s.messages q (ground arith),
      λ e. ground (arith, create_in_used c conversation i later t prior x.0.0 x.0.1 x.1),
    )
