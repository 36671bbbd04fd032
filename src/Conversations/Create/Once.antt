-- ===== src/Conversations/Create/Once.antt =====
-- A conversation is created once: repeated requests find it.
use j_messenger.Common.{
  ◌∙◌, ℕ, suc, ◌≤◌, ◌≡◌, Bool, true, false, [], ◌∷◌, none, some, arith, same, if◌then◌else◌,
  select_one, All, select_one-append, select_one-none, Option-cases, inl, inr,
}
use j_messenger.Common.Results.{ok, err, conflict}
use j_messenger.Store.{Store, Context, ConversationRow, direct, group}
use j_messenger.Conversations.{ConversationDto, is_conversation, dto}
use j_messenger.Conversations.Create.{
  CreateInput, Digest, members, title, pair_of, has_pair, is_request, new_row, new_request,
  insert_conversation, create_new, create_known, create_in,
}

-- No conversation has an id beyond the sequence.
abbrev pub IdsUsed : Store → Type 0
IdsUsed s = All (λ (r : ConversationRow). r.id ≤ s.conversation_seq) s.conversations

module _ (digest : Digest) (c : Context) (i : CreateInput) (now : ℕ) (s : Store)
    (used : IdsUsed s) where
  new_row_read :
      select_one
        (is_conversation c.server_id (suc s.conversation_seq))
        (insert_conversation digest c i now s).conversations
      ≡ some (new_row c i (suc s.conversation_seq) now)
  unfolding insert_conversation
  new_row_read =
      let p = is_conversation c.server_id (suc s.conversation_seq) in
      let fresh =
        select_one-none (λ (r : ConversationRow). r.id ≤ s.conversation_seq) p s.conversations used
          (λ r le. ground arith) in
      select_one-append p s.conversations (new_row c i (suc s.conversation_seq) now ∷ []) fresh
      ∙ ground arith

  -- A new conversation: its row, and the tables with it.
  create_new_lem :
      create_new digest c i now s
      ≡ ok (
        (
          dto c.server_id
              (new_row c i (suc s.conversation_seq) now)
              (insert_conversation digest c i now s),
          true,
        ),
        insert_conversation digest c i now s,
      )
  unfolding create_new
  create_new_lem = rw new_row_read

  pair_read :
      (p : ℕ × ℕ)
      → i.kind ≡ direct
      → pair_of (members c i) ≡ some p
      → select_one (has_pair c.server_id (some p)) s.conversations ≡ none
      → select_one
          (has_pair c.server_id (some p))
          (insert_conversation digest c i now s).conversations
        ≡ some (new_row c i (suc s.conversation_seq) now)
  unfolding insert_conversation
  pair_read p k e missing =
      select_one-append (has_pair c.server_id (some p)) s.conversations
        (new_row c i (suc s.conversation_seq) now ∷ []) missing
      ∙ ground arith

  -- A second request for a direct conversation between the same two users, from either of them and
  -- whatever its key, returns the conversation of the first and changes nothing.
  pub create_in_direct_again :
      (c' : Context) (i' : CreateInput) (now' : ℕ) (p : ℕ × ℕ) (d : ConversationDto) (b : Bool)
      (s' : Store)
      → i.kind ≡ direct
      → i'.kind ≡ direct
      → pair_of (members c i) ≡ some p
      → c'.server_id ≡ c.server_id
      → members c' i' ≡ members c i
      → create_in digest c i now s ≡ ok ((d, b), s')
      → create_in digest c' i' now' s' ≡ ok ((d, false), s')
  unfolding create_in
  create_in_direct_again c' i' now' p d b s' k k' e sv ms done =
      elim (Option-cases (select_one (has_pair c.server_id (some p)) s.conversations)) [
        | inl missing ↦ ground (arith, create_new_lem, pair_read p k e missing)
        | inr (r, found) ↦ ground arith
      ]

  request_read :
      i.kind ≡ group
      → select_one (is_request c.server_id c.user_id i.client_request_id) s.requests ≡ none
      → select_one
          (is_request c.server_id c.user_id i.client_request_id)
          (insert_conversation digest c i now s).requests
        ≡ some (new_request digest c i (suc s.conversation_seq))
  unfolding insert_conversation
  request_read k missing = ground (
    arith,
    select_one-append (is_request c.server_id c.user_id i.client_request_id) s.requests
        (new_request digest c i (suc s.conversation_seq) ∷ []) missing,
  )

  -- A group request that is sent again under its key, by the same user, returns the conversation
  -- of the first and changes nothing, if its payload has the same digest; else it is a conflict.
  pub create_in_group_again :
      (i' : CreateInput) (now' : ℕ) (d : ConversationDto) (b : Bool) (s' : Store)
      → i.kind ≡ group
      → i'.kind ≡ group
      → i'.client_request_id ≡ i.client_request_id
      → create_in digest c i now s ≡ ok ((d, b), s')
      → create_in digest c i' now' s' ≡ (
          if same (digest i.kind (members c i) (title i)) (digest i'.kind (members c i') (title i'))
          then ok ((d, false), s')
          else err conflict)
  unfolding create_in create_known
  create_in_group_again i' now' d b s' k k' key done =
      elim (Option-cases
        (select_one (is_request c.server_id c.user_id i.client_request_id) s.requests)) [
          | inl missing ↦ ground (arith, create_new_lem, request_read k missing, new_row_read)
          | inr (r, found) ↦ ground arith
        ]
