-- ===== src/Client/Send.antt =====
-- `sendMessage`, `retryMessage` and `scheduleMessageRetry`, in packages/client-core/src/index.ts.
use j_messenger.Common.{
  ℕ, suc, ◌-◌, ◌*◌, Bool, true, false, not, ◌||◌, List, [], ◌∷◌, ◌++◌, none, some, String, leb, ltb,
  same, if◌then◌else◌, is_some, update, exists, select_one,
}
use j_messenger.Common.Results.{
  bad_request, unauthorized, forbidden, not_found, conflict, message_expired,
}
use j_messenger.Decimal.{Text}
use j_messenger.Messages.{MessageOutput}
use j_messenger.Store.{day}
use j_messenger.Client.{
  Client, Pending, SendState, current, of_key, remove_text, remove_attempts, merge_message,
}
use j_messenger.Client.Wire.{
  ClientError, from_server, got, threw, receive, Arrival, Run, return, throw,
}
use j_messenger.Client.Catchup.{clear_session}

-- The age from which a message is no longer sent, 7 × 86 400 000 ms.
abbrev pub give_up_age : ℕ
give_up_age = 7 * day

abbrev fail_item : Pending → Pending
fail_item p = record p { state = SendState.failed }

unfoldable pub mark_failed : String → Client → Client
mark_failed k c = record c {
  snapshot = record c.snapshot { pending = update (of_key k) fail_item c.snapshot.pending };
}

-- `messageRetryAttempts.get(k) ?? 0`
unfoldable pub attempts_of : String → List (String × ℕ) → ℕ
attempts_of k [] = 0
attempts_of k ((j, n) ∷ ps) = if same j k then n else attempts_of k ps

-- `messageRetryAttempts.set(k, n)`
abbrev set_attempts : String → ℕ → List (String × ℕ) → List (String × ℕ)
set_attempts k n ps = (k, n) ∷ remove_attempts k ps

-- `scheduleMessageRetry` at `now`
unfoldable pub schedule_message_retry : Pending → ℕ → Client → Client
schedule_message_retry p now c =
    let k = p.client_message_id in
    if not (is_some c.snapshot.user) || exists (same k) c.message_retry_timers
    then c
    else if leb give_up_age (now - p.created_at)
    then mark_failed k c
    else record c {
      message_retry_attempts =
          set_attempts k (suc (attempts_of k c.message_retry_attempts)) c.message_retry_attempts;
      message_retry_timers = k ∷ c.message_retry_timers;
    }

-- The errors after which a message is not sent again.
abbrev pub is_permanent : ClientError → Bool
is_permanent (from_server conflict) = true
is_permanent (from_server message_expired) = true
is_permanent (from_server unauthorized) = true
is_permanent (from_server forbidden) = true
is_permanent (from_server not_found) = true
is_permanent (from_server bad_request) = true
is_permanent _ = false

-- The errors on which a retry marks the message as failed.
abbrev pub ends_retry : ClientError → Bool
ends_retry (from_server conflict) = true
ends_retry (from_server message_expired) = true
ends_retry (from_server unauthorized) = true
ends_retry _ = false

abbrev pub is_unauthorized : ClientError → Bool
is_unauthorized (from_server unauthorized) = true
is_unauthorized _ = false

-- `snapshot.pending.find(…)`, and a retry of what it finds
unfoldable pub retry_found : String → ℕ → Client → Client
retry_found k now c = elim (select_one (of_key k) c.snapshot.pending) [
  | none ↦ c
  | some p ↦ schedule_message_retry p now c
]

-- The `catch` of `sendMessage`
unfoldable pub send_failed : String → ClientError → ℕ → Client → Client
send_failed k e now c =
    if is_permanent e
    then (if is_unauthorized e then clear_session (mark_failed k c) else mark_failed k c)
    else retry_found k now c

-- The `catch` of `retryMessage`
unfoldable pub retry_failed : String → ClientError → ℕ → Client → Client
retry_failed k e now c =
    let c' = if ends_retry e then mark_failed k c else c in
    if is_unauthorized e
    then clear_session c'
    else if is_permanent e
    then c'
    else retry_found k now c'

abbrev pub new_pending : ℕ → String → Text → List String → ℕ → Pending
new_pending conversation k text files now = record {
  conversation_id = conversation;
  client_message_id = k;
  text = text;
  file_ids = files;
  created_at = now;
  state = SendState.pending;
}

abbrev pub add_pending : Pending → Client → Client
add_pending p c = record c {
  snapshot = record c.snapshot { pending = c.snapshot.pending ++ p ∷ [] };
}

-- POST /conversations/…/messages: the client when the reply is there, its clock then, and the reply
module _ (post : Pending → Client → Arrival MessageOutput) where
  -- From the request to the end, with what the `catch` does
  unfoldable pub deliver : (ClientError → Client → Client) → ℕ → Pending → Client → Run
  deliver on_error g p c =
      let a = post p c in
      elim (receive c.generation a.reply a.client) [
        | got m ↦ return (merge_message m g a.client)
        | threw e ↦ elim (current g a.client) [
          | false ↦ return a.client
          | true ↦ throw e (on_error e a.client)
        ]
      ]

  -- `sendMessage` at `now`, with the fresh key `k`; the reply comes at `later`
  unfoldable pub send_message : ℕ → String → Text → List String → ℕ → ℕ → Client → Run
  send_message conversation k text files now later c =
      let p = new_pending conversation k text files now in
      elim c.snapshot.user [
        | none ↦ throw (from_server unauthorized) c
        | some u ↦ deliver (λ e. send_failed k e later) c.generation p (add_pending p c)
      ]

  pub retry_item : String → ℕ → ℕ → Pending → Client → Run
  retry_item k now later p c =
      if leb give_up_age (now - p.created_at)
      then return (mark_failed k c)
      else deliver (λ e. retry_failed k e later) c.generation p c

  -- `retryMessage`
  unfoldable pub retry_message : String → ℕ → ℕ → Client → Run
  unfolding retry_item
  retry_message k now later c = elim (select_one (of_key k) c.snapshot.pending) [
    | none ↦ return c
    | some p ↦ if is_some c.snapshot.user then retry_item k now later p c else return c
  ]

  -- The timer of `scheduleMessageRetry`, for the item and the generation that it was set for
  unfoldable pub retry_due : Pending → ℕ → ℕ → ℕ → Client → Client
  retry_due p g now later c =
      let k = p.client_message_id in
      let c' = record c { message_retry_timers = remove_text k c.message_retry_timers } in
      if not (current g c')
      then c'
      else if ltb (now - p.created_at) give_up_age
      then (retry_message k now later c').client
      else mark_failed k c'
