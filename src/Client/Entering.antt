-- ===== src/Client/Entering.antt =====
-- `login` and `sendMessage` of packages/client-core/src/index.ts are sequences of steps as well.
use j_messenger.Common.{ℕ, Bool, List, String, select_one, arith, Option-cases, inl, inr}
use j_messenger.Decimal.{Text}
use j_messenger.Messages.{MessageOutput}
use j_messenger.Client.{Client, Pending, of_key}
use j_messenger.Client.Wire.{Arrival, ClientError, receive, Run, return, throw, load_snapshot}
use j_messenger.Client.Catchup.{begin_generation}
use j_messenger.Client.Session.{Entry, set_user, enter, login, abandon, start_stream}
use j_messenger.Client.Send.{
  deliver, send_message, send_failed, mark_failed, retry_found, new_pending, add_pending,
}
use j_messenger.Client.Steps.{
  Reach, stop, next, Reach-trans, merged, entered, streamed, begun, cleared, emptied, added, failed,
  scheduled,
}
use j_messenger.Client.Runs.{IsServed, IsRun, Answer-cases, and_then-IsRun, load_snapshot-IsRun}

retry_found-IsRun : (k : String) (now : ℕ) (c : Client) → Reach c (retry_found k now c)
unfolding retry_found
retry_found-IsRun k now c = elim (Option-cases (select_one (of_key k) c.snapshot.pending)) [
  | inl nothing ↦ ground (arith, stop c)
  | inr (p, found) ↦ ground (arith, next (stop c) (scheduled p now c))
]

send_failed-IsRun :
    (k : String) (e : ClientError) (now : ℕ) (c : Client) → Reach c (send_failed k e now c)
unfolding send_failed
send_failed-IsRun k e now c =
    let marked = next (stop c) (failed k c) in
    ground (arith, marked, next marked (cleared (mark_failed k c)), retry_found-IsRun k now c)

module _ (post : Pending → Client → Arrival MessageOutput)
    (posts : (p : Pending) (c : Client) → Reach c (post p c).client) where
  deliver-IsRun :
      (on_error : ClientError → Client → Client)
      → ((e : ClientError) (c : Client) → Reach c (on_error e c))
      → (g : ℕ) (p : Pending) (c : Client) → IsRun c (deliver post on_error g p c)
  unfolding deliver
  deliver-IsRun on_error errs g p c =
      let a = post p c in
      let there = posts p c in
      elim (Answer-cases (receive c.generation a.reply a.client)) [
        | inl (m, e) ↦ ground (arith, next there (merged m g a.client))
        | inr (x, e) ↦ ground (arith, there, Reach-trans there (errs x a.client))
      ]

  pub send_message-IsRun :
      (conversation : ℕ) (k : String) (text : Text) (files : List String) (now later : ℕ)
      (c : Client)
      → IsRun c (send_message post conversation k text files now later c)
  unfolding send_message
  send_message-IsRun conversation k text files now later c =
      let p = new_pending conversation k text files now in
      let on_error : ClientError → Client → Client = λ e. send_failed k e later in
      elim (Option-cases c.snapshot.user) [
        | inl out ↦ ground (arith, stop c)
        | inr (u, signed_in) ↦ ground (
          arith,
          Reach-trans (next (stop c) (added p c)) (
              deliver-IsRun on_error (λ e d. send_failed-IsRun k e later d) c.generation p
                (add_pending p c)),
        )
      ]

module _ (sockets : Bool) (net : Entry) (sessions : (c : Client) → Reach c (net.session c).client)
    (users : (c : Client) → Reach c (net.me c).client) (served : IsServed net.net) where
  enter-IsRun : (g : ℕ) (c : Client) → IsRun c (enter sockets net g c)
  unfolding enter
  enter-IsRun g c =
      let a = net.me c in
      let there = users c in
      let starts : Client → Run = λ c'. return (start_stream sockets g c') in
      elim (Answer-cases (receive c.generation a.reply a.client)) [
        | inl (u, e) ↦
            let known = next there (entered u a.client) in
            ground (
              arith,
              there,
              and_then-IsRun (load_snapshot net.net 0 g (set_user u a.client)) starts
                  (Reach-trans known (load_snapshot-IsRun net.net served 0 g (set_user u a.client)))
                  (λ c' p. next p (streamed sockets g c')),
            )
        | inr (x, e) ↦ ground (arith, there)
      ]

  abandon-IsRun : (g : ℕ) (b : Client) (r : Run) → IsRun b r → IsRun b (abandon sockets g r)
  unfolding abandon
  abandon-IsRun g b r p = ground (arith, p, next p (emptied g r.client))

  -- A call of `login` is a sequence of steps, if the client takes steps while it waits.
  pub login-IsRun : (c : Client) → IsRun c (login sockets net c)
  unfolding login
  login-IsRun c =
      let c₀ = begin_generation c in
      let a = net.session c₀ in
      let there = Reach-trans (next (stop c) (begun c)) (sessions c₀) in
      elim (Answer-cases (receive c₀.generation a.reply a.client)) [
        | inl (u, e) ↦
            let r = enter sockets net c₀.generation a.client in
            ground (
              arith,
              abandon-IsRun c₀.generation c r
                  (Reach-trans there (enter-IsRun c₀.generation a.client)),
            )
        | inr (x, e) ↦ ground (arith, abandon-IsRun c₀.generation c (throw x a.client) there)
      ]
