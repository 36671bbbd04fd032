-- ===== src/Client/Session.antt =====
-- `connect`, `login`, `resumeSession`, `logout`, `scheduleSync` and `dispose`, and the handlers of a
-- socket's frames, in packages/client-core/src/index.ts.
use j_messenger.Common.{
  ℕ, suc, Bool, true, false, not, ◌||◌, [], ◌∷◌, ◌++◌, none, some, String, ◌==◌, same,
  if◌then◌else◌, or_else,
}
use j_messenger.Common.Results.{unauthorized, unavailable}
use j_messenger.Client.{Client, CurrentUser, Event, current, publish, empty_snapshot, apply_event}
use j_messenger.Client.Wire.{
  from_server, network, lost, timed_out, refused, got, threw, receive, Arrival, Network, Run,
  return, throw, and_then, load_snapshot,
}
use j_messenger.Client.Catchup.{
  disconnect, begin_generation, clear_session, apply_buffered, sync_through, sync_open,
}

-- The variables of one connection.
pub record Connection : Type 0 where
  pub generation : ℕ
  pub ready : Bool
  pub syncing : Bool

-- The frame of an event
unfoldable pub on_event : Connection → Event → Client → Client
on_event k e c =
    if not (current k.generation c)
    then c
    else if not k.ready || k.syncing || c.bootstrapping
    then record c { buffered = c.buffered ++ e ∷ [] }
    else apply_event k.generation e c

-- The requests of a session's beginning, POST /session and GET /me, with the replies of the rest
pub record Entry : Type 0 where
  pub session : Client → Arrival (Unit {0})
  pub me : Client → Arrival CurrentUser
  pub net : Network

abbrev pub set_user : CurrentUser → Client → Client
set_user u c = record c { snapshot = record c.snapshot { user = some u } }

module _ (sockets : Bool) where
  -- `connect`, where the application has a socket factory or has none
  unfoldable pub connect : ℕ → Client → Client
  connect g c =
      if not sockets || not (current g c) then c else record (disconnect c) { socket = true }

  -- `scheduleSync`
  abbrev pub schedule_sync : Client → Client
  schedule_sync c = record c { sync_timer = true }

  unfoldable pub start_stream : ℕ → Client → Client
  start_stream g c = if current g c then schedule_sync (connect g c) else c

  -- From GET /me to the end of the `try`
  unfoldable pub enter : Entry → ℕ → Client → Run
  enter net g c =
      let a = net.me c in
      elim (receive c.generation a.reply a.client) [
        | threw e ↦ throw e a.client
        | got u ↦ elim (current g a.client) [
          | false ↦ return a.client
          | true ↦
              and_then (load_snapshot net.net 0 g (set_user u a.client))
                (λ c'. return (start_stream g c'))
        ]
      ]

  -- The `catch` of `login`: nothing, if another generation has begun
  unfoldable pub abandon : ℕ → Run → Run
  abandon g r = elim r.thrown [
    | none ↦ r
    | some e ↦
        if current g r.client
        then throw e (publish (empty_snapshot g) r.client)
        else return r.client
  ]

  -- The `catch` of `resumeSession`: to be signed out is no error
  unfoldable pub abandon_resume : ℕ → Run → Run
  abandon_resume g r = elim r.thrown [
    | none ↦ r
    | some (from_server unauthorized) ↦
        return (if current g r.client then publish (empty_snapshot g) r.client else r.client)
    | some e ↦
        if current g r.client
        then throw e (publish (empty_snapshot g) r.client)
        else return r.client
  ]

  -- `login`
  unfoldable pub login : Entry → Client → Run
  login net c =
      let c₀ = begin_generation c in
      let g = c₀.generation in
      let a = net.session c₀ in
      abandon g (elim (receive g a.reply a.client) [
        | threw e ↦ throw e a.client
        | got u ↦ enter net g a.client
      ])

  -- `resumeSession`
  unfoldable pub resume_session : Entry → Client → Run
  resume_session net c =
      let c₀ = begin_generation c in abandon_resume c₀.generation (enter net c₀.generation c₀)

-- `logout`: the client when the reply to DELETE /session is there, whatever it is
unfoldable pub logout : (Client → Arrival (Unit {0})) → Client → Run
logout revoke c =
    let a = revoke (clear_session c) in
    elim a.reply [
      | refused status code ↦ elim (status == 401) [
        | true ↦ return a.client
        | false ↦ throw (from_server unavailable) a.client
      ]
      | lost ↦ throw network a.client
      | timed_out ↦ throw network a.client
      | _ ↦ return a.client
    ]

-- `dispose`
unfoldable pub dispose : Client → Client
dispose c =
    let c₁ = record c { disposed = true; generation = suc c.generation } in
    record (disconnect c₁) {
      message_retry_timers = [];
      message_retry_attempts = [];
      sync_timer = false;
    }

-- The frame `ready`, until its work is done: whether the handler closes the socket
module _ (net : Network) where
  ready_work : ℕ → String → ℕ → Client → Run
  ready_work g high_water position c =
      let old = or_else c.snapshot.sync_cursor "" in
      let c₁ = record c { bootstrapping = same old "" } in
      if same old ""
      then and_then (load_snapshot net 0 g c₁) (λ c₂.
        let c₃ = record c₂ {
          snapshot = record c₂.snapshot {
            sync_cursor = some high_water;
            snapshot_position = position;
          };
        } in
        sync_open net 2 g high_water (if current g c₂ then c₃ else c₂))
      else sync_through net 0 g old high_water position c₁

  unfoldable pub on_ready : ℕ → String → ℕ → Client → Client × Bool
  unfolding ready_work
  on_ready g high_water position c =
      if not (current g c)
      then (c, false)
      else let r = ready_work g high_water position c in
        elim r.thrown [
          | none ↦
              let c' = record (apply_buffered g r.client) { bootstrapping = false } in
              (if current g r.client then c' else r.client, false)
          | some e ↦ (record r.client { bootstrapping = false }, current g r.client)
        ]
