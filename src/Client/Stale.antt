-- ===== src/Client/Stale.antt =====
-- A call of `sync` that is still waiting when its session is over, and one whose reset fails, in
-- packages/client-core/src/index.ts.
use j_messenger.Common.{
  ℕ, suc, ◌+◌, ◌≡◌, refl, true, false, List, [], ◌∷◌, Option, none, some, String, same, sym, subst,
  ap, ◌∙◌, arith,
}
use j_messenger.Common.Results.{unauthorized, sync_reset_required}
use j_messenger.Client.{Client, Snapshot, Event, current, empty_snapshot}
use j_messenger.Client.Wire.{
  Network, answered, refused, lost, SyncPage, ClientError, network, from_server, Run, return, throw,
  and_then, receive, threw, read_body, Arrival, load_snapshot,
}
use j_messenger.Client.Catchup.{
  sync_pages, sync_open, sync, recover, reset, begin_reset, end_reset, begin_generation,
  close_socket, clear_session,
}
use j_messenger.Client.Session.{Connection, on_event}

-- What the reader sees of a session: its user, messages, conversations and what is on its way.
pub record IsBlank (s : Snapshot) : Type 0 where
  pub no_user : s.user ≡ none
  pub no_messages : s.messages ≡ []
  pub no_conversations : s.conversations ≡ []
  pub nothing_pending : s.pending ≡ []

receive-stale :
    {A : Type 0} (g : ℕ) (body : Option A) (c : Client)
    → current g c ≡ false
    → receive g (answered body) c ≡ threw (from_server unauthorized)
unfolding receive
receive-stale g body c stale = ground arith

-- The first request of `sync`
abbrev asked : Network → ℕ → String → Client → Arrival SyncPage
asked net n cursor c = net.sync_page n (record { after = cursor; through = "" }) c

-- An error of the first request is that of the loop.
sync_pages-threw :
    (net : Network) (left n g : ℕ) (cursor : String) (c : Client) (e : ClientError)
    → receive c.generation (asked net n cursor c).reply (asked net n cursor c).client ≡ threw e
    → sync_pages net (suc left) n g cursor "" none c ≡ throw e (asked net n cursor c).client
unfolding sync_pages
sync_pages-threw net left n g cursor c e threw_e = ground arith

sync-first_threw :
    (net : Network) (n g : ℕ) (cursor : String) (c : Client) (e : ClientError)
    → c.snapshot.sync_cursor ≡ some cursor
    → same cursor "" ≡ false
    → receive c.generation (asked net n cursor c).reply (asked net n cursor c).client ≡ threw e
    → sync net n g c
      ≡ recover net (500 + n) g (close_socket net) (throw e (asked net n cursor c).client)
unfolding sync sync_open
sync-first_threw net n g cursor c e at given threw_e =
    ground (arith, sync_pages-threw net 499 n g cursor c e)

recover-unauthorized :
    (net : Network) (n g : ℕ) (follow : Client → Run) (c : Client)
    → recover net n g follow (throw (from_server unauthorized) c) ≡ return (clear_session c)
unfolding recover
recover-unauthorized net n g follow c = refl

clear_session-IsBlank : (c : Client) → IsBlank (clear_session c).snapshot
unfolding clear_session begin_generation empty_snapshot
clear_session-IsBlank c = record {
  no_user = refl;
  no_messages = refl;
  no_conversations = refl;
  nothing_pending = refl;
}

-- If a request of `sync` is answered after the reader has signed in again, `sync` takes this for the
-- end of the session: it signs the new session out, and its snapshot is empty.
pub sync-stale :
    (net : Network) (n : ℕ) (cursor : String) (c : Client) (body : Option SyncPage)
    → c.snapshot.sync_cursor ≡ some cursor
    → same cursor "" ≡ false
    → current c.generation (asked net n cursor c).client ≡ false
    → (asked net n cursor c).reply ≡ answered body
    → (sync net n c.generation c ≡ return (clear_session (asked net n cursor c).client))
      × IsBlank (sync net n c.generation c).client.snapshot
sync-stale net n cursor c body at given stale late =
    let arrived = (asked net n cursor c).client in
    let unauthorised : receive c.generation (asked net n cursor c).reply arrived
        ≡ threw (from_server unauthorized) =
      ap (λ r. receive c.generation r arrived) late
      ∙ receive-stale c.generation body arrived stale in
    let ends =
      sync-first_threw net n c.generation cursor c (from_server unauthorized) at given unauthorised
      ∙ recover-unauthorized net (500 + n) c.generation (close_socket net) arrived in
    (ends, subst (λ r. IsBlank r.client.snapshot) (sym ends) (clear_session-IsBlank arrived))

-- A frame of the socket, or a call of `sync` by the timer
pub data Input : Type 0 where
  frame : Connection → Event → Input
  tick : Network → ℕ → ℕ → Input

abbrev pub react : Input → Client → Client
react (frame k e) c = on_event k e c
react (tick net n g) c = (sync net n g c).client

unfoldable pub react_all : List Input → Client → Client
react_all [] c = c
react_all (i ∷ is) c = react_all is (react i c)

-- A client without a cursor that holds its events back
record IsStuck (s : Snapshot) (c : Client) : Type 0 where
  no_cursor : c.snapshot.sync_cursor ≡ none
  held : c.bootstrapping ≡ true
  shown : c.snapshot ≡ s

react-IsStuck : (s : Snapshot) (i : Input) (c : Client) → IsStuck s c → IsStuck s (react i c)
unfolding on_event sync sync_open
react-IsStuck s (frame k e) c stuck = record {
  no_cursor = ground (arith, stuck.no_cursor, stuck.held, stuck.shown);
  held = ground (arith, stuck.no_cursor, stuck.held, stuck.shown);
  shown = ground (arith, stuck.no_cursor, stuck.held, stuck.shown);
}
react-IsStuck s (tick net n g) c stuck = record {
  no_cursor = ground (arith, stuck.no_cursor, stuck.held, stuck.shown);
  held = ground (arith, stuck.no_cursor, stuck.held, stuck.shown);
  shown = ground (arith, stuck.no_cursor, stuck.held, stuck.shown);
}

react_all-IsStuck :
    (s : Snapshot) (is : List Input) (c : Client) → IsStuck s c → (react_all is c).snapshot ≡ s
unfolding react_all
react_all-IsStuck s [] c stuck = stuck.shown
react_all-IsStuck s (i ∷ is) c stuck =
    react_all-IsStuck s is (react i c) (react-IsStuck s i c stuck)

load_snapshot-lost :
    (net : Network) (n g : ℕ) (c : Client)
    → (net.conversations n c).reply ≡ lost
    → load_snapshot net n g c ≡ throw network (net.conversations n c).client
unfolding load_snapshot receive
load_snapshot-lost net n g c gone = ground arith

begin_reset-IsStuck : (g : ℕ) (c : Client) → IsStuck (begin_reset g c).snapshot (begin_reset g c)
unfolding begin_reset empty_snapshot
begin_reset-IsStuck g c = record { no_cursor = refl; held = refl; shown = refl }

receive-refused :
    {A : Type 0} (g status : ℕ) (c : Client)
    → current g c ≡ true
    → receive {A = A} g (refused status (some sync_reset_required)) c
      ≡ threw (from_server sync_reset_required)
unfolding receive read_body
receive-refused g status c still = ground arith

recover-reset_lost :
    (net : Network) (n g : ℕ) (follow : Client → Run) (c : Client)
    → load_snapshot net n g (begin_reset g c) ≡ throw network (begin_reset g c)
    → recover net n g follow (throw (from_server sync_reset_required) c)
      ≡ throw network (begin_reset g c)
unfolding recover reset
recover-reset_lost net n g follow c gone =
    ap (λ r. and_then r (λ c₁. and_then (follow c₁) (λ c₂. return (end_reset g c₂)))) gone

-- If the server asks for a reset and the connection is lost when `sync` loads the conversations,
-- nothing else happening meanwhile, the client shows no messages from then on, whatever events its
-- socket brings and however often its timer calls `sync`.
pub sync-reset_lost :
    (net : Network) (n status : ℕ) (cursor : String) (c : Client) (is : List Input)
    → c.snapshot.sync_cursor ≡ some cursor
    → same cursor "" ≡ false
    → current c.generation (asked net n cursor c).client ≡ true
    → (asked net n cursor c).reply ≡ refused status (some sync_reset_required)
    → (net.conversations (500 + n) (begin_reset c.generation (asked net n cursor c).client)).client
      ≡ begin_reset c.generation (asked net n cursor c).client
    → (net.conversations (500 + n) (begin_reset c.generation (asked net n cursor c).client)).reply
      ≡ lost
    → (react_all is (sync net n c.generation c).client).snapshot.messages ≡ []
unfolding begin_reset empty_snapshot
sync-reset_lost net n status cursor c is at given still asks idle gone =
    let arrived = (asked net n cursor c).client in
    let g = c.generation in
    let blank = begin_reset g arrived in
    let refuses : receive g (asked net n cursor c).reply arrived
        ≡ threw (from_server sync_reset_required) =
      ap (λ r. receive g r arrived) asks ∙ receive-refused g status arrived still in
    let lost_load : load_snapshot net (500 + n) g blank ≡ throw network blank =
      load_snapshot-lost net (500 + n) g blank gone ∙ ap (throw network) idle in
    let ends : sync net n g c ≡ throw network blank =
      sync-first_threw net n g cursor c (from_server sync_reset_required) at given refuses
      ∙ recover-reset_lost net (500 + n) g (close_socket net) arrived lost_load in
    ap (λ (s : Snapshot). s.messages)
      (subst (λ r. (react_all is r.client).snapshot ≡ blank.snapshot) (sym ends)
        (react_all-IsStuck blank.snapshot is blank (begin_reset-IsStuck g arrived)))
