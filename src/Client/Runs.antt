-- ===== src/Client/Runs.antt =====
-- The functions of packages/client-core/src/index.ts that await are sequences of the client's steps,
-- if what happens while they wait is one.
use j_messenger.Common.{
  ℕ, zero, suc, ◌+◌, ◌≡◌, refl, false, Option, none, some, String, or_else, List, arith, ◌⊎◌, inl,
  inr,
}
use j_messenger.Client.{Client}
use j_messenger.Client.Wire.{
  Network, SyncQuery, Answer, got, threw, ClientError, receive, Run, return, and_then,
  load_snapshot, load_messages, ConversationList, list_ids, show_conversations,
}
use j_messenger.Client.Catchup.{
  sync_pages, sync_open, sync_through, sync, recover, reset, begin_reset, take_page, first_text,
  set_cursor, end_reset, close_socket, apply_buffered,
}
use j_messenger.Client.Steps.{
  Reach, stop, next, Reach-trans, paged, listed, loaded, drained, closed, blocked, moved, restarted,
  cleared,
}

-- While a request of the network is under way, the client takes steps.
pub record IsServed (net : Network) : Type 0 where
  pub sync_page : (n : ℕ) (q : SyncQuery) (c : Client) → Reach c (net.sync_page n q c).client
  pub conversations : (n : ℕ) (c : Client) → Reach c (net.conversations n c).client
  pub messages : (n : ℕ) (ids : List ℕ) (c : Client) → Reach c (net.messages n ids c).client

-- A run that starts at `b` ends with a client that steps reach from `b`.
abbrev pub IsRun : Client → Run → Type 0
IsRun b r = Reach b r.client

pub and_then-IsRun :
    {b : Client} (r : Run) (f : Client → Run)
    → IsRun b r
    → ((c : Client) → Reach b c → IsRun b (f c))
    → IsRun b (and_then r f)
and_then-IsRun r f p q = thrown_cases r.client r.thrown f p q
  where
    thrown_cases :
        {b : Client} (c : Client) (t : Option ClientError) (f : Client → Run)
        → Reach b c
        → ((c : Client) → Reach b c → IsRun b (f c))
        → IsRun b (and_then (record { client = c; thrown = t }) f)
    thrown_cases c none f p q = q c p
    thrown_cases c (some e) f p q = p

pub Answer-cases :
    {A : Type 0} (a : Answer A) → ((x : A) × (a ≡ got x)) ⊎ ((e : ClientError) × (a ≡ threw e))
Answer-cases (got x) = inl (x, refl)
Answer-cases (threw e) = inr (e, refl)

module _ (net : Network) (served : IsServed net) where
  load_messages-IsRun :
      (n g : ℕ) (l : ConversationList) (c : Client) → IsRun c (load_messages net n g l c)
  unfolding load_messages
  load_messages-IsRun n g l c =
      let a = net.messages n (list_ids l.items) c in
      let there = served.messages n (list_ids l.items) c in
      elim (Answer-cases (receive c.generation a.reply a.client)) [
        | inl (pages, e) ↦ ground (arith, there, next there (loaded l pages a.client))
        | inr (x, e) ↦ ground (arith, there)
      ]

  pub load_snapshot-IsRun : (n g : ℕ) (c : Client) → IsRun c (load_snapshot net n g c)
  unfolding load_snapshot
  load_snapshot-IsRun n g c =
      let a = net.conversations n c in
      let there = served.conversations n c in
      elim (Answer-cases (receive c.generation a.reply a.client)) [
        | inl (l, e) ↦ ground (
          arith,
          there,
          Reach-trans (next there (listed l a.client))
              (load_messages-IsRun n g l (show_conversations l a.client)),
        )
        | inr (x, e) ↦ ground (arith, there)
      ]

  pub sync_pages-IsRun :
      (left n g : ℕ) (cursor fixed : String) (fixed_position : Option ℕ) (c : Client)
      → IsRun c (sync_pages net left n g cursor fixed fixed_position c)
  unfolding sync_pages
  sync_pages-IsRun zero n g cursor fixed fixed_position c = stop c
  sync_pages-IsRun (suc left) n g cursor fixed fixed_position c =
      let a = net.sync_page n (record { after = cursor; through = fixed }) c in
      let there = served.sync_page n (record { after = cursor; through = fixed }) c in
      elim (Answer-cases (receive c.generation a.reply a.client)) [
        | inl (r, e) ↦
            let taken = next there (paged g r a.client) in
            ground (
              arith,
              there,
              taken,
              Reach-trans taken (
                  sync_pages-IsRun left (suc n) g r.next_cursor (first_text fixed r.through)
                    (some r.through_position) (take_page g r a.client)),
            )
        | inr (x, e) ↦ ground (arith, there)
      ]

  module _ (follow : Client → Run) (follows : (c : Client) → IsRun c (follow c)) where
    reset-IsRun : (n g : ℕ) (c : Client) → IsRun c (reset net n g follow c)
    unfolding reset
    reset-IsRun n g c =
        let loads = load_snapshot-IsRun n g (begin_reset g c) in
        let ends : Client → Run = λ c₂. return (end_reset g c₂) in
        let goes_on : Client → Run = λ c₁. and_then (follow c₁) ends in
        and_then-IsRun (load_snapshot net n g (begin_reset g c)) goes_on
          (Reach-trans (next (stop c) (restarted g c)) loads)
          (λ c₁ p.
            and_then-IsRun (follow c₁) ends (Reach-trans p (follows c₁))
              (λ c₂ q. next (next q (drained g c₂)) (blocked false (apply_buffered g c₂))))

    recover-IsRun :
        (n g : ℕ) (b : Client) (r : Run) → IsRun b r → IsRun b (recover net n g follow r)
    unfolding recover
    recover-IsRun n g b r p =
        ground (arith, p, Reach-trans p (reset-IsRun n g r.client), next p (cleared r.client))

  close_socket-IsRun : (c : Client) → IsRun c (close_socket net c)
  close_socket-IsRun c = next (next (stop c) (moved none c)) (closed (set_cursor none c))

  pub sync_open-IsRun :
      (n g : ℕ) (after : String) (c : Client) → IsRun c (sync_open net n g after c)
  unfolding sync_open
  sync_open-IsRun n g after c =
      let pages = sync_pages net 500 n g after "" none c in
      ground (
        arith,
        stop c,
        recover-IsRun (close_socket net) close_socket-IsRun (500 + n) g c pages
            (sync_pages-IsRun 500 n g after "" none c),
      )

  pub sync_through-IsRun :
      (n g : ℕ) (after through : String) (position : ℕ) (c : Client)
      → IsRun c (sync_through net n g after through position c)
  unfolding sync_through
  sync_through-IsRun n g after through position c =
      let pages = sync_pages net 500 n g after through (some position) c in
      let follow : Client → Run =
        λ c'. sync_open net (502 + n) g through (set_cursor (some through) c') in
      let follows : (c' : Client) → IsRun c' (follow c') = λ c'.
        Reach-trans (next (stop c') (moved (some through) c'))
          (sync_open-IsRun (502 + n) g through (set_cursor (some through) c')) in
      ground (
        arith,
        stop c,
        recover-IsRun follow follows (500 + n) g c pages
            (sync_pages-IsRun 500 n g after through (some position) c),
      )

  -- A call of `sync` is a sequence of steps, whatever the server answers and however often the
  -- stream is reset, if the client takes steps while it waits.
  pub sync-IsRun : (n g : ℕ) (c : Client) → IsRun c (sync net n g c)
  unfolding sync
  sync-IsRun n g c = sync_open-IsRun n g (or_else c.snapshot.sync_cursor "") c
