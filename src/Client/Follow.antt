-- ===== src/Client/Follow.antt =====
-- `sync` of packages/client-core/src/index.ts against `sync` of
-- apps/server/src/modules/sync/index.ts, over a stream that keeps its range and with no other
-- handler between: the client, given the end of a range, applies the range.
use j_messenger.Common.{
  ℕ, zero, suc, ◌+◌, ◌*◌, ◌≤◌, ◌<◌, ◌≡◌, refl, sym, ap, ◌∙◌, true, false, ◌&&◌, List, ◌++◌, Option,
  none, some, String, arith, ltb, same, if◌then◌else◌, Bool-cases, inl, inr,
}
use j_messenger.Common.Results.{Result, ok, err, ErrorCode, >>=-eq-ok}
use j_messenger.Store.{Context, day}
use j_messenger.Stream.{EventRow, window}
use j_messenger.Stream.Invariant.{IsOrdered}
use j_messenger.Sync
use j_messenger.Sync.{
  Claims, Sealer, Options, Views, Page, Response, Input, page, claims, encode, encode_claims,
  valid_claims, decode_token, decode_after, decode_through,
}
use j_messenger.Sync.Pages.{hydrate_all, page-IsExact}
use j_messenger.Sync.Pull.{IsUnchanged, IsSteady, pull, pull_complete}
use j_messenger.Client.{Client, Event, current, apply_events}
use j_messenger.Client.Place.{place, apply_events-place, apply_events-append, apply_events-current}
use j_messenger.Client.Wire.{
  Network, Reply, answered, refused, SyncPage, SyncQuery, receive, read_body, Run, return, got,
}
use j_messenger.Client.Catchup.{sync_pages, sync_through, take_page, is_broken, recover}

module _ (hydrate : EventRow → Result (Option Event)) where
  -- The body of a response, or the status and code of an error
  abbrev pub as_reply : (ErrorCode → ℕ) → Result (Response hydrate String) → Reply SyncPage
  as_reply status (err e) = refused (status e) (some e)
  as_reply status (ok r) = answered (
      some (record {
        events = r.page.events;
        next_cursor = r.next_cursor;
        has_more = r.page.has_more;
        through = r.through;
        through_position = r.through_position;
        scanned_through = r.page.scanned_through;
      }))

  -- The query of a request, as the server reads it
  abbrev pub as_input : SyncQuery → Input String
  as_input q = record {
    after = some q.after;
    through = if same q.through "" then none else some q.through;
    limit = 100;
  }

  module _ (o : Options String) (ctx : Context) (now : ℕ) (v : ℕ → Views) (status : ErrorCode → ℕ)
      (rest : Network) where
    -- The server as the network that the client sees: request `n` finds the stream as `v n`, and the
    -- client does nothing else while it waits.
    abbrev pub served_by : Network
    served_by = record rest {
      sync_page = λ n q c. record {
        client = c;
        reply = as_reply status (Sync.sync hydrate o ctx (as_input q) now (v n));
      };
    }

    module _ (epoch : String) (through : ℕ) where
      abbrev pub token_at : ℕ → String
      token_at position = o.sealer.seal (claims o ctx position epoch now)

      -- A user for whom the server seals cursors up to the end of the range, while the stream has the
      -- epoch: a signed token opens to its claims, and stays within the length that `decode` reads.
      pub record IsReader : Type 0 where
        pub opens :
            (position : ℕ)
            → position ≤ through
            → o.sealer.unseal (token_at position) ≡ some (claims o ctx position epoch now)
        pub fits : (position : ℕ) → position ≤ through → o.sealer.units (token_at position) ≤ 4096
        pub days : 0 < o.cursor_days
        pub valid : valid_claims (claims o ctx through epoch now) ≡ true
        pub begun : (n : ℕ) → (v n).begun.epoch ≡ epoch

      -- The cursor names the position.
      abbrev pub Opens : String → ℕ → Type 0
      Opens token position = decode_token o.sealer token ctx epoch now ≡ ok position

      module _ (reader : IsReader) where
        encode-token_at :
            (position : ℕ)
            → position ≤ through
            → encode o ctx position epoch now ≡ ok (token_at position)
        unfolding encode encode_claims valid_claims
        encode-token_at position le = ground (arith, reader.valid)

        token_at-Opens : (position : ℕ) → position ≤ through → Opens (token_at position) position
        unfolding decode_token valid_claims
        token_at-Opens position le =
            let alive : ltb now (now + o.cursor_days * day) ≡ true = ground (arith, reader.days) in
            ground (arith, reader.opens position le, reader.fits position le, reader.valid, alive)

        answer-ok :
            (n : ℕ) (q : SyncQuery) (after : ℕ) (p : Page hydrate)
            → same q.through "" ≡ false
            → Opens q.after after
            → Opens q.through through
            → page hydrate o ctx 100 after through epoch (v n) ≡ ok p
            → p.scanned_through ≤ through
            → Sync.sync hydrate o ctx (as_input q) now (v n)
              ≡ ok (record {
                page = p;
                next_cursor = token_at p.scanned_through;
                through = q.through;
                through_position = through;
              })
        unfolding Sync.sync decode_after decode_through
        answer-ok n q after p given at to paged le =
            ground (arith, encode-token_at p.scanned_through le, reader.begun n)

        -- The client's call ends where the events have been applied, at some place.
        abbrev pub IsFollowed : ℕ → List Event → Client → Run → Type 0
        IsFollowed g es c r =
            (cursor : String) × (position : ℕ) × (r
              ≡ return (place cursor position (apply_events g es c)))

        take_page-place :
            (g : ℕ) (r : SyncPage) (c : Client)
            → take_page g r c ≡ place r.next_cursor r.scanned_through (apply_events g r.events c)
        unfolding take_page
        take_page-place g r c = refl

        module _ (g : ℕ) (to : String) (given : same to "" ≡ false) (opens : Opens to through)
            (ordered : (n : ℕ) → IsOrdered (v n).marked) where
          -- The response with a page
          abbrev response : Page hydrate → SyncPage
          response p = record {
            events = p.events;
            next_cursor = token_at p.scanned_through;
            has_more = p.has_more;
            through = to;
            through_position = through;
            scanned_through = p.scanned_through;
          }

          -- What the client receives for its place
          receive-page :
              (n after : ℕ) (cursor : String) (p : Page hydrate) (c : Client)
              → current g c ≡ true
              → Opens cursor after
              → page hydrate o ctx 100 after through epoch (v n) ≡ ok p
              → p.scanned_through ≤ through
              → receive c.generation
                  (as_reply status (
                    Sync.sync hydrate o ctx
                      (as_input (record { after = cursor; through = to }))
                      now
                      (v n)))
                  c
                ≡ got (response p)
          unfolding receive read_body
          receive-page n after cursor p c now_current at paged le = ground (
            arith,
            answer-ok n (record { after = cursor; through = to }) after p given at opens paged le,
          )

          sync_pages-step :
              (left n after : ℕ) (cursor : String) (p : Page hydrate) (c : Client)
              → current g c ≡ true
              → Opens cursor after
              → page hydrate o ctx 100 after through epoch (v n) ≡ ok p
              → p.scanned_through ≤ through
              → is_broken cursor to (some through) (response p) c ≡ false
              → sync_pages served_by (suc left) n g cursor to (some through) c ≡ (
                  if p.has_more
                  then sync_pages served_by left
                      (suc n)
                      g
                      (token_at p.scanned_through)
                      to
                      (some through)
                      (take_page g (response p) c)
                  else return (take_page g (response p) c))
          unfolding sync_pages
          sync_pages-step left n after cursor p c now_current at paged le sound =
              ground (arith, receive-page n after cursor p c now_current at paged le)

          -- A page that the server sends is not broken.
          response_sound :
              (n after : ℕ) (cursor : String) (p : Page hydrate) (c : Client)
              → c.snapshot.snapshot_position ≤ after
              → Opens cursor after
              → page hydrate o ctx 100 after through epoch (v n) ≡ ok p
              → is_broken cursor to (some through) (response p) c ≡ false
          response_sound n after cursor p c behind at paged =
              let x =
                page-IsExact hydrate o ctx 100 after through epoch (v n) p (ground arith)
                  (ordered n) paged in
              let next_opens = token_at-Opens p.scanned_through x.upper in
              let moves : (p.has_more && same (token_at p.scanned_through) cursor) ≡ false =
                elim (Bool-cases p.has_more) [
                  | inl more ↦ ground (arith, next_opens, x.progress more)
                  | inr last ↦ ground arith
                ] in
              ground (arith, x.lower, x.upper, moves)

          take_page-current :
              (p : Page hydrate) (c : Client)
              → current g c ≡ true
              → current g (take_page g (response p) c) ≡ true
          unfolding take_page
          take_page-current p c now_current = apply_events-current g g p.events c ∙ now_current

          take_page-behind :
              (p : Page hydrate) (c : Client)
              → (take_page g (response p) c).snapshot.snapshot_position ≤ p.scanned_through
          unfolding take_page
          take_page-behind p c = omega arith

          place-joined :
              (k : String) (q : ℕ) (p : Page hydrate) (later : List Event) (c : Client)
              → place k q (apply_events g later (take_page g (response p) c))
                ≡ place k q (apply_events g (p.events ++ later) c)
          unfolding take_page
          place-joined k q p later c =
              ap (place k q) (
                apply_events-place g later (token_at p.scanned_through) p.scanned_through
                  (apply_events g p.events c))
              ∙ ap (place k q) (sym (apply_events-append g p.events later c))

          sync_pages-IsFollowed :
              (left n after : ℕ) (cursor : String) (c : Client) (es : List Event)
              → current g c ≡ true
              → c.snapshot.snapshot_position ≤ after
              → Opens cursor after
              → pull hydrate o ctx 100 through epoch v left n after ≡ ok es
              → IsFollowed g es c (sync_pages served_by left n g cursor to (some through) c)
          unfolding pull
          sync_pages-IsFollowed zero n after cursor c es now_current behind at pulled = cc
          sync_pages-IsFollowed (suc left) n after cursor c es now_current behind at pulled =
              let (p, paged, e') =
                >>=-eq-ok (page hydrate o ctx 100 after through epoch (v n)) _ pulled in
              let x =
                page-IsExact hydrate o ctx 100 after through epoch (v n) p (ground arith)
                  (ordered n) paged in
              let c' = take_page g (response p) c in
              let step =
                sync_pages-step left n after cursor p c now_current at paged x.upper
                  (response_sound n after cursor p c behind at paged) in
              elim (Bool-cases p.has_more) [
                | inr last ↦ (
                  token_at p.scanned_through,
                  p.scanned_through,
                  ground (arith, step, take_page-place g (response p) c),
                )
                | inl more ↦
                    let (later, pulled_later, joined) =
                      >>=-eq-ok
                        (pull hydrate o ctx 100 through epoch v left (suc n) p.scanned_through)
                        (λ later. ok (p.events ++ later)) {end = es} (ground arith) in
                    let (k, q, followed) =
                      sync_pages-IsFollowed left (suc n) p.scanned_through
                        (token_at p.scanned_through) c' later (take_page-current p c now_current)
                        (take_page-behind p c) (token_at-Opens p.scanned_through x.upper)
                        pulled_later in
                    (k, q, ground (arith, step, followed, joined, place-joined k q p later c))
              ]

          -- A call of `sync` with a place, which its cursor names and which is not behind the
          -- client's position, and with the end of a range of at most 499 positions, which a
          -- cursor names too: it ends without an error, having applied exactly the user's events
          -- of the range, in their order and each once, whatever is appended behind the range
          -- between its requests. This is for a client of the current session in which no other
          -- handler runs meanwhile, and a server whose clock stands still during the call, whose
          -- scan limit is from 1 to 1000, which seals the claims of this user in cursors that
          -- open to them and are short enough to be read, and which always hydrates. At every
          -- request its stream is in the order of its ids, reaches to the end of the range, which
          -- is an id of SQLite, has the same epoch and the same events of the user's server in
          -- the range, and has not been pruned behind the place.
          pub sync_through_complete :
              (rows : List EventRow) (n after : ℕ) (cursor : String) (c : Client)
              → ((m : ℕ) → IsSteady hydrate o through epoch (v m))
              → ((m : ℕ) → IsUnchanged ctx.server_id through rows (v m))
              → ((r : EventRow) → (x : Option Event) × (hydrate r ≡ ok x))
              → current g c ≡ true
              → c.snapshot.snapshot_position ≤ after
              → same cursor "" ≡ false
              → Opens cursor after
              → after ≤ through
              → ((m : ℕ) → (v m).marked.min_valid_position ≤ after)
              → through < 500 + after
              → (es : List Event) × (hydrate_all hydrate (window ctx.server_id after through rows)
                  ≡ ok es)
                × IsFollowed g es c (sync_through served_by n g cursor to through c)
          unfolding sync_through recover
          sync_through_complete rows n after cursor c steady unchanged answers now_current behind
                some_text at le kept reach =
              let (es, pulled, exact) =
                pull_complete hydrate answers o ctx 100 through epoch v steady ordered
                  (ground arith) rows 500 n after unchanged le kept reach in
              let (k, q, followed) =
                sync_pages-IsFollowed 500 n after cursor c es now_current behind at pulled in
              (es, exact, (k, q, ground (arith, followed)))
