-- ===== src/Sync.antt =====
-- apps/server/src/modules/sync/index.ts: pages of events, and the cursors that name a place in the
-- stream. The tables can change where the code awaits; `Views` has them at each of those points.
pub mod Cursor
pub mod Limits
pub mod Pages
pub mod Pull
use j_messenger.Common.{
  ℕ, ◌+◌, ◌*◌, Bool, true, false, not, ◌&&◌, ◌||◌, List, [], ◌∷◌, ◌++◌, Option, none, some, String,
  leb, ltb, ◌==◌, same, if◌then◌else◌, length,
}
use j_messenger.Common.Results.{
  Result, ok, err, ErrorCode, bad_request, internal, sync_reset_required, or_throw, throw_if, ◌>>=◌,
  ◌>>◌,
}
use j_messenger.Decimal.{max_sqlite_id}
use j_messenger.Names.{valid_server_id, utf16_length}
use j_messenger.Store.{Context, day}
use j_messenger.Stream.{EventRow, Stream, ScanPage, high_watermark, scan}

-- `CursorClaims`; the position and the user id are the numbers of their texts.
pub record Claims : Type 0 where
  pub server_id : String
  pub user_id : ℕ
  pub epoch : String
  pub position : ℕ
  pub expires_at : ℕ

-- The signed token of some claims, what a token with a good signature says, and the length of its
-- text: JSON, base64url and HMAC-SHA256 under the server's key. The texts are the type `T`.
pub record Sealer (T : Type 0) : Type 0 where
  pub seal : Claims → T
  pub unseal : T → Option Claims
  pub units : T → ℕ

-- The last time that an ISO text with a year of four digits can name.
abbrev last_time : ℕ
last_time = 253402300799999

abbrev valid_epoch : String → Bool
valid_epoch e = leb 1 (utf16_length e) && leb (utf16_length e) 128

-- What `encode` requires.
unfoldable pub valid_claims : Claims → Bool
valid_claims k =
    valid_server_id k.server_id
    && leb 1 k.user_id
    && valid_epoch k.epoch
    && leb k.position max_sqlite_id
    && leb k.expires_at last_time

-- `encode` of the codec
unfoldable pub encode_claims : {T : Type 0} → Sealer T → Claims → Result T
encode_claims z k = do throw_if (not (valid_claims k)) internal; ok (z.seal k)

-- `decode` of the codec, for a request at `now` while the stream has the given epoch
unfoldable pub decode_token : {T : Type 0} → Sealer T → T → Context → String → ℕ → Result ℕ
decode_token z token c epoch now = do
  throw_if (ltb 4096 (z.units token)) bad_request
  k ← or_throw (z.unseal token) bad_request
  throw_if
      (not (
        same k.server_id c.server_id
        && k.user_id == c.user_id
        && valid_epoch k.epoch
        && leb k.position max_sqlite_id
        && leb k.expires_at last_time))
      bad_request
  throw_if (not (same k.epoch epoch) || leb k.expires_at now) sync_reset_required
  ok k.position

-- The options of `createSyncService`.
pub record Options (T : Type 0) : Type 0 where
  pub sealer : Sealer T
  pub cursor_days : ℕ
  pub scan_limit : ℕ

-- The limits that `createSyncService` accepts.
unfoldable pub valid_options : {T : Type 0} → Options T → Bool
valid_options o =
    leb 1 o.cursor_days && leb o.cursor_days 30 && leb 1 o.scan_limit && leb o.scan_limit 5000

abbrev pub claims : {T : Type 0} → Options T → Context → ℕ → String → ℕ → Claims
claims o c position epoch now = record {
  server_id = c.server_id;
  user_id = c.user_id;
  epoch = epoch;
  position = position;
  expires_at = now + o.cursor_days * day;
}

-- `encode` of the service
unfoldable pub encode : {T : Type 0} → Options T → Context → ℕ → String → ℕ → Result T
encode o c position epoch now = encode_claims o.sealer (claims o c position epoch now)

-- `initialCursor`
unfoldable pub initial_cursor : {T : Type 0} → Options T → Context → ℕ → Stream → Result T
initial_cursor o c now s = encode o c 0 s.epoch now

-- `ready`: the stream when the call begins, and when the high watermark has come back
unfoldable pub ready : {T : Type 0} → Options T → Context → ℕ → Stream → Stream → Result (T × ℕ)
ready o c now begun marked = do
  let position = high_watermark begun
  throw_if (not (same marked.epoch begun.epoch)) sync_reset_required
  cursor ← encode o c position begun.epoch now
  ok (cursor, position)

-- The stream as the call finds it: at its beginning, once the high watermark has come back (the scan
-- reads it there as well), and at its end.
pub record Views : Type 0 where
  pub begun : Stream
  pub marked : Stream
  pub ended : Stream

pub record Input (T : Type 0) : Type 0 where
  pub after : Option T
  pub through : Option T
  pub limit : ℕ

abbrev pub nonempty {ℓ} : {A : Type ℓ} → List A → Bool
nonempty [] = false
nonempty (x ∷ xs) = true

abbrev pub push {ℓ} : {A : Type ℓ} → List A → Option A → List A
push xs none = xs
push xs (some x) = xs ++ x ∷ []

-- The position that a cursor names; without one, the beginning.
unfoldable pub decode_after : {T : Type 0} → Options T → Context → Option T → String → ℕ → Result ℕ
decode_after o c none epoch now = ok 0
decode_after o c (some token) epoch now = decode_token o.sealer token c epoch now

-- The end of the range: a cursor from an earlier page, or the high watermark.
unfoldable pub decode_through :
    {T : Type 0} → Options T → Context → Option T → String → ℕ → Views → Result (T × ℕ)
decode_through o c none epoch now v = do
  throw_if (not (same v.marked.epoch epoch)) sync_reset_required
  token ← encode o c (high_watermark v.begun) epoch now
  ok (token, high_watermark v.begun)
decode_through o c (some token) epoch now v = do
  position ← decode_token o.sealer token c epoch now
  ok (token, position)

module _ {E : Type 0} (hydrate : EventRow → Result (Option E)) where
  -- The loop over the scanned rows: the events so far, and where it stopped with whether rows remain.
  unfoldable pub collect : ℕ → List E → List EventRow → Result (List E × Option (ℕ × Bool))
  collect limit events [] = ok (events, none)
  collect limit events (r ∷ rs) = do
    event ← hydrate r
    elim (length (push events event) == limit) [
      | true ↦ ok (push events event, some (r.id, nonempty rs))
      | false ↦ collect limit (push events event) rs
    ]

  pub record Page : Type 0 where
    pub events : List E
    pub has_more : Bool
    pub scanned_through : ℕ

  -- Where the next page begins, and whether there is one.
  unfoldable pub finish_page : List E → Option (ℕ × Bool) → ScanPage → Page
  finish_page events (some (id, true)) p = record {
    events = events;
    has_more = true;
    scanned_through = id;
  }
  finish_page events (some (id, false)) p = record {
    events = events;
    has_more = p.has_more;
    scanned_through = p.scanned_through;
  }
  finish_page events none p = record {
    events = events;
    has_more = p.has_more;
    scanned_through = p.scanned_through;
  }

  -- The page between two positions, from the checks on the positions to the end of the loop.
  unfoldable pub page :
      {T : Type 0} → Options T → Context → ℕ → ℕ → ℕ → String → Views → Result Page
  page o c limit after through epoch v = do
    throw_if (not (same v.marked.epoch epoch)) sync_reset_required
    throw_if
        (ltb max_sqlite_id after
          || ltb max_sqlite_id through
          || ltb through after
          || ltb v.marked.seq through)
        bad_request
    throw_if (ltb after v.marked.min_valid_position) sync_reset_required
    p ← scan c.server_id after through o.scan_limit v.marked
    throw_if (ltb p.scanned_through after || ltb through p.scanned_through) internal
    (events, stop) ← collect limit [] p.rows
    throw_if (not (same v.ended.epoch epoch)) sync_reset_required
    ok (finish_page events stop p)

  pub record Response (T : Type 0) : Type 0 where
    pub page : Page
    pub next_cursor : T
    pub through : T
    pub through_position : ℕ

  -- `sync`
  unfoldable pub sync :
      {T : Type 0} → Options T → Context → Input T → ℕ → Views → Result (Response T)
  sync o c i now v = do
    throw_if (ltb i.limit 1 || ltb 100 i.limit) bad_request
    let epoch = v.begun.epoch
    after ← decode_after o c i.after epoch now
    (through, through_position) ← decode_through o c i.through epoch now v
    p ← page o c i.limit after through_position epoch v
    next ← encode o c p.scanned_through epoch now
    ok (record {
      page = p;
      next_cursor = next;
      through = through;
      through_position = through_position;
    })
