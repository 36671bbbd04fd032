-- ===== src/Conversations/Listing.antt =====
-- `list`, `listSnapshot` and `hydrateEvent` of apps/server/src/modules/conversations/index.ts, and the
-- cursors of a list. The JSON of a list cursor and its base64url are a parameter.
pub mod Cursors
pub mod Pages
use j_messenger.Common.{
  ℕ, suc, ◌+◌, ◌*◌, Bool, true, false, not, ◌&&◌, ◌||◌, List, [], ◌∷◌, map, Option, none, some,
  String, ltb, leb, ◌==◌, same, if◌then◌else◌, or_else, length, take, get_last?, last_or, select,
  exists, every,
}
use j_messenger.Common.Results.{
  Result, ok, err, bad_request, unauthorized, not_found, sync_reset_required, throw_if, or_throw,
  ◌>>=◌, ◌>>◌,
}
use j_messenger.Names.{codes}
use j_messenger.Store.{Store, Context, ConversationRow}
use j_messenger.Stream.{EventRow, EventType, conversation_created, high_watermark}
use j_messenger.Sync.{Sealer, Claims, encode_claims, decode_token}
use j_messenger.Identity
use j_messenger.Conversations.{ConversationDto, is_member, dto, assert_context, get}

-- What JSON.parse finds in a list cursor; a field that is no string is `none`.
pub record Fields (T : Type 0) : Type 0 where
  pub snapshot : Option T
  pub max : Option T
  pub after : Option T

-- JSON and base64url of Node: the text of three tokens, and what is read in a text, if it is the JSON of
-- an object
pub record Packing (T : Type 0) : Type 0 where
  pub pack : T → T → T → String
  pub parse : String → Option (Fields T)

abbrev is_url_safe : ℕ → Bool
is_url_safe c =
    (leb b'A' c && leb c b'Z')
    || (leb b'a' c && leb c b'z')
    || (leb b'0' c && leb c b'9')
    || c == b'_'
    || c == b'-'

-- `/^[A-Za-z0-9_-]+$/`
unfoldable pub url_safe : String → Bool
url_safe s = leb 1 (length (codes s)) && every is_url_safe (codes s)

pub record ListClaims : Type 0 where
  pub snapshot_position : ℕ
  pub snapshot_max : ℕ
  pub after : ℕ

pub record ListResult (T : Type 0) : Type 0 where
  pub items : List ConversationDto
  pub next_cursor : Option String
  pub snapshot_cursor : T
  pub snapshot_position : ℕ

-- c.server_id=? AND m.user_id=? AND c.id>? AND c.id<=?, joined with members
abbrev pub is_listed : Context → ℕ → ℕ → Store → ConversationRow → Bool
is_listed c after max s r =
    same r.server_id c.server_id
    && exists (is_member r.server_id r.id c.user_id) s.members
    && ltb after r.id
    && leb r.id max

abbrev is_own : Context → Store → ConversationRow → Bool
is_own c s r =
    same r.server_id c.server_id && exists (is_member r.server_id r.id c.user_id) s.members

abbrev pub row_id : ConversationRow → ℕ
row_id r = r.id

-- SELECT COALESCE(MAX(c.id),0); the table is in the order of the ids
unfoldable pub max_id : Context → Store → ℕ
max_id c s = last_or 0 (map row_id (select (is_own c s) s.conversations))

-- The rows of the query
abbrev pub listed_rows : Context → ℕ → ℕ → ℕ → Store → List ConversationRow
listed_rows c after max limit s =
    take (suc limit) (select (is_listed c after max s) s.conversations)

pub record ListedPage : Type 0 where
  pub rows : List ConversationRow
  pub has_more : Bool

-- `page` and `hasMore`
unfoldable pub list_page : Context → ℕ → ℕ → ℕ → Store → ListedPage
list_page c after max limit s = record {
  rows = take limit (listed_rows c after max limit s);
  has_more = ltb limit (length (listed_rows c after max limit s));
}

module _ {T : Type 0} (z : Sealer T) (k : Packing T) where
  -- `encode`: a cursor of a quarter of an hour
  unfoldable pub encode : Context → ℕ → String → ℕ → Result T
  encode c position epoch now = encode_claims z (record {
    server_id = c.server_id;
    user_id = c.user_id;
    epoch = epoch;
    position = position;
    expires_at = now + 15 * 60000;
  })

  -- The `catch` of `decode`
  abbrev decode_error : Result ℕ → Result ℕ
  decode_error (err sync_reset_required) = err sync_reset_required
  decode_error (err e) = err bad_request
  decode_error (ok position) = ok position

  -- `decode`
  unfoldable pub decode : Context → T → String → ℕ → Result ℕ
  decode c token epoch now = decode_error (decode_token z token c epoch now)

  -- `encodeListCursor`
  unfoldable pub encode_list_cursor : Context → ListClaims → String → ℕ → Result String
  encode_list_cursor c l epoch now = do
    snapshot ← encode c l.snapshot_position epoch now
    max ← encode c l.snapshot_max epoch now
    after ← encode c l.after epoch now
    ok (k.pack snapshot max after)

  -- `decodeListCursor`
  unfoldable pub decode_list_cursor : Context → String → String → ℕ → Result ListClaims
  decode_list_cursor c token epoch now = do
    throw_if (not (url_safe token && leb (length (codes token)) 4096)) bad_request
    value ← or_throw (k.parse token) bad_request
    snapshot_token ← or_throw value.snapshot bad_request
    max_token ← or_throw value.max bad_request
    after_token ← or_throw value.after bad_request
    position ← decode c snapshot_token epoch now
    max ← decode c max_token epoch now
    after ← decode c after_token epoch now
    throw_if (ltb max after) bad_request
    ok (record { snapshot_position = position; snapshot_max = max; after = after })

  -- `prior`, with what the transaction reads where there is no cursor
  unfoldable pub list_claims : Context → Option String → ℕ → Store → Store → Result ListClaims
  list_claims c (some token) now seen s = decode_list_cursor c token seen.stream.epoch now
  list_claims c none now seen s =
      ok (record {
        snapshot_position = high_watermark s.stream;
        snapshot_max = max_id c s;
        after = 0;
      })

  abbrev next_claims : ListClaims → Bool → Option ConversationRow → Option ListClaims
  next_claims l true (some r) = some (record l { after = r.id })
  next_claims l _ _ = none

  abbrev encode_next : Context → Option ListClaims → String → ℕ → Result (Option String)
  encode_next c none epoch now = ok none
  encode_next c (some l) epoch now = do token ← encode_list_cursor c l epoch now; ok (some token)

  abbrev all_dtos : String → List ConversationRow → Store → List ConversationDto
  all_dtos server [] s = []
  all_dtos server (r ∷ rs) s = dto server r s ∷ all_dtos server rs s

  -- `list`: the tables before the transaction, in it, and the epoch of the outbox after it
  unfoldable pub list :
      Context → Option String → ℕ → ℕ → Store → Store → String → Result (ListResult T)
  list c cursor limit now seen s epoch = do
    assert_context c now seen
    throw_if (ltb limit 1 || ltb 100 limit) bad_request
    l ← list_claims c cursor now seen s
    throw_if (not (Identity.session_active c now s)) unauthorized
    let p = list_page c l.after l.snapshot_max limit s
    next ← encode_next c (next_claims l p.has_more (get_last? p.rows)) epoch now
    snapshot ← encode c l.snapshot_position epoch now
    ok (record {
      items = all_dtos c.server_id p.rows s;
      next_cursor = next;
      snapshot_cursor = snapshot;
      snapshot_position = l.snapshot_position;
    })

  -- `listSnapshot`
  unfoldable pub list_snapshot :
      Context → ℕ → ℕ → Store → Store → String → Result (List ConversationDto × T × ℕ)
  list_snapshot c limit now seen s epoch = do
    assert_context c now seen
    throw_if (ltb limit 1 || ltb 100 limit) bad_request
    throw_if (not (Identity.session_active c now s)) unauthorized
    snapshot ← encode c (high_watermark s.stream) epoch now
    ok (
      all_dtos c.server_id (take limit (select (is_own c s) s.conversations)) s,
      snapshot,
      high_watermark s.stream,
    )

is_creation : EventType → Bool
is_creation conversation_created = true
is_creation _ = false

-- `hydrateEvent`: the conversation that the event shows, if the user may see it
unfoldable pub hydrate_event : Context → EventRow → ℕ → Store → Result (Option ConversationDto)
unfolding is_creation
hydrate_event c r now s = elim r.event.conversation_id [
  | none ↦ ok none
  | some id ↦
      if not (is_creation r.event.type)
      then ok none
      else elim (get c id now s) [ ok v ↦ ok (some v) | err not_found ↦ ok none | err e ↦ err e ]
]
