-- ===== src/Jobs/Enqueue.antt =====
-- `enqueue` of apps/server/src/platform/jobs/index.ts: what a job must look like, and its row.
use j_messenger.Common.{
  ℕ, Bool, true, false, not, ◌&&◌, ◌||◌, List, [], ◌∷◌, ◌++◌, Option, none, some, String, ltb, leb,
  ◌==◌, same, if◌then◌else◌, is_some, or_else, select_one, exists, every,
}
use j_messenger.Common.Results.{Result, ok, conflict, internal, unavailable, throw_if, ◌>>◌}
use j_messenger.Names.{codes, valid_server_id, valid_uuid, utf16_length}
use j_messenger.Jobs.{JobRow, pending, opt}

abbrev lower : ℕ → Bool
lower c = leb b'a' c && leb c b'z'

abbrev lower_or_digit : ℕ → Bool
lower_or_digit c = lower c || (leb b'0' c && leb c b'9')

-- The rest of a kind, where a separator has just been read or not.
kind_rest : Bool → List ℕ → Bool
kind_rest separated [] = not separated
kind_rest separated (c ∷ cs) =
    if lower_or_digit c
    then kind_rest false cs
    else not separated && (c == b'.' || c == b'-') && kind_rest true cs

starts_lower : List ℕ → Bool
unfolding kind_rest
starts_lower [] = false
starts_lower (c ∷ cs) = lower c && kind_rest false cs

-- `validateKind`
unfoldable pub valid_kind : String → Bool
unfolding starts_lower
valid_kind k = starts_lower (codes k) && leb (utf16_length k) 80

-- `!dedupKey || dedupKey.length > 256 || /[\r\n\u0000-\u001f]/.test(dedupKey)`, negated
unfoldable pub valid_dedup_key : String → Bool
valid_dedup_key k =
    leb 1 (utf16_length k) && leb (utf16_length k) 256 && every (λ c. ltb 0x1f c) (codes k)

pub record EnqueueInput : Type 0 where
  pub id : Option String
  pub server_id : Option String
  pub kind : String
  pub payload : String
  pub request_id : Option String
  pub dedup_key : Option String

abbrev pub has_key : String → Option String → JobRow → Bool
has_key server none r = false
has_key server (some k) r =
    same r.server_id server && opt (same k) r.dedup_key && is_some r.dedup_key

-- The checks of `enqueue`.
unfoldable pub valid_input : EnqueueInput → Bool
valid_input i =
    valid_kind i.kind
    && opt valid_server_id i.server_id
    && opt valid_uuid i.id
    && opt valid_uuid i.request_id
    && opt valid_dedup_key i.dedup_key

abbrev pub new_job : (String → String) → EnqueueInput → String → ℕ → JobRow
new_job hash i id now = record {
  id = id;
  server_id = or_else i.server_id "";
  kind = i.kind;
  payload_json = i.payload;
  payload_hash = hash i.payload;
  request_id = i.request_id;
  dedup_key = i.dedup_key;
  status = pending;
  attempt = 0;
  next_run_at = now;
  lease_owner = none;
  lease_until = none;
  reason_code = none;
  created_at = now;
  updated_at = now;
}

-- `enqueue`; `uuid` is what the id factory gives, `hash` is SHA-256.
unfoldable pub enqueue :
    (String → String) → String → EnqueueInput → ℕ → List JobRow → Result (String × List JobRow)
enqueue hash uuid i now jobs = do
  throw_if (not (valid_input i)) internal
  elim (select_one (has_key (or_else i.server_id "") i.dedup_key) jobs) [
    | some r ↦ do
      throw_if (not (same r.kind i.kind) || not (same r.payload_hash (hash i.payload))) conflict
      ok (r.id, jobs)
    | none ↦ do
      throw_if (not (valid_uuid (or_else i.id uuid))) internal
      throw_if (exists (λ (r : JobRow). same r.id (or_else i.id uuid)) jobs) unavailable
      ok (or_else i.id uuid, jobs ++ new_job hash i (or_else i.id uuid) now ∷ [])
  ]
