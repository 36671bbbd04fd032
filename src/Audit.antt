-- ===== src/Audit.antt =====
-- apps/server/src/modules/audit/index.ts: the log of what administrators and the system have done.
-- The metadata of a row is the list of its entries; a number in it is finite.
pub mod Pages
pub mod Falling
use j_messenger.Common.{
  ℕ, zero, suc, ◌-◌, Bool, true, false, not, ◌&&◌, ◌||◌, List, [], ◌∷◌, ◌++◌, map, reverse, Option,
  none, some, String, ltb, leb, ◌==◌, same, if◌then◌else◌, length, take, get_last?, select, delete,
  exists, every,
}
use j_messenger.Common.Results.{Result, ok, bad_request, forbidden, throw_if, ◌>>=◌, ◌>>◌}
use j_messenger.Names.{codes, valid_server_id, utf16_length}
use j_messenger.Decimal.{is_positive_text}
use j_messenger.Store.{Context}

-- A value of the metadata
pub data Value : Type 0 where
  null : Value
  flag : Bool → Value
  number : ℕ → Value
  text : String → Value

-- audit_events
pub record AuditRow : Type 0 where
  pub id : ℕ
  pub server_id : String
  pub actor_id : Option ℕ
  pub action : String
  pub target_id : Option String
  pub outcome : String
  pub metadata : List (String × Value)
  pub request_id : String
  pub occurred_at : ℕ

-- The table, and the largest id that it ever used
pub record AuditLog : Type 0 where
  pub rows : List AuditRow
  pub seq : ℕ

pub record AuditEvent : Type 0 where
  pub action : String
  pub target_id : Option String
  pub metadata : List (String × Value)

pub record AuditRecord : Type 0 where
  pub id : ℕ
  pub action : String
  pub target_id : Option String
  pub outcome : String
  pub metadata : List (String × Value)
  pub request_id : String
  pub occurred_at : ℕ

pub record AuditPage : Type 0 where
  pub items : List AuditRecord
  pub next_cursor : Option ℕ

abbrev is_lower : ℕ → Bool
is_lower c = leb b'a' c && leb c b'z'

abbrev is_digit : ℕ → Bool
is_digit c = leb b'0' c && leb c b'9'

abbrev is_separator : ℕ → Bool
is_separator c = c == b'.' || c == b'_' || c == b'-'

-- `[a-z0-9]+(?:[._-][a-z0-9]+){0,n}$`: whether its first part has begun, and the parts that may follow
unfoldable pub action_parts : Bool → ℕ → List ℕ → Bool
action_parts begun n [] = begun
action_parts begun n (c ∷ cs) = elim (is_lower c || is_digit c) [
  | true ↦ action_parts true n cs
  | false ↦ begun && is_separator c && ltb 0 n && action_parts false (n - 1) cs
]

abbrev starts_lower : List ℕ → Bool
starts_lower [] = false
starts_lower (c ∷ cs) = is_lower c

-- `safeAction`
unfoldable pub safe_action : String → Bool
unfolding action_parts
safe_action s = starts_lower (codes s) && action_parts false 5 (codes s) && leb (utf16_length s) 80

abbrev is_hex : ℕ → Bool
is_hex c = is_digit c || (leb b'a' c && leb c b'f') || (leb b'A' c && leb c b'F')

abbrev is_dash : ℕ → Bool
is_dash c = c == b'-'

-- `[0-9a-f]{n}-[0-9a-f-]{27}` with the flag `i`
unfoldable pub uuid_like : ℕ → List ℕ → Bool
uuid_like n [] = false
uuid_like zero (c ∷ cs) = is_dash c && length cs == 27 && every (λ d. is_hex d || is_dash d) cs
uuid_like (suc n) (c ∷ cs) = is_hex c && uuid_like n cs

-- `validTarget`
unfoldable pub valid_target : Option String → Bool
unfolding uuid_like
valid_target none = true
valid_target (some s) = is_positive_text (codes s) || uuid_like 8 (codes s)

abbrev metadata_keys : List String
metadata_keys =
    "count" ∷ "byteCount" ∷ "policyVersion" ∷ "messageDays" ∷ "attachmentDays" ∷ "reasonCode"
    ∷ "attempt" ∷ "result" ∷ []

unfoldable pub clean_value : Value → Bool
clean_value (text s) = leb (utf16_length s) 128 && not (exists (λ c. leb c 31) (codes s))
clean_value _ = true

abbrev clean_entry : String × Value → Bool
clean_entry (k, v) = exists (same k) metadata_keys && clean_value v

-- `cleanMetadata`: whether it returns its argument, and does not throw
unfoldable pub clean_metadata : List (String × Value) → Bool
clean_metadata m = leb (length m) 20 && every clean_entry m

-- `appendRow`
unfoldable pub append_row : String → Option ℕ → String → AuditEvent → ℕ → AuditLog → Result AuditLog
append_row server actor request e now a = do
  throw_if (not (valid_server_id server) || not (safe_action e.action)) bad_request
  throw_if (not (clean_metadata e.metadata)) bad_request
  throw_if (not (valid_target e.target_id)) bad_request
  ok (record {
    rows =
        a.rows
        ++ record {
          id = suc a.seq;
          server_id = server;
          actor_id = actor;
          action = e.action;
          target_id = e.target_id;
          outcome = "success";
          metadata = e.metadata;
          request_id = request;
          occurred_at = now;
        }
          ∷ [];
    seq = suc a.seq;
  })

-- `append`
unfoldable pub append : Context → String → AuditEvent → ℕ → AuditLog → Result AuditLog
append c request e now a = append_row c.server_id (some c.user_id) request e now a

-- `appendSystem`
unfoldable pub append_system : String → String → AuditEvent → ℕ → AuditLog → Result AuditLog
append_system server request e now a = append_row server none request e now a

-- `? IS NULL OR id<?`
abbrev pub below : Option ℕ → AuditRow → Bool
below none r = true
below (some k) r = ltb r.id k

abbrev pub of_server : String → AuditRow → Bool
of_server server r = same r.server_id server

-- The rows of the query
abbrev pub list_rows : String → Option ℕ → ℕ → AuditLog → List AuditRow
list_rows server cursor limit a =
    take (suc limit) (reverse (select (λ r. of_server server r && below cursor r) a.rows))

abbrev pub as_record : AuditRow → AuditRecord
as_record r = record {
  id = r.id;
  action = r.action;
  target_id = r.target_id;
  outcome = r.outcome;
  metadata = r.metadata;
  request_id = r.request_id;
  occurred_at = r.occurred_at;
}

-- `nextCursor`
abbrev pub cursor_after : Bool → Option AuditRow → Option ℕ
cursor_after true (some r) = some r.id
cursor_after _ _ = none

-- `list`, for a reader who is an administrator or is not
unfoldable pub list : Bool → Context → Option ℕ → ℕ → AuditLog → Result AuditPage
list authorized c cursor limit a = do
  throw_if (not authorized) forbidden
  throw_if (ltb limit 1 || ltb 100 limit) bad_request
  let rows = list_rows c.server_id cursor limit a
  let page = take limit rows
  ok (record {
    items = map as_record page;
    next_cursor = cursor_after (ltb limit (length rows)) (get_last? page);
  })

abbrev row_ids : List AuditRow → List ℕ
row_ids [] = []
row_ids (r ∷ rs) = r.id ∷ row_ids rs

-- `purge`: the number of rows deleted, and what is left
unfoldable pub purge : String → ℕ → ℕ → AuditLog → Result (ℕ × AuditLog)
purge server through limit a = do
  throw_if (ltb limit 1 || ltb 1000 limit) bad_request
  let old =
      row_ids (take limit (select (λ r. of_server server r && ltb r.occurred_at through) a.rows))
  ok (
    length (select (λ (r : AuditRow). exists (λ i. i == r.id) old) a.rows),
    record a { rows = delete (λ (r : AuditRow). exists (λ i. i == r.id) old) a.rows },
  )
