-- ===== src/Examples/Batches.antt =====
-- The audit log, and a batch of the retention, on the example tables.
use j_messenger.Common.{
  ℕ, ◌*◌, ◌-◌, ◌≤◌, ◌<◌, ◌≡◌, refl, Bool, true, false, List, [], ◌∷◌, Option, none, some, String,
  arith, map, ◌∙◌,
}
use j_messenger.Common.Results.{ok}
use j_messenger.Store.{Store, MessageRow, day}
use j_messenger.Files.Deletion.{Tables, Queue}
use j_messenger.Messages.{new_message}
use j_messenger.Audit.{AuditRow, AuditLog, as_record, safe_action, valid_target}
use j_messenger.Audit.Falling.{IsRising}
use j_messenger.Audit.Pages.{newest_first, list_all, list_all_complete}
use j_messenger.Retention.{RetentionTables, RetentionProgress, policy, get_cursor, process_batch}
use j_messenger.Retention.Spared.{IsThere, IsKey}
use j_messenger.Retention.Kept.{IsTimely, process_batch-IsThere}
use j_messenger.Examples.{ann, server, other_id, chat_store, result_or}
use j_messenger.Examples.Posts.{hello}

action_tests :
    (safe_action "retention.policy.updated" ≡ true)
    × (safe_action "Retention" ≡ false)
    × (safe_action "a..b" ≡ false)
    × (safe_action "a.b.c.d.e.f.g" ≡ false)
    × (valid_target (some other_id) ≡ true)
    × (valid_target (some "0") ≡ false)
unfolding safe_action j_messenger.Names.utf16_length valid_target
action_tests = (refl, refl, refl, refl, refl, refl)

abbrev log_row : ℕ → AuditRow
log_row id = record {
  id = id;
  server_id = server;
  actor_id = some 1;
  action = "retention.policy.updated";
  target_id = none;
  outcome = "success";
  metadata = [];
  request_id = other_id;
  occurred_at = 10;
}

abbrev log : AuditLog
log = record { rows = log_row 1 ∷ log_row 2 ∷ log_row 4 ∷ []; seq = 4 }

log-IsRising : IsRising log.rows
log-IsRising = ((ground arith, (ground arith, tt)), ((ground arith, tt), (tt, tt)))

list_all_complete_example : list_all ann 2 log 4 none ≡ ok (map as_record (newest_first ann 2 log))
list_all_complete_example =
    list_all_complete ann 2 log (ground arith) (ground arith) 4 log-IsRising (ground arith)

-- A message of the ninth day, and one of the first.
abbrev young : MessageRow
young = new_message ann 5 hello 9 (9 * day)

abbrev old : MessageRow
old = new_message ann 5 hello 8 day

abbrev tables : Store
tables = record chat_store { messages = old ∷ young ∷ []; message_seq = 9; files = [] }

abbrev plans : RetentionTables
plans = record {
  policies = [];
  message_progress = [];
  file_progress = [];
  audit = record { rows = []; seq = 0 };
}

abbrev queue : ℕ → Queue
queue n = record { hash = λ s. "hash"; uuid = other_id; payload_of = λ id. "{}" }

abbrev batch : RetentionProgress × Tables × RetentionTables
batch =
    result_or (process_batch queue server 10 (10 * day) (tables, []) plans)
      (record { messages = 0; files = 0; complete = true }, (tables, []), plans)

batch_ok : process_batch queue server 10 (10 * day) (tables, []) plans ≡ ok batch
unfolding process_batch j_messenger.Messages.Purge.purge_batch j_messenger.Names.valid_server_id
    j_messenger.Files.Deletion.expire_batch j_messenger.Files.Deletion.schedule_each
    j_messenger.Common.Sorting.sort j_messenger.Messages.Purge.expire_messages
    j_messenger.Common.text_dec get_cursor policy j_messenger.Messages.Purge.expire_message
    j_messenger.Messages.Purge.drop_files j_messenger.Messages.Purge.expire_rows
    j_messenger.Messages.Purge.clear_tombstones
batch_ok = refl

plans-IsTimely : IsTimely server plans (10 * day)
unfolding policy get_cursor
plans-IsTimely later le = omega arith

young-IsKey : IsKey server young refl tables
young-IsKey = (λ h. absurd (ground arith), (λ h. refl, tt))

young-IsThere : IsThere server young refl tables
unfolding j_messenger.Common.text_dec
young-IsThere = refl

young_enough : 10 * day - (policy server plans).message_days * day < young.created_at
unfolding policy
young_enough = ground arith

process_batch-IsThere_example :
    IsThere server young refl batch.1.0 × IsTimely server batch.2 (10 * day)
process_batch-IsThere_example =
    process_batch-IsThere queue server 10 (10 * day) tables batch.1.0 [] batch.1.1 plans batch.2
      batch.0 young refl plans-IsTimely young_enough young-IsKey young-IsThere batch_ok
