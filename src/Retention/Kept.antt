-- ===== src/Retention/Kept.antt =====
-- A batch of apps/server/src/modules/retention/index.ts leaves a message alone whose term is not over.
use j_messenger.Common.{
  ℕ, ◌-◌, ◌*◌, ◌≤◌, ◌<◌, ◌≡◌, Bool, false, List, [], ◌∷◌, String, arith, if◌then◌else◌,
}
use j_messenger.Common.Results.{ok, >>=-eq-ok}
use j_messenger.Store.{Store, MessageRow, day}
use j_messenger.Jobs.{JobRow}
use j_messenger.Files.Deletion.{Queue, expire_batch}
use j_messenger.Messages.Purge.{purge_batch}
use j_messenger.Retention.{
  RetentionTables, RetentionProgress, policy, ProgressRow, get_cursor, write, process_batch,
}
use j_messenger.Retention.Spared.{
  IsThere, IsKey, purge_batch-IsThere, event_each-IsThere, expire_batch-messages,
}

-- The cutoff of the server's next pass over messages, were it to go on at a time
abbrev next_cutoff : String → RetentionTables → ℕ → ℕ
next_cutoff server t at =
    let current = policy server t in
    (get_cursor 0 server current.version current.message_days at t.message_progress).1

-- From a time on, the passes over messages spare those that are younger than the policy's term.
abbrev pub IsTimely : String → RetentionTables → ℕ → Type 0
IsTimely server t now =
    (later : ℕ)
    → now ≤ later
    → next_cutoff server t later ≤ later - (policy server t).message_days * day

-- What a batch writes is the progress that it goes on from.
get_cursor-write :
    (server : String) (version keep now later cutoff last : ℕ) (more : Bool)
    (rows : List (ProgressRow ℕ))
    → (get_cursor 0 server version keep later
        (write 0 server version keep now cutoff more last rows)).1
      ≡ (if more then cutoff else now - keep * day)
unfolding get_cursor
get_cursor-write server version keep now later cutoff last more [] = ground arith
get_cursor-write server version keep now later cutoff last more (r ∷ rs) =
    ground (arith, get_cursor-write server version keep now later cutoff last more rs)

-- The cutoff of a batch over messages
abbrev cutoff_of : String → ℕ → RetentionTables → ℕ
cutoff_of server now t = next_cutoff server t now

module _ (server : String) (now : ℕ) (t t' : RetentionTables) (more : Bool) (last : ℕ)
    (policies : t'.policies ≡ t.policies)
    (written : t'.message_progress
      ≡ write 0 server
          (policy server t).version
          (policy server t).message_days
          now
          (cutoff_of server now t)
          more
          last
          t.message_progress) where
  same_policy : policy server t' ≡ policy server t
  unfolding policy
  same_policy = ground (arith, policies)

  write-IsTimely : IsTimely server t now → IsTimely server t' now
  write-IsTimely timely later le =
      let current = policy server t in
      let cutoff = cutoff_of server now t in
      let new : next_cutoff server t' later
          ≡ (if more then cutoff else now - current.message_days * day) =
        ground (
          arith,
          same_policy,
          written,
          get_cursor-write server current.version current.message_days now later cutoff last more
              t.message_progress,
        ) in
      let old = timely now (omega arith) in ground (arith, new, old, le, same_policy)

-- A batch that begins when its progress is timely leaves every message of its server alone that
-- counts as not expired and is younger than the policy's term, if its id is a key of the table; and
-- the progress stays timely.
pub process_batch-IsThere :
    (q : ℕ → Queue) (server : String) (limit now : ℕ) (s s' : Store) (jobs jobs' : List JobRow)
    (t t' : RetentionTables) (p : RetentionProgress) (r : MessageRow)
    → (fresh : r.content_expired ≡ false) → IsTimely server t now
    → now - (policy server t).message_days * day < r.created_at
    → IsKey server r fresh s
    → IsThere server r fresh s
    → process_batch q server limit now (s, jobs) t ≡ ok (p, (s', jobs'), t')
    → IsThere server r fresh s' × IsTimely server t' now
unfolding process_batch
process_batch-IsThere q server limit now s s' jobs jobs' t t' p r fresh timely young key there e =
    let current = policy server t in
    let go_on = get_cursor 0 server current.version current.message_days now t.message_progress in
    let file_go_on = get_cursor "0" server current.version current.file_days now t.file_progress in
    let (x, purged, e₁) =
      >>=-eq-ok (purge_batch server go_on.1 go_on.0 limit now s) _ {end = (p, (s', jobs'), t')} e in
    let (y, expired, e₂) =
      >>=-eq-ok (expire_batch q server file_go_on.1 file_go_on.0 limit now (x.1, jobs)) _
        {end = (p, (s', jobs'), t')} e₁ in
    let kept =
      purge_batch-IsThere server r fresh go_on.1 go_on.0 limit now s x.1 x.0
        (omega (arith, timely now (omega arith))) key there purged in
    let still : IsThere server r fresh y.1.0 = ground (
      arith,
      kept,
      expire_batch-messages q server file_go_on.0 file_go_on.1 limit now x.1 y.1.0 jobs y.1.1 y.0,
    ) in
    let events = event_each-IsThere server r fresh y.0.file_ids y.1.0 still in
    (
      ground (arith, events),
      write-IsTimely server now t t' x.0.has_more x.0.last_id (ground arith) (ground arith) timely,
    )
