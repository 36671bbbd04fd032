-- ===== src/Lib.antt =====
-- A model of j-messenger, a messenger for several mail servers on one SQLite database, and of its
-- client, and the theorems that make them correct.
--
-- The program. A request comes with a session (apps/server/src/modules/identity). A service checks
-- that its user is a member of the conversation (modules/conversations), and changes the tables in
-- one transaction (platform/database), in which it appends an event to the outbox. Clients follow
-- the outbox by cursors (modules/sync) and read what the events name (modules/messages,
-- modules/conversations, modules/receipts). Jobs (platform/jobs) do what is left for later, and batches
-- remove what is too old (modules/retention), of which a log is kept (modules/audit). The client
-- (packages/client-core) keeps a cache of all this, by events from a socket
-- (modules/realtime) and by pages of `sync`.
--
-- The files. Paths that begin with modules, platform or bootstrap lie in apps/server/src.
--   Common          names shared by all: lists as tables, results of calls, sorting
--   Decimal, Names  decimal ids and positions as texts; UUIDs, server ids, lists of file ids
--   MessageText     packages/contracts/src/schema.ts, the text of a message
--   Store           the tables of bootstrap/migrations.ts, as one record
--   Transaction     platform/database/index.ts, `run`
--   Stream          platform/database/index.ts, the outbox; Invariant and Scan prove things of it
--   Identity        modules/identity/index.ts, sessions; Login has `login`, Directory
--                   `listSameServer`; Sessions and Entry prove things of them
--   Conversations   modules/conversations/index.ts; Create has the creation, Listing the lists;
--                   Access, Once, Pages and Cursors prove things of them
--   Files           modules/files/index.ts, what messages need of it; Reservation and Upload have
--                   `prepare`, Sniff the tests of what is uploaded, Orphans `reconcileOrphans`
--                   and `openDownload`, Deletion the end of a file; Binding, Ending, Quota, Frugal
--                   and Download prove things of them
--   Messages        modules/messages/index.ts, `create`; Reads has `list` and `hydrateEvent`, Purge has
--                   `purgeBatch`; Retry, Replay, Effect, Membership, Expiry and Newest prove things of
--                   them
--   Receipts        modules/receipts/index.ts
--   Sync            modules/sync/index.ts; Cursor, Pages, Pull and Limits prove things of it
--   Jobs            platform/jobs/index.ts; Enqueue has `enqueue`, Batch the runner; Dedup and
--                   Leases prove things of them
--   Audit           modules/audit/index.ts; Falling and Pages prove things of it
--   Retention       modules/retention/index.ts; Spared and Kept prove things of it
--   Realtime        modules/realtime/index.ts; Delivery proves things of it
--   Client          packages/client-core/src/index.ts, the state and the events; Wire has `request`
--                   and `loadSnapshot`, Catchup `sync`, Session the socket and the session, Send
--                   the messages on their way, Lists the other requests. Cache, Steps, Runs,
--                   Entering, Deletion, Stale, Collision, Place and Follow prove things of them
--   Examples        tests, and an instance of each theorem on small tables
--
-- How the model stands to the code. A function of the model has the name of the code's, in snake
-- case; one that ends in `_in` is the transaction of the function it is named after. A table is the
-- list of its rows in the order of its primary key or of insertion, and a statement is `select`,
-- `update`, `delete` or an append with the WHERE clause as a test. An id is the number that its
-- decimal text denotes; a text that is no such id stands as 0, which `positive_id` refuses. Decimal
-- has the texts themselves, and proves that the code's comparison of texts is that of numbers.
-- Times are milliseconds since 1970, and a time minus a number of days stops at 1970. Each call
-- reads the clock once. An error is a value of `Result`; a TypeError shows as `internal`, and an
-- error of SQLite as `unavailable`. A message text is the list of its UTF-16 units.
-- A service checks access before its transaction and again inside it: the model takes the tables of
-- the two moments, `seen` and `s`, apart, since other requests may run in between. In `sync` and in
-- `runBatch` the tables of each await are arguments in the same way. Messages and files are wired
-- together, as the application does: the case of a message service without files is left out.
--
-- The client runs in one thread, and its functions await replies. A handler between two awaits is a
-- function on the record of the client's variables. An awaiting function takes a network as an
-- argument, which says for each request what the client is when the reply comes, other handlers having
-- run, and what the reply is: all interleavings are instances. `Step` lists the handlers. A timer is
-- there or is not; its delay is left out, and so are listeners and the id of the last request.
--
-- Parameters. SHA-256 digests, the signature and the wire form of a cursor (`Sealer`), the
-- hydrator of events, job handlers, what the id factory gives, the JSON and base64url of a list
-- cursor (`Packing`), and whether SQLite carries out BEGIN, COMMIT and ROLLBACK (`Disk` of
-- Transaction) are arguments; so are the mail server's answers at a login, and for uploads the names
-- of Node's paths, the disk and the decoding of UTF-8. Of a sealer the theorems assume that a token
-- opens to what was sealed in it and is no longer than what `decode` reads; of a packing that three
-- tokens are read back; of a hydrator, for progress, that it answers; of SQLite that it carries out a
-- ROLLBACK. Of the stream that a client follows they assume that it keeps its epoch and the events
-- of the range, and of the scan limit that it is one that `scan` takes, from 1 to 1000, though
-- `createSyncService` accepts up to 5000.
--
-- Of the functions in the transaction of a service, which end in `_in` or take the tables, an error
-- stands for a callback that throws: what it has written by then is rolled back, which is shown of
-- `run` in Transaction, where a callback may write before it throws.
--
-- Recursion is structural everywhere but in `Decimal.to_text`, whose fuel is one more than the number, and
-- in `Sync.Pull.pull`, where the fuel is the number of requests: one per position of the range is
-- enough. `passes` recurses on the limit of the batch.
--
-- `sync_pages` counts down the 500 pages that the client's loop allows.
--
-- Not modelled: log lines and effects after a commit, HTTP, configuration, file streams and
-- object storage, backup and the user interfaces, which are input and output around the services.
-- Of a download the access is modelled, and of an upload the disk is a parameter.
pub mod Audit
pub mod Client
pub mod Common
pub mod Decimal
pub mod Examples
pub mod Names
pub mod MessageText
pub mod Store
pub mod Identity
pub mod Retention
pub mod Stream
pub mod Conversations
pub mod Files
pub mod Messages
pub mod Realtime
pub mod Receipts
pub mod Sync
pub mod Jobs
pub mod Transaction
