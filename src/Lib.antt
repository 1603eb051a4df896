-- ===== src/Lib.antt =====
-- SQLMon: a monitor of SQL Server instances. Its backend is a FastAPI service over a PostgreSQL
-- database, and a collector that reads the monitored servers every few seconds and stores what it
-- finds in frames.
--
-- The parts, and the files that model them (paths are from the repository's root):
--
-- - Base: what all modules share: Boolean tests and an interface for Python's `==`, lists,
--   dictionaries as association lists that keep the order of insertion, integers, texts as lists of
--   code points with the case and the classes of characters as a parameter, and a stable sort.
-- - BlockingGraph: backend/app/collector/blocking_graph.py. The collector hands it which session
--   waits for which, and it answers the edges of the chains up to their roots. `build_chain`'s
--   `while` is `walk`, on fuel: the number of rows, since every round but the last visits a new
--   row. The rows are a dictionary, later rows of a session replace earlier ones, and the set of
--   edges seen is a list. BlockingGraph.Relation is the relation that the edges are compared with,
--   Walk, Chain and Growth follow one chain and the growing list.
-- - Auth: backend/app/security.py and backend/app/services/captcha_service.py. bcrypt, PyJWT and
--   SHA-256 are the record `Crypto` with what they document; Auth.Sample is an instance of it. The
--   secret key, the clock and random draws are arguments. A time is in microseconds, and a token's
--   expiry in whole seconds, as PyJWT stores it.
-- - Users: backend/app/services/user_service.py, backend/app/services/auth_service.py and
--   `current_user` of backend/app/api/deps.py. The table of users is a list of rows. Users.Routes
--   has the five routes of backend/app/api/routes/users.py behind the check of the token and the
--   role, and Users.Login the route of backend/app/api/routes/auth.py. Users.Change says how one
--   request changes the table.
-- - Snapshots: the tables of backend/app/db/models.py that frames are stored in;
--   Snapshots.Repository: the queries of `SnapshotRepository` in
--   backend/app/services/dashboard_service.py, each a filter and an order on a table.
-- - SqlTexts: backend/app/collector/sql_text.py: previews, normalisation and hashes. The two patterns
--   for literals and SHA-256 are parameters.
-- - Sessions: backend/app/services/session_service.py, the list of a frame's sessions and one
--   session's detail, over the repository.
-- - Blocking: backend/app/services/blocking_service.py: the blocking rows of a frame grouped by root
--   into chains; Blocking.Shape says what a chain is, Blocking.Chains what the chains are.
-- - Sqls, Dashboard and Replay: backend/app/services/sql_service.py, `get_dashboard` of
--   backend/app/services/dashboard_service.py, and backend/app/services/replay_service.py, which puts
--   all views of one frame together. A rate is a pair of bytes and microseconds.
-- - Views: the routes that read, of backend/app/api/routes/: dashboard.py, sessions.py, sqls.py,
--   blocking.py, replay.py and audits.py, behind the token, the role and the bounds of the query.
-- - Kill: backend/app/services/kill_service.py and backend/app/api/routes/kill.py. The executor is
--   a parameter of `kill_session`, as in the code, and its calls are recorded in the state beside
--   the audits. Kill.Target reads the session from the latest frame; Kill.Route is the route with
--   its checks, and Kill.Guards says what the guards admit.
-- - Indexes: backend/app/services/index_service.py. Identifiers and statements; Indexes.Names the
--   names of new indexes, whose loop ends at 999; Indexes.Sql a reader of the statements, by
--   T-SQL's rule for brackets; Indexes.Audit the audits of requests and of the background tasks
--   that run statements. Indexes.Maintenance is the request to maintain an index, Indexes.Stored the
--   pages of stored indexes, which ReadBack compares with what the collector stores
--   with the help of Shown, and Indexes.Routes the routes of backend/app/api/routes/indexes.py with their background
--   tasks; Added and Guarded are about the statements that these send. The fields of a request that
--   an answer repeats are left out.
-- - Instances: the connection string of backend/app/services/instance_service.py;
--   Instances.Connection a reader of it, by ODBC's rule for braces; Instances.Records the rows of
--   instances and of their collection's status. Instances.Requests has the bodies and their bounds of
--   backend/app/schemas/instances.py, where a field of an update is unset or set, to a value or to
--   nothing; Instances.Service and Instances.Change the operations, Instances.Routes the routes of
--   backend/app/api/routes/instances.py. Instances.Events is a history of requests and collections,
--   Instances.Deletion is about what is deleted.
-- - Collector.Pool: `_collect_index_databases_concurrently` of
--   backend/app/collector/real_instance_collector.py, as a machine of rounds. A thread's work is
--   its result, also if it is given up after its timeout, when it may go on beside the next one and
--   is not counted; the clock and the futures that `wait` finds done are arguments, so that every
--   interleaving is one of its runs. `wait` returns futures that are done, or nothing after its
--   timeout, which is added to the clock. The number of rounds is fuel; each round settles a future
--   or passes time, so a timeout's worth of microseconds for each database and one more are enough.
--   Pool.Invariant, Timed and Progress carry the theorems of Pool.Ends.
-- - Collector.Frame: `_build_wait_snapshots` and `_build_blocking_snapshots` of the same file, with
--   `categorize_wait` of backend/app/collector/collectors/wait_collector.py: the waits by type and
--   the blocking rows of a frame, from the rows that a server answers.
-- - Collector.Snapshot: the sessions, requests, texts and figures of a frame of the same file, from the
--   rows of the server. Snapshot.Collect is the `try` of `collect_instance_snapshot`, with any
--   exception as `none`, and Snapshot.Store what is stored of it, in a record of all tables. A status
--   that was only added before a rollback goes with it. Snapshot.Belongs, ReadBack, Outcome and
--   Counting are about one collection and about any history of them.
-- - Collector.IndexStore: how the same file stores what it reads of indexes: the replacement of the
--   snapshots of a database and the status rows; IndexStore.Due when a collection is due;
--   IndexStore.Collect the collection in a session with its commits, over the machine of
--   Collector.Pool. Kept, Success, Succeeded and Interval say what a failure keeps, what a success
--   stores, and until when it counts.
-- - Collector.Schedule: the tasks of the index collection of backend/app/collector/main.py, as a
--   step relation: a task is scheduled, it ends, and its callback is called, in any order.
--
-- How the parts meet: a route asks Users for the account of a token, which Auth decodes; Kill and
-- Sessions read the frames through Snapshots.Repository; the collector fills the frames, with the
-- edges of BlockingGraph and the hashes of SqlTexts.
--
-- State is passed explicitly: an operation that changes a table takes it and returns it. A failure
-- is a value: an Option, or a data type with the exceptions of the operation. `Response` of Users
-- has the HTTP errors. What a database or a server outside the repository answers is an argument. A
-- number of a decimal column stands in units of its last place. A float that a column stores or shows
-- stands in units of 10^-12, and Base.Decimals rounds it to the column's places; a percentage that is
-- only compared is a number of hundredths. A float of a duration is taken as exact, a number of a
-- column as within its bounds, and rows of equal rank keep the order of their table.
--
-- Not modelled: the pages of indexes that are read from the server, the queries to SQL Server, the
-- retention, the partitions and the migrations of the database, the process's loop and configuration, and the web frontend. Columns that only the database
-- writes and text that is only shown (messages, the captcha's picture) are left out.
pub mod Base
pub mod BlockingGraph
pub mod Auth
pub mod Users
pub mod Snapshots
pub mod SqlTexts
pub mod Sessions
pub mod Blocking
pub mod Sqls
pub mod Dashboard
pub mod Replay
pub mod Kill
pub mod Views
pub mod Indexes
pub mod Instances
pub mod Collector
