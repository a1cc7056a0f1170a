-- ===== src/Lib.antt =====
-- The Palworld operations service: a FastAPI application that runs a dedicated game server. The
-- development models its Python code part by part, each definition with the name that the code
-- gives it.
--
--   * Common: helpers. Actions are functions of a state that return an outcome and a new state; an
--     exception is an error value. Text that the program takes apart is a list of code points.
--   * Database (app/database/db.py, app/database/models.py): the five tables of palmanager.db as
--     one record, each method of DatabaseManager as a function. UNIQUE, FOREIGN KEY and ON DELETE
--     CASCADE are written out. Integrity holds the consistency of the tables, Admins what each
--     method does to the number of active administrators.
--   * Auth (app/database/auth.py): password digests, session tokens, permissions and the
--     first-spin bootstrap. PBKDF2, HMAC, base64 and JSON are the parameter `Crypto`; `IsLawful`
--     says what the code relies on of them.
--   * Api (app/routers/deps.py, app/routers/auth.py, app/routers/feedback.py): who a request
--     speaks for, and the endpoints of sessions, accounts and feedback. `serve` puts each endpoint
--     behind its dependency, `step` adds the process start of app/main.py, and `run` is any
--     history of both.
--   * Engine (app/engine/service.py): the reboot lifecycle. State holds the engine's fields and
--     files and what other tasks may call; Countdown has the loop, the restart phases and the
--     whole sequence; Waiting, Loops, Outcomes, Undisturbed, Reported and Announcements prove what
--     it does. What other tasks do while the sequence waits, which file calls fail, how the
--     supervisor answers and when the server is ready is the argument `World`.
--   * Supervisor (app/supervisor): the process that runs privileged commands for the service.
--     Protocol has the validation of requests, with pydantic's coercion and JSON as the parameter
--     `Pydantic`; Server the handlers, how long each waits, and one connection, with the commands
--     that it starts as a log; Validity and Policy prove what a connection can make the host do.
--     Client has the client's methods and its timeout (client.py), EndToEnd what a call does to
--     the host through the socket.
--   * Config (app/config_manager/pipeline.py, parser.py): settings as dictionaries. Settings has
--     the protected keys, the merge and the serializer, with Python's number formats as the
--     parameter `Numbers`; Protection and Injection prove what a public edit can and cannot
--     change. Parsing has parse_ini_file, its regular expression as a scanner on fuel, one more
--     than the text's length; Newlines, Scanner, Pairs, Trimmed and RoundTrip prove that it reads
--     back what the serializer writes.
--   * Metrics (app/routers/deps.py, app/main.py, app/database/metrics_db.py): the buffer of
--     telemetry samples and its flush into the table; History has pruning and the downsampled
--     history, Collector the collector's turns, which flush and prune; Flushed and Kept prove what
--     is kept. A sample is any type; SQLite's grouping and figures are parameters, and whether the
--     database works is an argument.
--   * Files (app/core/atomic_io.py): atomic writes and staging directories. Paths has a directory
--     as a list of names; Atomic the write as the sequence of its changes, with each state it goes
--     through, and the backups; Refinement, Completion and Writes prove what a caller and what a
--     process that stops can find. Folders and Staging have AtomicStagingContext, whose
--     directories are renamed as a whole; Commits proves what a block leaves. Which system calls
--     fail, and where, is an argument.
--   * Deploy (app/engine/deployer.py): Members has the checks of an archive's members, Package the
--     checksum and the staging of a package, Swap the exchange of a live directory. The archive
--     reader, the hash and the resolution of paths are parameters; `Lexical` is a file system with
--     no symbolic link on the way. The blocks of a checksum are read on fuel, one more than the
--     file's bytes.
--   * Tls (app/engine/tls_manager.py, app/engine/tls_scheduler.py, app/engine/acme_client.py,
--     app/engine/duckdns.py, app/routers/system.py): Certificates has the staged pair and its
--     status, Provision its provisioning, Scheduler the turns of the renewal loop and the startup
--     check, Discovery the search for a usable pair in app/core/config.py, Requests and Status the
--     endpoints and the settings object, Acme and Flow the DNS-01 flow. Renewal, Torn, Toggle,
--     Traced and Cleared prove what they do. X.509, the network and the file system are
--     parameters; an order is polled 40 times, the code's own bound.
--   * Tracker (app/monitoring/tracker.py): Packet reads a Steam reply, Layout proves that it is
--     read back, Probe has one query and the sweep over hosts and ports, Ledger the merge of live
--     players into the roster, Remembered what the roster keeps. The decoding of UTF-8 and the
--     network are parameters.
--   * Logs (app/monitoring/log_scraper.py): Console has what the live console shows of the game's
--     logs, Shown its bounds, Scraper the search for a session. Regular expressions are
--     parameters.
--   * Diagnostics (app/monitoring/net_diagnostics.py): Target has the check of what may be probed,
--     with the test for IP addresses as a parameter; Verdict the throughput counters and the order
--     of causes.
--   * Updater (app/engine/updater.py): Apply has the lock, the start of an update and the removal
--     of the lock by the deployment itself (scripts/deploy.sh), Locks what they exclude; Steps and
--     Progress read a deployment's log, Bounds proves what they can say; Check compares the
--     deployed commit with GitHub's, whose answers are arguments. Summary has the record of the
--     last update, Acknowledged what dismissing it leaves.
--   * Examples: a toy hashing that has the documented behaviour, and the theorems at concrete
--     servers.
--
-- Requests are atomic steps, in any order: the endpoints await nothing between a check and its
-- write except the acknowledgement of the bootstrap, which runs in a worker thread. Request bodies
-- have passed their validation. A call of another task during a tick of the countdown counts from
-- the tick's wait on, and of the ways to interrupt a sequence only the cancellation of its task
-- during the countdown is modelled. The clock and the random generator are arguments. Where a
-- definition has fuel, its part says how much is enough; the countdown recurses on the seconds
-- that remain. Not modelled: SQLite's own failures other than constraints, logging, cookies of
-- responses, the endpoints for reboots, settings, players and telemetry, the settings that TLS
-- does not read, notifications, the changelog, and the entry points.
pub mod Common
pub mod Database
pub mod Auth
pub mod Api
pub mod Engine
pub mod Supervisor
pub mod Config
pub mod Metrics
pub mod Files
pub mod Deploy
pub mod Tls
pub mod Tracker
pub mod Updater
pub mod Logs
pub mod Diagnostics
pub mod Examples
