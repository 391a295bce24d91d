-- ===== src/Lib.antt =====
-- A verification library of the Cofoundaz API, a web service for founders: a FastAPI application
-- (app/main.py) over a PostgreSQL database, and a background worker (app/worker).
--
-- How the parts interact. An endpoint (app/api/v1/endpoints) calls services (app/services) on one
-- database session and commits at its end; an error that leaves before the commit rolls back what
-- the services flushed. Services hand slow work to the job table (app/platform/jobs.py). The worker
-- claims due jobs in batches (app/worker/runner.py), and on each turn its scheduler plans the
-- recurring jobs (app/worker/scheduler.py).
--
-- Which file models what.
-- Prelude: Boolean tests, lists, tables as lists of rows with the queries made of them, sorting.
-- Errors, Transaction: the errors of app/core/errors.py, and what a request leaves committed.
-- Roadmap and Roadmap/Dependencies: app/services/roadmap/dependencies.py and its two endpoints in
--   app/api/v1/endpoints/roadmap.py. Graph relates the adjacency map to the rows, Search is
--   about the cycle search, Acyclic and Unique are about what the endpoints write. Roadmap/Progress is the
--   milestone progress of app/services/roadmap/service.py.
-- Roadmap/Replan: app/services/roadmap/replan.py. Order and Toposort are about the order of the
--   milestones, Slip and Precedence about their shifts, Plan about the proposal, and Apply is its
--   application.
-- Health: app/services/health_score/recommendations.py, with the catalogue and the weights of
--   config.py and the table of app/db/models/health_score.py.
-- Notifications: app/services/notifications/service.py. Cursor is the paged list, Order and Paging
--   are about following its cursors, Reading about the marks. Preferences is preferences.py and
--   categories.py beside it, Registry is registry.py without its subscription to the bus.
-- Auth: the tables of app/db/models/auth.py and user.py. Auth/Sessions is
--   app/services/auth/sessions.py with the refresh and logout endpoints; Replay and Steps follow a
--   token through any history of the session table, and Family is about reuse and revocation.
--   Auth/Tokens is app/services/auth/tokens.py with the reset of auth/password.py, and Auth/Login is
--   auth/login.py. Auth/Mfa is the backup codes of app/services/auth/mfa.py.
-- Worker: app/db/models/job.py and app/platform/jobs.py. Worker/Runner is app/worker/runner.py:
--   Claims and Keys are about what a batch claims, Settled and Outcomes about what it leaves, Batch puts
--   them together, and Retry is about backoff and stale jobs. Worker/Scheduler is
--   app/worker/scheduler.py.
-- Documents: the tables of signature requests in app/db/models/document.py. Documents/Signatures is
--   app/services/documents/signatures.py with the signing endpoint of endpoints/documents.py.
--   Documents/Store is app/services/documents/service.py with the update endpoint, Documents/Shares
--   is shares.py.
-- Assessment: the types of app/services/assessment/bank.py. Assessment/Engine is engine.py,
--   Assessment/Scoring scoring.py, and Assessment/Service service.py: Start, Submit and Completion are
--   about its three operations.
-- Onboarding: the tables of the invitations. Onboarding/Invitations is
--   app/services/onboarding/invites.py; Create is about sending them, Accept about accepting one.
-- Mission: app/services/mission/service.py. Streak is the streak, Today the generation of today's
--   mission (a startup without settings has three tasks and weekends off), Tasks the actions on tasks.
--
-- State and time. A table is the list of its rows in the order of insertion, and a service call takes
-- the tables and gives a result together with the tables that it leaves. An UPDATE with a condition
-- is `update_where`, and its row count is `count`. Ids, hashes and instants are natural numbers (an
-- instant in seconds, a date in days); ids, tokens and the time of a call are arguments. Within one
-- call all reads of the clock give the same instant. Columns that no modelled operation reads are
-- left out: among them the descriptions and owners of the roadmap rows, and the verification and
-- MFA dates of a user. The member `none` of the MFA types is called `off`.
--
-- Concurrency. The claims of sessions, tokens, jobs, scheduler runs and assessments are single
-- conditional UPDATEs or inserts under a unique key, which the database serialises; their histories
-- are therefore sequences of whole calls. The rows that another worker has locked are a parameter of
-- the claim of a batch. Other operations, among them `update_document` and `record_signature`, read,
-- check and write without a lock or a condition: for these a sequence of whole calls is an assumption,
-- and requests that overlap are not modelled.
--
-- Fuel. The cycle search runs on fuel: one round for the start, one for each dependency row, and
-- one for the last test of the stack; each row is pushed at most once. The fuel of
-- the topological sort bounds its depth by the number of milestones, since none stands on the stack
-- twice.
--
-- What comes from outside the repository is a parameter: hashing, the token encoder and the password
-- check (`Crypto`), random values (`Fresh`), the stripping and the lower case of a text, the zone of the local time
-- (`LocalTime`), the codecs of a cursor (`Codec`), the parser of a uuid, the decimal text of a number, and the handlers of
-- jobs (`Handlers`). So is, of the repository, what the recomputation of the health score that completes an
-- assessment does to the rest of the database; the job that it enqueues is modelled, and the events that
-- it publishes are not.
--
-- Not modelled: the other services (the health score but for its recommendations, mission history,
-- business plan, journal, learning, dashboard, the steps of onboarding, document files, the generation of a roadmap),
-- input and output (mail, storage, the language model, realtime events), the limiter,
-- and the wiring of the application.
pub mod Prelude
pub mod Errors
pub mod Transaction
pub mod Roadmap
pub mod Auth
pub mod Worker
pub mod Documents
pub mod Assessment
pub mod Mission
pub mod Onboarding
pub mod Notifications
pub mod Health
