-- ===== src/Lib.antt =====
-- Chronos, a scheduler of background jobs on PostgreSQL and Redis: an HTTP API (api/) that accepts
-- jobs, workers (worker/) that claim and execute them, and a web dashboard (web/).
--
-- The database is the state that all parts share. Schema has its tables as lists of rows, with the
-- events published on Redis; each operation is a function from a database to a database. The clock, the
-- identifiers of new rows, what a call that may throw does, and what other processes do during a wait
-- are arguments. Identifiers are numbers here, times are milliseconds, in Auth seconds.
--
-- Files, and the code that each models:
--  Prelude: shared names; Prelude/Tables the queries of Prisma and SQL on lists, Prelude/Sorting
--    ORDER BY, Prelude/Keyed rows with unique keys. Samples: rows for the tests.
--  Schema: prisma/schema.prisma; Schema/JsonValue: JSON values.
--  Retry: worker/src/retry.ts, `calculateDelay`.
--  Claimer: worker/src/claimer.ts, `claimJobs`; Claimer/Locks its transactions with row locks, as steps
--    of several workers that interleave.
--  Executor: worker/src/executor.ts, `executeJob`; Executor/Policy the choice of the retry policy.
--  Heartbeat, Reaper: worker/src/heartbeat.ts, the writer and the reaper.
--  Poller: worker/src/poller.ts, `pollCycle`, `startPoller`, `stopPoller`.
--  Lifecycle: worker/src/index.ts, registration and `shutdown`, with `waitForInFlight`.
--  Scheduler: worker/src/scheduler.ts, `tick`.
--  Handlers: worker/src/handlers, the registry and the three handlers.
--  Jobs: api/src/routes/jobs.ts, the routes that change jobs; Jobs/Body the schemas of the bodies,
--    Jobs/Publication the publishing that ends them, which may throw, Jobs/Reads the routes that only read.
--  JobStates: the life of a job as a state machine, which Claimer, Executor, Reaper and Jobs carry out
--    between them.
--  Auth: api/src/routes/auth.ts and api/src/middleware/auth.ts; Auth/Interface what they use of bcrypt,
--    zod and @fastify/jwt, Auth/Sessions what it keeps and sends, Auth/Runs sequences of requests.
--  Queues, Projects, Workers, Dashboard: the routes of the same names in api/src/routes.
--  Scope: what these routes do about the user's memberships; Listing: the pages of their listings.
--  Socket: api/src/socket/index.ts, the rooms and the dispatch of messages.
--  Api: api/src/index.ts, how a request passes the preHandlers of its route and reaches the handler; Api/Calls
--    the routes, with the `preHandler` lists of api/src/routes.
--  WebClient: web/lib/api.ts, `apiFetch` and the stored session.
--  WebPages: the pages of web/app and web/components/AppShell.tsx: JobList the listing of jobs with the
--    requests on their way, QueueForms the page of the queues, Accounts log-in, registration and
--    log-out, Live the event stream and the heartbeats.
--  RateLimit, Rbac: api/src/middleware/rateLimit.ts and rbac.ts.
--  Pagination, Errors: api/src/lib/pagination.ts and errors.ts, with the error handler of
--    api/src/index.ts.
--
-- How they interact: Jobs inserts rows that Claimer marks `claimed`; Poller starts Executor on them;
-- Executor asks Retry for delays, calls Handlers and writes executions, logs and dead letters; Heartbeat
-- keeps a worker's row fresh and Reaper requeues what stale workers left; Scheduler inserts jobs from
-- definitions. Api runs the preHandlers of a route in order, `requireAuth` of Auth, Rbac and RateLimit, and
-- then the route's function, which the modules of the routes model without them; Auth keeps the
-- identifiers of refresh tokens in Redis and the users in the database. WebPages calls the routes by
-- WebClient. Socket passes on what
-- Jobs and Executor publish. The modules of theorems stand below the component that they are about.
--
-- Bounds and fuel: no definition needs fuel. The poller's loop runs over a list of rounds, which is what
-- the loop meets until it is stopped. The token bucket counts in units of 1 / (window * 1000) of a token,
-- in which the script's divisions are exact; `Math.random()` is a fraction. Where the order of GET /jobs
-- leaves rows open, how they are ranked is an argument; elsewhere such rows keep the order of the table.
-- Numbers are unbounded, where
-- the source has doubles and 32-bit columns.
--
-- Not modelled: Prisma, PostgreSQL and Redis beyond the operations used; croner, zod, bcrypt, socket.io,
-- Fastify and `fetch`, which are parameters or their documented effect, and so what Fastify does to an
-- answer by its response schema, and the matching of paths; timers; log lines; message texts of errors;
-- attributes of cookies; the set-up of the server; the markup of the pages.
pub mod Prelude
pub mod Schema
pub mod Samples
pub mod Retry
pub mod Claimer
pub mod Executor
pub mod Heartbeat
pub mod Reaper
pub mod Poller
pub mod Lifecycle
pub mod Scheduler
pub mod Handlers
pub mod Jobs
pub mod JobStates
pub mod RateLimit
pub mod Rbac
pub mod Scope
pub mod Auth
pub mod Queues
pub mod Projects
pub mod Workers
pub mod Dashboard
pub mod Socket
pub mod Api
pub mod WebClient
pub mod WebPages
pub mod Listing
pub mod Pagination
pub mod Errors
