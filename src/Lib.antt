-- ===== src/Lib.antt =====
-- A verification library for the payments processor: a service that accepts payments over HTTP,
-- keeps them in Postgres with an outbox, and settles them with a bank in a worker.
--
-- Parts and files:
-- - Shared: packages/shared/src/index.ts. Shared/Status has the statuses and `can_transition`,
--   Shared/Money reads and writes amounts of money.
-- - Database: the tables of apps/api/src/database/schema.ts as lists of records, with the inserts
--   and their constraints. Jobs: what is added to the queues.
-- - Payments: apps/api/src/payments. Payments/Service has `insert_txn`, `find_one`, `list` and
--   `list_events`; Payments/Controller has `create_payment` and the pages of the listing.
-- - Relay: apps/api/src/relay. Relay/Poll has the `poll_once` that publishes submissions,
--   Relay/Reaper the `reap_once` that drives stranded payments again,
--   Relay/Publishing joins the polls to their loop, with those that are rolled back, and
--   Relay/Cleanup has the `tick` that creates and drops the partitions of the outbox, by the days of
--   Relay/Dates.
-- - Worker: apps/api/src/worker. Worker/Backoff has `compute_backoff_ms`, Worker/Processor the
--   `process` of a job, with one function for each transaction.
-- - Webhooks: apps/api/src/webhooks. Webhooks/Dispatcher has the `poll_once` that hands out notices,
--   Webhooks/Delivering the `process` of a delivery, Webhooks/Reaper the `reap_once` for deliveries,
--   Webhooks/Endpoints the service of the endpoints and the listings.
-- - Bank: apps/api/src/bank and apps/api/src/admin. Bank/Breaker has the circuit breaker,
--   Bank/Simulated the simulated bank, Bank/ConfigSync the configuration and its poll.
-- - System: the API, the workers and the relay as one step relation: submissions, every transaction
--   of a payment's and of a delivery's run, the calls of the banks, the polls of the relay, its reaper
--   and its dispatcher, the cleanup of the outbox, and the writes of the endpoints and of the
--   configuration. The reaper of deliveries only adds jobs and has no step. Each worker has a bank
--   in its memory, which a restart loses. A step is a committed transaction of one process, a call
--   of a bank or a restart, so that any interleaving and any crash between two steps is a sequence
--   of steps; a worker claims by a status that it read earlier, and settles by an answer that it holds.
-- - Audit: what the tables owe each other after every transaction, and the effects that a
--   transaction may have; Audit/Dropped looks at them together with the rows that the cleanup has
--   dropped. It is the interface between the services: each shows that its
--   transactions are such effects.
-- - Configuration: apps/api/src/config.ts. Configuration has `env`, `num` and `bool`,
--   Configuration/Numbers the `Number` of a text, Configuration/Settings the settings and their
--   `load`, Configuration/Providers `selectProvider`.
-- - Problems: apps/api/src/common/problem-detail.filter.ts, the documents that tell of errors.
-- - Console: apps/web/src. Console/Client has the calls of lib/api.ts, Console/Queries the paths of its
--   listings and the API's list-payments.query.dto.ts and list-deliveries.query.dto.ts under
--   apps/api/src, which read them, Console/Polling the hook
--   `usePolling`, Console/SubmitForm the form of components/SubmitPaymentForm.tsx, Console/Chaos and
--   Console/Pages the pages, Console/Ids `randomId`, Console/Views the rail and the navigation, and
--   Console/Architecture the diagram of lib/architecture.ts. The form and the pages are joined to the
--   API's operations above, so that a click is followed to the database and back.
-- - Schedule: the timers of the services that poll, in apps/api/src/relay, apps/api/src/webhooks and
--   apps/api/src/bank, from `onModuleInit` to `onApplicationShutdown`.
-- - Common: tests, lists, tables, sorting, pages and `trim`.
--
-- A transaction is a function from the database to an optional database: `none` is an error after
-- which everything is rolled back. The ulids, the times, the random numbers and the answer of the
-- bank are arguments, and so is the hash of a request body. Calls of `queue.add` are values that an
-- operation returns. An update with a condition on one row is a compare and swap, as in the code.
--
-- Numbers are natural numbers without a bound; amounts are checked against the largest safe integer
-- as the code does. A ulid is the number that it encodes and a timestamp is in milliseconds.
-- `decimal` has room for 21 digits, the most that the texts of numbers below 10 ^ 21 need. The walk
-- through the pages of a listing has fuel for one page more than there are rows, which is enough
-- since every page but the last holds a row.
--
-- What the language's Date makes of a time is written out in Relay/Dates. The walks over the years and the months of a date have fuel for one year in each 365 days and for
-- the eleven months after the first, which is enough since no year is shorter. A day is counted from
-- the start of year 0. What Postgres does with the statements on partitions is written out: it keeps
-- a partition that exists, and refuses a range that meets another's or a row of the default one.
--
-- Not modelled: the queue, the HTTP framework and its validation of bodies, the times of timers,
-- logging and metrics, the signature of a delivery, and the markup of the console with the formats of its times and amounts.
pub mod Common
pub mod Shared
pub mod Configuration
pub mod Console
pub mod Database
pub mod Jobs
pub mod Bank
pub mod Worker
pub mod Audit
pub mod Payments
pub mod Problems
pub mod Relay
pub mod Schedule
pub mod System
pub mod Webhooks
