-- ===== src/Worker/Processor.antt =====
-- apps/api/src/worker/payment.processor.ts. Each transaction is a function of the database that
-- fails, with the database rolled back, where one of its inserts does.
pub mod Rows
pub mod Claiming
pub mod Retrying
pub mod Finishing
pub mod Runs
pub mod Idle
pub mod Verdicts
pub mod Settling
pub mod Outcomes
use payments_processor.Common.{
  ◌>>=◌, ℕ, ◌+◌, Bool, true, false, ◌&&◌, ◌||◌, not, Option, none, some, List, [], ◌∷◌, ◌++◌,
  String, ◌==◌, ltb, if◌then◌else◌, is_empty,
}
use payments_processor.Common.Table.{update_where, returning, first}
use payments_processor.Shared.Status.{
  PaymentStatus, processing, completed, failed, retrying, status_eq, can_transition,
}
use payments_processor.Database.{
  Payment, Metadata, reason, exhausted, attempt, bank_ref, PaymentEvent, EventType,
  payment_completed, payment_failed, JobData, settlement, Outbox, Db, find_payment, insert_event,
  insert_outbox,
}
use payments_processor.Jobs.{JobId, JobName, PaymentJob}
use payments_processor.Bank.{
  BankOutcome, authorized, declined, error, BankReply, answered, timed_out, rejected,
}
use payments_processor.Bank.Breaker.{CircuitBreaker, allow, record_outcome}
use payments_processor.Worker.Backoff.{compute_backoff_ms}

-- The values of apps/api/src/config.ts that the worker reads.
pub record WorkerConfig : Type 0 where
  pub base_backoff_ms : ℕ
  pub cap_backoff_ms : ℕ
  pub max_retries : ℕ
  pub breaker_threshold : ℕ
  pub breaker_open_ms : ℕ

-- Transaction 1, first statement: the status that is read, where it allows the claim.
unfoldable pub claim_read : ℕ → Db → Option PaymentStatus
claim_read payment_id db = do
  row ← find_payment payment_id db.payments
  if can_transition row.status processing then some row.status else none

abbrev pub claimed : ℕ → Payment → Payment
claimed now p = record p { status = processing; version = p.version + 1; updated_at = now }

abbrev pub transition_event :
    (id now payment_id : ℕ) (from to : PaymentStatus)
    → Option String
    → Option Metadata
    → PaymentEvent
transition_event id now payment_id from to correlation_id metadata = record {
  id = id;
  payment_id = payment_id;
  from_status = some from;
  to_status = to;
  correlation_id = correlation_id;
  metadata = metadata;
  occurred_at = now;
}

-- Transaction 1, the rest: compare the status and set it, and write the event. Another worker may
-- commit between the two parts.
unfoldable pub claim_cas : (event_id now : ℕ) → JobData → PaymentStatus → Db → Option Db
claim_cas event_id now job from db =
    let where_claimable = λ (p : Payment). p.id == job.payment_id && status_eq p.status from in
    let rows = returning where_claimable (claimed now) db.payments in
    let db' = record db { payments = update_where where_claimable (claimed now) db.payments } in
    if is_empty rows
    then some db'
    else insert_event
        (transition_event event_id now job.payment_id from processing job.correlation_id none) db'

abbrev claim_from : (event_id now : ℕ) → JobData → Option PaymentStatus → Db → Option Db
claim_from event_id now job none db = some db
claim_from event_id now job (some from) db = claim_cas event_id now job from db

-- Transaction 1 when no other process commits meanwhile.
unfoldable pub claim : (event_id now : ℕ) → JobData → Db → Option Db
claim event_id now job db = claim_from event_id now job (claim_read job.payment_id db) db

pub data Disposition : Type 0 where
  complete : Metadata → Disposition
  fail : Metadata → Disposition
  retry : (reason : String) → Disposition

abbrev pub is_retry : Disposition → Bool
is_retry (complete _) = false
is_retry (fail _) = false
is_retry (retry _) = true

-- The `switch` on the bank's answer.
abbrev pub of_outcome : BankOutcome → Disposition
of_outcome (authorized r) = complete (bank_ref r)
of_outcome (declined why) = fail (reason why)
of_outcome (error true why) = retry why
of_outcome (error false why) = fail (reason why)

-- The `try` and `catch` around the call; `none` is an error that is thrown on.
abbrev pub decide : BankReply → Option Disposition
decide (answered o) = some (of_outcome o)
decide timed_out = some (retry "bank_timeout")
decide rejected = none

-- The assignments of the retry, whose right-hand sides read the old row.
abbrev pub retried : (max_retries now : ℕ) → String → Payment → Payment
retried max_retries now why p = record p {
  attempt_count = p.attempt_count + 1;
  last_error_code = some why;
  version = p.version + 1;
  updated_at = now;
  status = if ltb max_retries (p.attempt_count + 1) then failed else retrying;
}

-- What follows the update: the event, and the attempt to schedule.
abbrev retry_event :
    (event_id now : ℕ) → JobData → String → Option Payment → Db → Option (Db × Option ℕ)
retry_event event_id now job why none db = some (db, none)
retry_event event_id now job why (some row) db =
    if status_eq row.status failed
    then (do
      db' ←
          insert_event
            (transition_event event_id now job.payment_id processing failed job.correlation_id
              (some (exhausted why)))
            db
      some (db', none))
    else (do
      db' ←
          insert_event
            (transition_event event_id now job.payment_id processing retrying job.correlation_id
              (some (attempt why row.attempt_count)))
            db
      some (db', some row.attempt_count))

-- The transaction of a retry: the database, and the attempt to schedule.
unfoldable pub retry_txn :
    (max_retries event_id now : ℕ) → JobData → String → Db → Option (Db × Option ℕ)
retry_txn max_retries event_id now job why db =
    let where_processing =
      λ (p : Payment). p.id == job.payment_id && status_eq p.status processing in
    let f = retried max_retries now why in
    let rows = returning where_processing f db.payments in
    let db' = record db { payments = update_where where_processing f db.payments } in
    if not (can_transition processing retrying) || not (can_transition processing failed)
    then none
    else retry_event event_id now job why (first rows) db'

abbrev pub finished_as : (now : ℕ) → PaymentStatus → Payment → Payment
finished_as now target p = record p { status = target; version = p.version + 1; updated_at = now }

-- dis.target === 'COMPLETED' ? 'payment.completed' : 'payment.failed'
abbrev pub notice_type : PaymentStatus → EventType
notice_type target = if status_eq target completed then payment_completed else payment_failed

abbrev pub notice : (id now : ℕ) → JobData → PaymentStatus → Outbox
notice id now job target = record {
  id = id;
  aggregate_type = "payment";
  aggregate_id = job.payment_id;
  event_type = notice_type target;
  payload = settlement job target;
  published_at = none;
  webhook_dispatched_at = none;
  created_at = now;
}

-- Transaction 2: settle the payment, and write the event and the notice for the webhooks.
unfoldable pub finish_txn :
    (event_id outbox_id now : ℕ) → JobData → PaymentStatus → Metadata → Db → Option Db
finish_txn event_id outbox_id now job target metadata db =
    let where_processing =
      λ (p : Payment). p.id == job.payment_id && status_eq p.status processing in
    let f = finished_as now target in
    let rows = returning where_processing f db.payments in
    let db' = record db { payments = update_where where_processing f db.payments } in
    if is_empty rows then some db' else (do
      db'' ←
          insert_event
            (transition_event event_id now job.payment_id processing target job.correlation_id
              (some metadata))
            db'
      insert_outbox (notice outbox_id now job target) db'')

-- The database, the worker's breaker, and the calls of `queue.add` made so far.
pub record World : Type 0 where
  pub db : Db
  pub breaker : CircuitBreaker
  pub added : List PaymentJob

-- What a run takes from outside: new ulids, the times at which it reads the clock, a random number,
-- and how the call of the bank ends.
pub record Inputs : Type 0 where
  pub claim_event_id : ℕ
  pub claim_now : ℕ
  pub allow_now : ℕ
  pub reply : BankReply
  pub record_now : ℕ
  pub settle_event_id : ℕ
  pub outbox_id : ℕ
  pub settle_now : ℕ
  pub random : ℕ

-- How a run ends. After a throw, what was committed and added stays.
pub data Ended : Type 0 where
  returned threw : Ended

module _ (cfg : WorkerConfig) (inputs : Inputs) (job : JobData) where
  open cfg use {base_backoff_ms, cap_backoff_ms, max_retries, breaker_threshold, breaker_open_ms}
  open inputs use {
    claim_event_id, claim_now, allow_now, reply, record_now, settle_event_id, outbox_id, settle_now,
    random,
  }

  abbrev pub retry_job : (n delay : ℕ) → PaymentJob
  retry_job n delay = record {
    name = JobName.payment_retry;
    data_of = job;
    delay = some delay;
    job_id = JobId.retry job.payment_id n;
  }

  -- The call of `queue.add` behind the transaction of a retry.
  abbrev pub schedule : Option ℕ → World → Ended × World
  schedule none w = (returned, w)
  schedule (some n) w = elim (compute_backoff_ms base_backoff_ms cap_backoff_ms random n) [
    | none ↦ (threw, w)
    | some delay ↦ (returned, record w { added = w.added ++ retry_job n delay ∷ [] })
  ]

  abbrev pub settle_retry : String → World → Ended × World
  settle_retry why w = elim (retry_txn max_retries settle_event_id settle_now job why w.db) [
    | none ↦ (threw, w)
    | some (db', scheduled) ↦ schedule scheduled (record w { db = db' })
  ]

  abbrev pub settle_as : PaymentStatus → Metadata → World → Ended × World
  settle_as target metadata w =
      if not (can_transition processing target)
      then (threw, w)
      else (elim (finish_txn settle_event_id outbox_id settle_now job target metadata w.db) [
        | none ↦ (threw, w)
        | some db' ↦ (returned, record w { db = db' })
      ])

  unfoldable pub settle : Disposition → World → Ended × World
  settle (complete metadata) w = settle_as completed metadata w
  settle (fail metadata) w = settle_as failed metadata w
  settle (retry why) w = settle_retry why w

  abbrev pub after_reply : Option Disposition → World → Ended × World
  after_reply none w = (threw, w)
  after_reply (some dis) w = settle dis (record w {
    breaker = record_outcome breaker_threshold (not (is_retry dis)) record_now w.breaker;
  })

  -- Ask the breaker, call the bank, and settle.
  unfoldable pub authorize_and_settle : World → Ended × World
  authorize_and_settle w =
      let (allowed, b) = allow breaker_open_ms allow_now w.breaker in
      let w' = record w { breaker = b } in
      if allowed then after_reply (decide reply) w' else settle (retry "circuit_open") w'

  -- `process`
  unfoldable pub process : World → Ended × World
  process w = elim (claim claim_event_id claim_now job w.db) [
    | none ↦ (threw, w)
    | some db' ↦ authorize_and_settle (record w { db = db' })
  ]
