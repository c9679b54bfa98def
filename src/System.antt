-- ===== src/System.antt =====
-- The processes of apps/api/src side by side: the API, the workers with the bank in the memory of
-- each, and the relay with its reaper, its dispatchers and its cleanup. Each step is one committed
-- transaction, one call of a bank or one restart, so any interleaving of the processes, with crashes
-- between their steps, is a sequence of steps.
pub mod Charged
pub mod Completion
pub mod Laws
mod Tests
use payments_processor.Common.{
  ℕ, ◌≡◌, ◌⊎◌, Bool, true, not, Option, some, List, [], ◌∷◌, ◌++◌, String, ◌==◌, filter_by,
  if◌then◌else◌,
}
use payments_processor.Shared.Status.{PaymentStatus, processing, completed, failed, can_transition}
use payments_processor.Database.{
  Metadata, JobData, BankMode, WebhookEndpoint, WebhookDelivery, Outbox, Db,
}
use payments_processor.Audit.Dropped.{cleaned}
use payments_processor.Bank.ConfigSync.{UpdateBankConfigDto, update}
use payments_processor.Webhooks.Endpoints.{insert_endpoint, delete}
use payments_processor.Jobs.{PaymentJob, WebhookJob}
use payments_processor.Bank.{BankAuthorizeRequest, BankOutcome}
use payments_processor.Bank.Simulated.{SimulatedBankAdapter, new_bank, authorize, set_config}
use payments_processor.Worker.Processor.{
  complete, fail, of_outcome, claim_cas, retry_txn, finish_txn,
}
use payments_processor.Payments.Service.{CreatePaymentDto, Fresh, insert_txn}
use payments_processor.Webhooks.Dispatcher.{dispatch_txn}
use payments_processor.Webhooks.Delivering.{WebhookConfig, Reply, Hooks, after_request}
use payments_processor.Relay.Poll.{poll_once}
use payments_processor.Relay.Reaper.{reap_once}

-- The tables, and the banks of the workers. `dropped` and `answers` are histories that no process
-- keeps: the rows that have left the outbox, and the answers that the banks have given, by payment.
pub record State : Type 0 where
  pub db : Db
  pub banks : ℕ → SimulatedBankAdapter
  pub dropped : List Outbox
  pub answers : List (ℕ × BankOutcome)

abbrev pub no_rows : Db
no_rows = record {
  payments = [];
  payment_events = [];
  idempotency_keys = [];
  outbox = [];
  webhook_endpoints = [];
  webhook_deliveries = [];
  bank_config = [];
}

pub start : State
start = record { db = no_rows; banks = λ w. new_bank; dropped = []; answers = [] }

-- The banks where that of one worker has changed.
abbrev pub set_bank :
    ℕ → SimulatedBankAdapter → (ℕ → SimulatedBankAdapter) → ℕ → SimulatedBankAdapter
set_bank w b banks v = if v == w then b else banks v

-- What the worker asks of the bank for a job.
abbrev pub request_of : JobData → BankAuthorizeRequest
request_of job = record {
  payment_id = job.payment_id;
  amount_cents = job.amount_cents;
  currency = job.currency;
  idempotency_key = job.payment_id;
}

-- A worker has got this answer for the payment.
abbrev pub Held : ℕ → BankOutcome → List (ℕ × BankOutcome) → Type 0
Held k o [] = ⊥
Held k o ((j, p) ∷ answers) = ((j ≡ k) × (p ≡ o)) ⊎ Held k o answers

pub data Step (s : State) : State → Type 0 where
  -- A request of a client, whether it succeeds or not.
  submits :
      (fresh : Fresh) (dto : CreatePaymentDto) (key hash cor : String)
      → Step s (record s { db = (insert_txn fresh dto key hash cor s.db).1 })
  -- A worker claims a payment by a status that it read at any time before.
  claims :
      (event_id now : ℕ) (job : JobData) (from : PaymentStatus) (db' : Db)
      → can_transition from processing ≡ true
      → claim_cas event_id now job from s.db ≡ some db'
      → Step s (record s { db = db' })
  -- A worker calls its bank. It may lose the answer, by its timer or by a crash.
  calls :
      (w : ℕ) (job : JobData)
      → Step s (record s {
        banks = set_bank w (authorize (request_of job) (s.banks w)).1 s.banks;
        answers = (job.payment_id, (authorize (request_of job) (s.banks w)).0) ∷ s.answers;
      })
  -- A worker starts anew, with a bank that knows nothing.
  restarts : (w : ℕ) → Step s (record s { banks = set_bank w new_bank s.banks })
  -- A worker settles a payment by an answer, at any time after it.
  completes :
      (event_id outbox_id now : ℕ) (job : JobData) (o : BankOutcome) (metadata : Metadata)
      (db' : Db)
      → Held job.payment_id o s.answers
      → of_outcome o ≡ complete metadata
      → finish_txn event_id outbox_id now job completed metadata s.db ≡ some db'
      → Step s (record s { db = db' })
  fails :
      (event_id outbox_id now : ℕ) (job : JobData) (o : BankOutcome) (metadata : Metadata)
      (db' : Db)
      → Held job.payment_id o s.answers
      → of_outcome o ≡ fail metadata
      → finish_txn event_id outbox_id now job failed metadata s.db ≡ some db'
      → Step s (record s { db = db' })
  -- A worker gives an attempt up, for a timeout, an open circuit or an answer.
  retries :
      (max_retries event_id now : ℕ) (job : JobData) (why : String) (db' : Db)
      (scheduled : Option ℕ)
      → retry_txn max_retries event_id now job why s.db ≡ some (db', scheduled)
      → Step s (record s { db = db' })
  -- The relay publishes submissions.
  publishes :
      (locked : ℕ → Bool) (now : ℕ) → Step s (record s { db = (poll_once locked now s.db).0 })
  -- The dispatcher hands out notices of settled payments.
  dispatches :
      (locked : ℕ → Bool) (now : ℕ) (ulid : ℕ → ℕ → ℕ) (db' : Db) (rows : List WebhookDelivery)
      → dispatch_txn locked now ulid s.db ≡ some (db', rows)
      → Step s (record s { db = db' })
  -- A worker writes what became of a delivery, by the row as it read it at any time before.
  delivers :
      (cfg : WebhookConfig) (now random : ℕ) (delivery : WebhookDelivery) (reply : Reply)
      (added : List WebhookJob)
      → Step s (record s {
        db =
            (after_request cfg now random delivery reply
              (record { db = s.db; added = added })).1.db;
      })
  -- The reaper brings stranded payments back.
  reaps :
      (locked : ℕ → Bool) (deadline_ms now enqueued : ℕ) (ulid : ℕ → ℕ) (db' : Db)
      (jobs : List PaymentJob)
      → reap_once locked deadline_ms now enqueued ulid s.db ≡ some (db', jobs)
      → Step s (record s { db = db' })
  -- The cleanup drops partitions of the outbox, whichever rows are in them.
  cleans :
      (gone : Outbox → Bool)
      → Step s
          (record s { db = cleaned gone s.db; dropped = s.dropped ++ filter_by gone s.db.outbox })
  -- The bank of a worker is configured anew.
  configures :
      (w : ℕ) (mode : Option BankMode) (fail_n latency_ms : Option ℕ)
      → Step s
          (record s { banks = set_bank w (set_config mode fail_n latency_ms (s.banks w)) s.banks })
  -- An operator writes the configuration of the banks.
  reconfigures :
      (now : ℕ) (dto : UpdateBankConfigDto) → Step s (record s { db = (update now dto s.db).1 })
  -- An endpoint for webhooks is registered.
  registers :
      (id now : ℕ) (url secret : String) (row : WebhookEndpoint) (db' : Db)
      → insert_endpoint id now url secret s.db ≡ some (row, db')
      → Step s (record s { db = db' })
  -- An endpoint is deactivated.
  deactivates : (id : ℕ) → Step s (record s { db = (delete id s.db).1 })

-- Any number of steps.
pub data Reachable (s : State) : State → Type 0 where
  here : Reachable s s
  and_then : {t u : State} → Reachable s t → Step t u → Reachable s u
