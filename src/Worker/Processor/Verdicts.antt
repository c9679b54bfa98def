-- ===== src/Worker/Processor/Verdicts.antt =====
-- How a run of apps/api/src/worker/payment.processor.ts is to leave its payment.
use payments_processor.Common.{
  ℕ, ◌+◌, ◌≡◌, ◌≢◌, true, false, String, Option, none, some, List, [], ◌∷◌, ◌++◌, ltb,
  if◌then◌else◌, map,
}
use payments_processor.Shared.Status.{PaymentStatus, completed, failed, retrying}
use payments_processor.Database.{
  BankRef, bank_ref, reason, Payment, JobData, Db, find_payment, find_event, has_outbox,
}
use payments_processor.Jobs.{JobId, PaymentJob}
use payments_processor.Bank.{authorized, declined, error, answered, timed_out}
use payments_processor.Bank.Breaker.{CircuitBreaker, allow}
use payments_processor.Worker.Processor.{
  WorkerConfig, World, Inputs, Ended, returned, Disposition, complete, fail, retry, decide,
}

-- How a run is decided: the breaker refuses the call, or the bank answers or times out. An error that the
-- bank may get over, and a call that is refused or times out, are tried again.
pub data Decided (cfg : WorkerConfig) (inputs : Inputs) (b : CircuitBreaker)
    : Disposition → Type 0 where
  refuses :
      (allow cfg.breaker_open_ms inputs.allow_now b).0 ≡ false
      → Decided cfg inputs b (retry "circuit_open")
  authorizes :
      (r : BankRef)
      → (allow cfg.breaker_open_ms inputs.allow_now b).0 ≡ true
      → inputs.reply ≡ answered (authorized r)
      → Decided cfg inputs b (complete (bank_ref r))
  declines :
      (why : String)
      → (allow cfg.breaker_open_ms inputs.allow_now b).0 ≡ true
      → inputs.reply ≡ answered (declined why)
      → Decided cfg inputs b (fail (reason why))
  errs_for_now :
      (why : String)
      → (allow cfg.breaker_open_ms inputs.allow_now b).0 ≡ true
      → inputs.reply ≡ answered (error true why)
      → Decided cfg inputs b (retry why)
  errs_for_good :
      (why : String)
      → (allow cfg.breaker_open_ms inputs.allow_now b).0 ≡ true
      → inputs.reply ≡ answered (error false why)
      → Decided cfg inputs b (fail (reason why))
  times_out :
      (allow cfg.breaker_open_ms inputs.allow_now b).0 ≡ true
      → inputs.reply ≡ timed_out
      → Decided cfg inputs b (retry "bank_timeout")

-- The breaker and the bank's reply, as the code makes one disposition of them.
abbrev pub verdict : WorkerConfig → Inputs → CircuitBreaker → Option Disposition
verdict cfg inputs b =
    if (allow cfg.breaker_open_ms inputs.allow_now b).0
    then decide inputs.reply
    else some (retry "circuit_open")

pub verdict-Decided :
    (cfg : WorkerConfig) (inputs : Inputs) (b : CircuitBreaker) (dis : Disposition)
    → Decided cfg inputs b dis
    → verdict cfg inputs b ≡ some dis
verdict-Decided cfg inputs b _ (refuses shut) = rw shut
verdict-Decided cfg inputs b _ (authorizes r may said) = rw (may, said)
verdict-Decided cfg inputs b _ (declines why may said) = rw (may, said)
verdict-Decided cfg inputs b _ (errs_for_now why may said) = rw (may, said)
verdict-Decided cfg inputs b _ (errs_for_good why may said) = rw (may, said)
verdict-Decided cfg inputs b _ (times_out may said) = rw (may, said)

-- The status in which a disposition leaves a payment that was tried `attempts` times before.
abbrev pub settled_status : (max_retries attempts : ℕ) → Disposition → PaymentStatus
settled_status max_retries attempts (complete m) = completed
settled_status max_retries attempts (fail m) = failed
settled_status max_retries attempts (retry why) =
    if ltb max_retries (attempts + 1) then failed else retrying

abbrev pub settled_attempts : ℕ → Disposition → ℕ
settled_attempts attempts (complete m) = attempts
settled_attempts attempts (fail m) = attempts
settled_attempts attempts (retry why) = attempts + 1

-- The jobs that are scheduled: one, under the number of the attempt, while attempts are left.
abbrev pub scheduled_ids : (max_retries payment_id attempts : ℕ) → Disposition → List JobId
scheduled_ids max_retries payment_id attempts (complete m) = []
scheduled_ids max_retries payment_id attempts (fail m) = []
scheduled_ids max_retries payment_id attempts (retry why) =
    if ltb max_retries (attempts + 1) then [] else JobId.retry payment_id (attempts + 1) ∷ []

-- The ulids that a run is given are new and differ.
pub record AreNew (inputs : Inputs) (db : Db) : Type 0 where
  pub claim_event : find_event inputs.claim_event_id db.payment_events ≡ none
  pub settle_event : find_event inputs.settle_event_id db.payment_events ≡ none
  pub distinct : inputs.claim_event_id ≢ inputs.settle_event_id
  pub outbox : has_outbox inputs.outbox_id inputs.settle_now db.outbox ≡ false

module _ (cfg : WorkerConfig) (inputs : Inputs) (job : JobData) where
  -- A run has ended well, with the payment settled as the disposition says, and with the jobs that
  -- the disposition schedules added to those before.
  pub record IsSettled (before : List PaymentJob) (attempts version : ℕ) (dis : Disposition)
      (r : Ended × World) : Type 0 where
    pub ended : r.0 ≡ returned
    pub row : Payment
    pub found : find_payment job.payment_id r.1.db.payments ≡ some row
    pub status : row.status ≡ settled_status cfg.max_retries attempts dis
    pub attempt_count : row.attempt_count ≡ settled_attempts attempts dis
    pub version_is : row.version ≡ version + 1
    pub added :
        map (λ j. j.job_id) r.1.added
        ≡ map (λ j. j.job_id) before ++ scheduled_ids cfg.max_retries job.payment_id attempts dis
