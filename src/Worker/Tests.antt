-- ===== src/Worker/Tests.antt =====
-- The laws of apps/api/src/worker at concrete inputs.
use payments_processor.Common.{
  ◌≡◌, ◌≤◌, ◌<◌, ◌+◌, ◌-◌, ◌*◌, ◌^◌, min, ℕ, refl, inl, inr, true, none, some, [], ◌∷◌, ◌==◌,
  Bool-cases, arith,
}
use payments_processor.Shared.Status.Laws.{IsTerminal}
use payments_processor.Worker.Processor.Idle.{Unchanged, process_over}
use payments_processor.Shared.Status.{PaymentStatus, completed, pending, processing, can_transition}
use payments_processor.Database.{
  Outbox, payment_completed, settlement, Payment, PaymentEvent, of_key, reason, JobData, Db,
  find_payment, bank_ref,
}
use payments_processor.Bank.{authorized, answered}
use payments_processor.Bank.Breaker.{closed, allow}
use payments_processor.Audit.{IsAudited, IsNotified, IsConsistent, events_of, notices_of}
use payments_processor.Worker.Backoff.{millisecond, exponential, compute_backoff_ms}
use payments_processor.Worker.Backoff.Laws.{compute_backoff_ms_bounds}
use payments_processor.Worker.Processor.{WorkerConfig, World, Inputs, process, complete}
use payments_processor.Worker.Processor.Runs.{process-IsConsistent}
use payments_processor.Worker.Processor.Verdicts.{AreNew, IsSettled, Decided, authorizes}
use payments_processor.Worker.Processor.Outcomes.{process_settles}

random_small : 5 < 2 ^ 53
random_small = omega arith

first_attempt : 1 ≤ 1
first_attempt = omega arith

compute_backoff_ms_bounds_example :
    (d : ℕ) × (compute_backoff_ms 1000 60_000 5 1 ≡ some d)
    × (d ≤ 60_000 * millisecond)
    × (min (1000 * 2 ^ (1 - 1)) 60_000 * 2 ^ 53 ≤ d)
compute_backoff_ms_bounds_example =
    compute_backoff_ms_bounds 1000 60_000 5 1 random_small first_attempt

first_delay : compute_backoff_ms 1000 60_000 5 1 ≡ some (1000 * 2 ^ 53 + 5 * 1000)
unfolding compute_backoff_ms exponential
first_delay = refl

second_delay : compute_backoff_ms 1000 60_000 7 2 ≡ some (2000 * 2 ^ 53 + 7 * 2000)
unfolding compute_backoff_ms exponential
second_delay = refl

abbrev waiting : Payment
waiting = record {
  id = 1;
  customer_id = "cust_1";
  source_account = "acc_a";
  destination_account = "acc_b";
  amount_cents = 1050;
  currency = "USD";
  reference = none;
  status = pending;
  version = 0;
  attempt_count = 0;
  last_error_code = none;
  created_at = 1000;
  updated_at = 1000;
}

abbrev submission_event : PaymentEvent
submission_event = record {
  id = 2;
  payment_id = 1;
  from_status = none;
  to_status = pending;
  correlation_id = some "cor";
  metadata = some (reason "submitted");
  occurred_at = 1000;
}

abbrev one_waiting : Db
one_waiting = record {
  payments = waiting ∷ [];
  payment_events = submission_event ∷ [];
  idempotency_keys = [];
  outbox = [];
  webhook_endpoints = [];
  webhook_deliveries = [];
  bank_config = [];
}

one_waiting-IsAudited :
    (id : ℕ)
    → IsAudited (find_payment id one_waiting.payments) (events_of id one_waiting.payment_events)
one_waiting-IsAudited id = elim (Bool-cases (1 == id)) [
  | inl same ↦ rw same ((refl, refl, refl), refl)
  | inr other ↦ rw other refl
]

one_waiting-IsNotified :
    (id : ℕ) → IsNotified (find_payment id one_waiting.payments) (notices_of id one_waiting.outbox)
one_waiting-IsNotified id = elim (Bool-cases (1 == id)) [
  | inl same ↦ rw same refl
  | inr other ↦ rw other refl
]

one_waiting-IsConsistent : IsConsistent one_waiting
one_waiting-IsConsistent = record {
  unique = (refl, tt);
  audited = one_waiting-IsAudited;
  notified = one_waiting-IsNotified;
}

abbrev config : WorkerConfig
config = record {
  base_backoff_ms = 1000;
  cap_backoff_ms = 60_000;
  max_retries = 5;
  breaker_threshold = 5;
  breaker_open_ms = 10_000;
}

abbrev run_inputs : Inputs
run_inputs = record {
  claim_event_id = 10;
  claim_now = 2000;
  allow_now = 2001;
  reply = answered (authorized (of_key 1));
  record_now = 2002;
  settle_event_id = 11;
  outbox_id = 12;
  settle_now = 2003;
  random = 5;
}

abbrev payment_job : JobData
payment_job = record {
  payment_id = 1;
  amount_cents = 1050;
  currency = "USD";
  correlation_id = some "cor";
}

abbrev start : World
start = record {
  db = one_waiting;
  breaker = record { state = closed; opened_at = 0; failures = 0 };
  added = [];
}

process-IsConsistent_example : IsConsistent (process config run_inputs payment_job start).1.db
process-IsConsistent_example =
    process-IsConsistent config run_inputs payment_job start one_waiting-IsConsistent

claimable : can_transition pending processing ≡ true
unfolding can_transition
claimable = refl

run-AreNew : AreNew run_inputs one_waiting
run-AreNew = record {
  claim_event = refl;
  settle_event = refl;
  distinct = omega arith;
  outbox = refl;
}

run-Decided : Decided config run_inputs start.breaker (complete (bank_ref (of_key 1)))
unfolding allow
run-Decided = authorizes (of_key 1) refl refl

process_settles_example :
    IsSettled config run_inputs payment_job [] 0 1
      (complete (bank_ref (of_key 1)))
      (process config run_inputs payment_job start)
process_settles_example =
    process_settles config run_inputs payment_job start waiting (complete (bank_ref (of_key 1)))
      (refl, tt) refl claimable run-AreNew run-Decided

abbrev moved_event : (id : ℕ) → (from to : PaymentStatus) → PaymentEvent
moved_event id from to = record submission_event {
  id = id;
  from_status = some from;
  to_status = to;
}

abbrev completion_notice : Outbox
completion_notice = record {
  id = 12;
  aggregate_type = "payment";
  aggregate_id = 1;
  event_type = payment_completed;
  payload = settlement payment_job completed;
  published_at = none;
  webhook_dispatched_at = none;
  created_at = 2003;
}

abbrev one_completed : Db
one_completed = record one_waiting {
  payments = (record waiting { status = completed; version = 2 }) ∷ [];
  payment_events =
      submission_event
      ∷ moved_event 10 pending processing
      ∷ moved_event 11 processing completed
      ∷ [];
  outbox = completion_notice ∷ [];
}

completable : can_transition processing completed ≡ true
unfolding can_transition
completable = refl

one_completed-IsAudited :
    (id : ℕ)
    → IsAudited (find_payment id one_completed.payments) (events_of id one_completed.payment_events)
one_completed-IsAudited id = elim (Bool-cases (1 == id)) [
  | inl same ↦ rw same ((refl, refl, (refl, claimable, (refl, completable, refl))), refl)
  | inr other ↦ rw other refl
]

one_completed-IsNotified :
    (id : ℕ)
    → IsNotified (find_payment id one_completed.payments) (notices_of id one_completed.outbox)
one_completed-IsNotified id = elim (Bool-cases (1 == id)) [
  | inl same ↦ rw same refl
  | inr other ↦ rw other refl
]

one_completed-IsConsistent : IsConsistent one_completed
one_completed-IsConsistent = record {
  unique = (refl, tt);
  audited = one_completed-IsAudited;
  notified = one_completed-IsNotified;
}

abbrev later : World
later = record start { db = one_completed }

is_completed : IsTerminal completed
is_completed = inl refl

process_over_example : Unchanged later (process config run_inputs payment_job later)
process_over_example = process_over config run_inputs payment_job later (refl, tt) is_completed
