-- ===== src/Relay/Reaper.antt =====
-- apps/api/src/relay/reaper.service.ts.
pub mod Unstranding
pub mod Committed
pub mod Laws
use payments_processor.Common.{
  ◌>>=◌, ℕ, ◌+◌, Bool, true, false, ◌&&◌, ◌||◌, not, Option, none, some, List, [], ◌∷◌, map,
  if◌then◌else◌, ltb, filter_by, take, mem, is_empty,
}
use payments_processor.Common.Table.{update_where}
use payments_processor.Shared.Status.{PaymentStatus, processing, retrying, status_eq}
use payments_processor.Database.{Payment, reason, PaymentEvent, Db, insert_event}
use payments_processor.Jobs.{JobId, JobName, PaymentJob}

-- The status is PROCESSING or RETRYING, and updatedAt lies before now - REAPER_DEADLINE_MS.
abbrev pub is_stuck : (deadline_ms now : ℕ) → Payment → Bool
is_stuck deadline_ms now p =
    (status_eq p.status processing || status_eq p.status retrying)
    && ltb (p.updated_at + deadline_ms) now

unfoldable pub select_stuck : (locked : ℕ → Bool) → (deadline_ms now : ℕ) → Db → List Payment
select_stuck locked deadline_ms now db =
    take 100 (filter_by (λ p. is_stuck deadline_ms now p && not (locked p.id)) db.payments)

-- The ids of the rows that are to be brought back from PROCESSING.
abbrev pub processing_ids : List Payment → List ℕ
processing_ids stuck = map (λ p. p.id) (filter_by (λ p. status_eq p.status processing) stuck)

abbrev pub unstranded : ℕ → Payment → Payment
unstranded now p = record p {
  status = retrying;
  attempt_count = p.attempt_count + 1;
  version = p.version + 1;
  updated_at = now;
}

abbrev pub reaped_event : (now id payment_id : ℕ) → PaymentEvent
reaped_event now id payment_id = record {
  id = id;
  payment_id = payment_id;
  from_status = some processing;
  to_status = retrying;
  correlation_id = none;
  metadata = some (reason "reaped");
  occurred_at = now;
}

-- `ulid()` gives the event of each id an id of its own.
abbrev pub reaped_events : (now : ℕ) (ulid : ℕ → ℕ) → List ℕ → List PaymentEvent
reaped_events now ulid ids = map (λ id. reaped_event now (ulid id) id) ids

-- INSERT INTO payment_events of several rows.
unfoldable pub insert_events : List PaymentEvent → Db → Option Db
insert_events [] db = some db
insert_events (e ∷ es) db = insert_event e db >>= insert_events es

unfoldable pub unstrand : (now : ℕ) (ulid : ℕ → ℕ) → List ℕ → Db → Option Db
unstrand now ulid ids db =
    if is_empty ids
    then some db
    else insert_events (reaped_events now ulid ids)
        (record db { payments = update_where (λ p. mem ids p.id) (unstranded now) db.payments })

-- One job for each row, enqueued after the commit at the time `enqueued`.
abbrev pub reap_job : (enqueued : ℕ) → Payment → PaymentJob
reap_job enqueued p = record {
  name = JobName.payment_reap;
  data_of = record {
    payment_id = p.id;
    amount_cents = p.amount_cents;
    currency = p.currency;
    correlation_id = none;
  };
  delay = none;
  job_id = JobId.reap p.id enqueued;
}

-- `reap_once`: the database and the calls of `queue.add`, or `none` where the transaction fails.
unfoldable pub reap_once :
    (locked : ℕ → Bool) (deadline_ms now enqueued : ℕ) (ulid : ℕ → ℕ)
    → Db
    → Option (Db × List PaymentJob)
reap_once locked deadline_ms now enqueued ulid db =
    let stuck = select_stuck locked deadline_ms now db in
    unstrand now ulid (processing_ids stuck) db >>= λ db'. some (db', map (reap_job enqueued) stuck)
