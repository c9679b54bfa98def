-- ===== src/Worker/Processor/Idle.antt =====
-- A job that comes again after its payment is settled, apps/api/src/worker/payment.processor.ts.
use payments_processor.Common.{
  ℕ, ◌≡◌, ◌≢◌, refl, ap, inl, inr, Option, none, some, String, arith, Option-cases, Bool-cases,
}
use payments_processor.Shared.Status.{PaymentStatus, processing, completed, failed, can_transition}
use payments_processor.Shared.Status.Laws.{IsTerminal}
use payments_processor.Database.{Payment, Metadata, JobData, Db, find_payment}
use payments_processor.Audit.{HasUniqueIds}
use payments_processor.Worker.Processor.{
  WorkerConfig, World, Inputs, Ended, Disposition, complete, fail, retry, claim_read, claim,
  retry_txn, finish_txn, settle, settle_as, settle_retry, schedule, authorize_and_settle, process,
}
use payments_processor.Worker.Processor.Retrying.{
  retry_txn-Retried, Retried, missed, gave_up, again,
}
use payments_processor.Worker.Processor.Finishing.{
  finish_txn-Effect, finish_txn_hit, finish_event, IsVerdict,
}
use payments_processor.Worker.Processor.Finishing
use payments_processor.Worker.Processor.Runs.{thrown, by, authorize_and_settle-Settles}

-- No update of a settlement finds this row.
abbrev pub IsIdle : Option Payment → Type 0
IsIdle none = Unit
IsIdle (some p) = p.status ≢ processing

not_idle : (o : Option Payment) (p : Payment) → IsIdle o → o ≡ some p → p.status ≡ processing → ⊥
not_idle none p h e was = cc
not_idle (some r) p h e was = h (cc)

-- The database and the calls of `queue.add` are those of `w`.
abbrev pub Unchanged : World → Ended × World → Type 0
Unchanged w r = (r.1.db ≡ w.db) × (r.1.added ≡ w.added)

module _ (cfg : WorkerConfig) (inputs : Inputs) (job : JobData) where
  settle_as_idle :
      (target : PaymentStatus) (metadata : Metadata) (w : World)
      → HasUniqueIds w.db
      → IsIdle (find_payment job.payment_id w.db.payments)
      → Unchanged w (settle_as cfg inputs job target metadata w)
  settle_as_idle target metadata w c idle = elim (Bool-cases (can_transition processing target)) [
    | inr no_way ↦ rw no_way (refl, refl)
    | inl way ↦
        rw way
          (elim (Option-cases (
            finish_txn inputs.settle_event_id inputs.outbox_id inputs.settle_now job target metadata
              w.db)) [
                | inl failed_txn ↦ rw failed_txn (refl, refl)
                | inr (db', done) ↦
                    rw done
                      (elim (Finishing.finish_txn-Finished inputs.settle_event_id inputs.outbox_id
                        inputs.settle_now job target metadata w.db db' c done) [
                          | Finishing.missed same ↦ (same, refl)
                          | Finishing.settled p found was _ ↦ absurd (not_idle _ p idle found was)
                        ])
              ])
  ]

  Retried-idle :
      (why : String) (w : World) (db' : Db) (scheduled : Option ℕ)
      → IsIdle (find_payment job.payment_id w.db.payments)
      → Retried cfg.max_retries inputs.settle_event_id inputs.settle_now job why w.db db' scheduled
      → Unchanged w (schedule cfg inputs job scheduled (record w { db = db' }))
  Retried-idle why w db' scheduled idle (missed same nothing) = rw nothing (same, refl)
  Retried-idle why w db' scheduled idle (gave_up p found was over same nothing) =
      absurd (not_idle _ p idle found was)
  Retried-idle why w db' scheduled idle (again p found was under same next) =
      absurd (not_idle _ p idle found was)

  settle_retry_idle :
      (why : String) (w : World)
      → HasUniqueIds w.db
      → IsIdle (find_payment job.payment_id w.db.payments)
      → Unchanged w (settle_retry cfg inputs job why w)
  settle_retry_idle why w c idle =
      elim (Option-cases
        (retry_txn cfg.max_retries inputs.settle_event_id inputs.settle_now job why w.db)) [
          | inl failed_txn ↦ rw (failed_txn, settle_retry) (refl, refl)
          | inr ((db', scheduled), done) ↦
              rw (done, settle_retry)
                (Retried-idle why w db' scheduled idle (
                  retry_txn-Retried cfg.max_retries inputs.settle_event_id inputs.settle_now job why
                    w.db db' scheduled c done))
        ]

  settle_idle :
      (dis : Disposition) (w : World)
      → HasUniqueIds w.db
      → IsIdle (find_payment job.payment_id w.db.payments)
      → Unchanged w (settle cfg inputs job dis w)
  unfolding settle
  settle_idle (complete m) w c idle = settle_as_idle completed m w c idle
  settle_idle (fail m) w c idle = settle_as_idle failed m w c idle
  settle_idle (retry why) w c idle = settle_retry_idle why w c idle

  authorize_and_settle_idle :
      (w : World)
      → HasUniqueIds w.db
      → IsIdle (find_payment job.payment_id w.db.payments)
      → Unchanged w (authorize_and_settle cfg inputs job w)
  authorize_and_settle_idle w c idle = elim (authorize_and_settle-Settles cfg inputs job w) [
    | thrown b e ↦ (ap (λ r. r.1.db) e, ap (λ r. r.1.added) e)
    | by dis b e ↦ rw e (settle_idle dis (record w { breaker = b }) c idle)
  ]

  -- The payment is settled, or there is none.
  abbrev pub IsOver : Option Payment → Type 0
  IsOver none = Unit
  IsOver (some p) = IsTerminal p.status

  IsOver-IsIdle : (o : Option Payment) → IsOver o → IsIdle o
  IsOver-IsIdle none h = tt
  IsOver-IsIdle (some p) h = ground arith

  claim_over :
      (db : Db)
      → IsOver (find_payment job.payment_id db.payments)
      → claim inputs.claim_event_id inputs.claim_now job db ≡ some db
  unfolding claim claim_read can_transition
  claim_over db h = elim (Option-cases (find_payment job.payment_id db.payments)) [
    | inl missing ↦ rw missing
    | inr (p, found) ↦ ground (arith)
  ]

  -- A job whose payment is already completed or failed, or does not exist, changes nothing in the
  -- database and adds no job, whatever the breaker and the bank answer.
  pub process_over :
      (w : World)
      → HasUniqueIds w.db
      → IsOver (find_payment job.payment_id w.db.payments)
      → Unchanged w (process cfg inputs job w)
  unfolding process
  process_over w c over =
      rw (claim_over w.db over, process)
        (authorize_and_settle_idle w c
          (IsOver-IsIdle (find_payment job.payment_id w.db.payments) over))
