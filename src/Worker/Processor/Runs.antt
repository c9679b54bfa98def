-- ===== src/Worker/Processor/Runs.antt =====
-- A whole run of `process` in apps/api/src/worker/payment.processor.ts.
use payments_processor.Common.{
  ℕ, ◌≡◌, refl, ap, inl, inr, true, Option, none, some, String, arith, Option-cases, Bool-cases,
}
use payments_processor.Shared.Status.{PaymentStatus, processing, completed, failed, can_transition}
use payments_processor.Database.{Metadata, JobData, Db}
use payments_processor.Bank.Breaker.{CircuitBreaker, allow}
use payments_processor.Audit.{HasUniqueIds, IsConsistent}
use payments_processor.Audit.Effects.{Effect, still, Effect-HasUniqueIds, Effect-IsConsistent}
use payments_processor.Worker.Processor.{
  WorkerConfig, World, Inputs, Ended, threw, Disposition, complete, fail, retry, decide, claim_read,
  claim, retry_txn, finish_txn, settle, settle_as, settle_retry, schedule, after_reply,
  authorize_and_settle, process,
}
use payments_processor.Worker.Processor.Claiming.{claim_cas-Effect}
use payments_processor.Worker.Processor.Retrying.{retry_txn-Effect}
use payments_processor.Worker.Processor.Finishing.{finish_txn-Effect, IsVerdict}

claim_read_sound :
    (id : ℕ) (s : PaymentStatus) (db : Db)
    → claim_read id db ≡ some s
    → can_transition s processing ≡ true
unfolding claim_read
claim_read_sound id s db e = ground arith

claim-Effect :
    (event_id now : ℕ) (job : JobData) (db db' : Db)
    → HasUniqueIds db
    → claim event_id now job db ≡ some db'
    → Effect db db'
claim-Effect event_id now job db db' c e = elim (Option-cases (claim_read job.payment_id db)) [
  | inl unclaimable ↦ unfold claim in still (ground arith)
  | inr (s, read) ↦
      claim_cas-Effect event_id now job s db db' (claim_read_sound job.payment_id s db read) c
        (unfold claim in (ground arith))
]

module _ (cfg : WorkerConfig) (inputs : Inputs) (job : JobData) where
  -- What a step of the run makes of the database and the calls of `queue.add`.
  abbrev db_after : Ended × World → Db
  db_after r = r.1.db

  schedule-db : (n : Option ℕ) (w : World) → db_after (schedule cfg inputs job n w) ≡ w.db
  schedule-db none w = refl
  schedule-db (some n) w = ground arith

  settle_as-Effect :
      (target : PaymentStatus) (metadata : Metadata) (w : World)
      → IsVerdict target
      → HasUniqueIds w.db
      → Effect w.db (db_after (settle_as cfg inputs job target metadata w))
  settle_as-Effect target metadata w verdict c =
      elim (Bool-cases (can_transition processing target)) [
        | inr no_way ↦ rw no_way (still refl)
        | inl way ↦
            rw way
              (elim (Option-cases (
                finish_txn inputs.settle_event_id inputs.outbox_id inputs.settle_now job target
                  metadata w.db)) [
                    | inl failed_txn ↦ rw failed_txn (still refl)
                    | inr (db', done) ↦ rw done (
                        finish_txn-Effect inputs.settle_event_id inputs.outbox_id inputs.settle_now
                          job target metadata w.db db' verdict c done)
                  ])
      ]

  settle_retry-Effect :
      (why : String) (w : World)
      → HasUniqueIds w.db
      → Effect w.db (db_after (settle_retry cfg inputs job why w))
  settle_retry-Effect why w c =
      elim (Option-cases
        (retry_txn cfg.max_retries inputs.settle_event_id inputs.settle_now job why w.db)) [
          | inl failed_txn ↦ rw (failed_txn, settle_retry) (still refl)
          | inr ((db', scheduled), done) ↦
              rw (done, settle_retry)
                (rw (schedule-db scheduled (record w { db = db' })) (
                  retry_txn-Effect cfg.max_retries inputs.settle_event_id inputs.settle_now job why
                    w.db db' scheduled c done))
        ]

  pub settle-Effect :
      (dis : Disposition) (w : World)
      → HasUniqueIds w.db
      → Effect w.db (db_after (settle cfg inputs job dis w))
  unfolding settle
  settle-Effect (complete m) w c = settle_as-Effect completed m w (inl refl) c
  settle-Effect (fail m) w c = settle_as-Effect failed m w (inr refl) c
  settle-Effect (retry why) w c = settle_retry-Effect why w c

  -- The breaker and the bank decide what is settled, or the run throws before it settles anything.
  pub data Settles (w : World) (r : Ended × World) : Type 0 where
    thrown : (b : CircuitBreaker) → r ≡ (threw, record w { breaker = b }) → Settles w r
    by :
        (dis : Disposition) (b : CircuitBreaker)
        → r ≡ settle cfg inputs job dis (record w { breaker = b })
        → Settles w r

  after_reply-Settles :
      (o : Option Disposition) (b : CircuitBreaker) (w : World)
      → Settles w (after_reply cfg inputs job o (record w { breaker = b }))
  after_reply-Settles none b w = thrown b refl
  after_reply-Settles (some dis) b w = by dis _ refl

  pub authorize_and_settle-Settles : (w : World) → Settles w (authorize_and_settle cfg inputs job w)
  unfolding authorize_and_settle
  authorize_and_settle-Settles w =
      elim (Bool-cases (allow cfg.breaker_open_ms inputs.allow_now w.breaker).0) [
        | inl allowed ↦ rw allowed (after_reply-Settles (decide inputs.reply) _ w)
        | inr refused ↦ rw refused (by (retry "circuit_open") _ refl)
      ]

  authorize_and_settle-Effect :
      (w : World)
      → HasUniqueIds w.db
      → Effect w.db (db_after (authorize_and_settle cfg inputs job w))
  authorize_and_settle-Effect w c = elim (authorize_and_settle-Settles w) [
    | thrown b e ↦ still (ap db_after e)
    | by dis b e ↦ rw e (settle-Effect dis (record w { breaker = b }) c)
  ]

  -- A run, however it ends, has one effect on the tables and then another.
  pub data Ran (w : World) (r : Ended × World) : Type 0 where
    two : (middle : Db) → Effect w.db middle → Effect middle (db_after r) → Ran w r

  pub process-Ran : (w : World) → HasUniqueIds w.db → Ran w (process cfg inputs job w)
  unfolding process
  process-Ran w c = elim (Option-cases (claim inputs.claim_event_id inputs.claim_now job w.db)) [
    | inl failed_txn ↦ rw (failed_txn, process) (two w.db (still refl) (still refl))
    | inr (db', done) ↦
        rw (done, process)
          (let first_effect =
              claim-Effect inputs.claim_event_id inputs.claim_now job w.db db' c done in
            two db' first_effect (
              authorize_and_settle-Effect (record w { db = db' })
                (Effect-HasUniqueIds first_effect c)))
  ]

  -- Whatever the job, the answer of the bank and the state of the breaker, and whether the run
  -- returns or throws, the tables are consistent after it if they were before.
  pub process-IsConsistent :
      (w : World) → IsConsistent w.db → IsConsistent (process cfg inputs job w).1.db
  process-IsConsistent w c = elim (process-Ran w c.unique) [
    | two middle a b ↦ Effect-IsConsistent b (Effect-IsConsistent a c)
  ]
