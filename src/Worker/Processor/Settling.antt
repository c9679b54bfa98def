-- ===== src/Worker/Processor/Settling.antt =====
-- The last transaction of a run of apps/api/src/worker/payment.processor.ts, on a payment that is
-- being processed.
use payments_processor.Common.{
  ℕ, ◌+◌, ◌≡◌, refl, sym, ap, inl, inr, true, false, none, some, [], ◌∷◌, ◌++◌, String, ltb, arith,
  ◌∙◌, Bool-cases, map,
}
use mathlib.Core.List.{map-append, append-nil}
use payments_processor.Common.Table.{HasUniqueKeys, update_where, returning}
use payments_processor.Shared.Status.{PaymentStatus, processing, completed, failed, can_transition}
use payments_processor.Database.{
  Payment, Metadata, PaymentEvent, JobData, Db, find_payment, find_event, has_outbox, insert_event,
}
use payments_processor.Jobs.{JobId}
use payments_processor.Audit.Statements.{insert_event_new, insert_outbox_new}
use payments_processor.Common.{◌*◌, ◌^◌}
use payments_processor.Worker.Backoff.{exponential, compute_backoff_ms}
use payments_processor.Worker.Processor.{
  WorkerConfig, World, Inputs, Ended, returned, Disposition, complete, fail, retry, retry_txn,
  retried, finish_txn, finished_as, notice, settle, settle_as, settle_retry, schedule,
}
use payments_processor.Worker.Processor.Rows.{
  matching, with_payments, returning_found, find_updated,
}
use payments_processor.Worker.Processor.Retrying.{
  retry_txn_exhausted, retry_txn_again, failure_event, retry_event_of,
}
use payments_processor.Worker.Processor.Finishing.{finish_txn_hit, finish_event}
use payments_processor.Worker.Processor.Verdicts.{
  settled_status, settled_attempts, scheduled_ids, IsSettled,
}

module _ (cfg : WorkerConfig) (inputs : Inputs) (job : JobData) where
  backoff_value : ℕ → ℕ
  backoff_value n =
      exponential cfg.base_backoff_ms cfg.cap_backoff_ms n * 2 ^ 53
      + inputs.random * exponential cfg.base_backoff_ms cfg.cap_backoff_ms n

  backoff_defined :
      (n : ℕ)
      → compute_backoff_ms cfg.base_backoff_ms cfg.cap_backoff_ms inputs.random (n + 1)
        ≡ some (backoff_value (n + 1))
  unfolding compute_backoff_ms backoff_value
  backoff_defined n = let one : ltb (n + 1) 1 ≡ false = ground arith in rw one

  scheduled_works :
      (n : ℕ) (w' : World)
      → let r = schedule cfg inputs job (some (n + 1)) w' in
        (r.0 ≡ returned)
        × (r.1.db ≡ w'.db)
        × (map (λ j. j.job_id) r.1.added
            ≡ map (λ j. j.job_id) w'.added ++ JobId.retry job.payment_id (n + 1) ∷ [])
  scheduled_works n w' =
      rw (backoff_defined n, schedule) (refl, refl, map-append (λ j. j.job_id) w'.added _)

  module _ (w : World) (p : Payment) (unique : HasUniqueKeys (λ (r : Payment). r.id) w.db.payments)
      (found : find_payment job.payment_id w.db.payments ≡ some p) (was : p.status ≡ processing)
      (new_event : find_event inputs.settle_event_id w.db.payment_events ≡ none) where
    finish_works :
        (target : PaymentStatus) (metadata : Metadata)
        → has_outbox inputs.outbox_id inputs.settle_now w.db.outbox ≡ false
        → finish_txn inputs.settle_event_id inputs.outbox_id inputs.settle_now job target metadata
            w.db
          ≡ some (record w.db {
            payments =
                update_where
                  (matching job.payment_id processing)
                  (finished_as inputs.settle_now target)
                  w.db.payments;
            payment_events =
                w.db.payment_events
                ++ finish_event inputs.settle_event_id inputs.outbox_id inputs.settle_now job target
                    metadata w.db
                  ∷ [];
            outbox = w.db.outbox ++ notice inputs.outbox_id inputs.settle_now job target ∷ [];
          })
    finish_works target metadata new_outbox =
        finish_txn_hit inputs.settle_event_id inputs.outbox_id inputs.settle_now job target metadata
          w.db p
          (returning_found job.payment_id processing (finished_as inputs.settle_now target) p
            w.db.payments unique found was)
        ∙ rw
            (insert_event_new
              (finish_event inputs.settle_event_id inputs.outbox_id inputs.settle_now job target
                metadata w.db)
              (finished_as inputs.settle_now target p)
              (with_payments w.db (matching job.payment_id processing)
                (finished_as inputs.settle_now target))
              new_event
              (find_updated job.payment_id processing (finished_as inputs.settle_now target) p
                w.db.payments (λ r. refl) found was))
            (insert_outbox_new (notice inputs.outbox_id inputs.settle_now job target) _ new_outbox)

    settle_as_works :
        (target : PaymentStatus) (metadata : Metadata)
        → can_transition processing target ≡ true
        → has_outbox inputs.outbox_id inputs.settle_now w.db.outbox ≡ false
        → let r = settle_as cfg inputs job target metadata w in
          (r.0 ≡ returned)
          × (find_payment job.payment_id r.1.db.payments
              ≡ some (finished_as inputs.settle_now target p))
          × (r.1.added ≡ w.added)
    settle_as_works target metadata way new_outbox = rw way (
        rw (finish_works target metadata new_outbox) (
          refl,
          find_updated job.payment_id processing (finished_as inputs.settle_now target) p
              w.db.payments (λ r. refl) found was,
          refl,
        ))

    retry_event_inserted :
        (e : PaymentEvent) (why : String)
        → e.id ≡ inputs.settle_event_id
        → e.payment_id ≡ job.payment_id
        → let row =
            with_payments w.db
              (matching job.payment_id processing)
              (retried cfg.max_retries inputs.settle_now why) in
          insert_event e row ≡ some (record row { payment_events = row.payment_events ++ e ∷ [] })
    retry_event_inserted e why is_new about =
        insert_event_new e (retried cfg.max_retries inputs.settle_now why p) _ (rw is_new new_event)
          (rw about (
            find_updated job.payment_id processing (retried cfg.max_retries inputs.settle_now why) p
              w.db.payments (λ r. refl) found was))

    one_retried :
        (why : String)
        → returning
            (matching job.payment_id processing)
            (retried cfg.max_retries inputs.settle_now why)
            w.db.payments
          ≡ retried cfg.max_retries inputs.settle_now why p ∷ []
    one_retried why =
        returning_found job.payment_id processing (retried cfg.max_retries inputs.settle_now why) p
          w.db.payments unique found was

    abbrev RetryWorks : String → Ended × World → Type 0
    RetryWorks why r =
        (r.0 ≡ returned)
        × (find_payment job.payment_id r.1.db.payments
            ≡ some (retried cfg.max_retries inputs.settle_now why p))
        × (map (λ j. j.job_id) r.1.added
            ≡ map (λ j. j.job_id) w.added
              ++ scheduled_ids cfg.max_retries job.payment_id p.attempt_count (retry why))

    retried_stands :
        (why : String)
        → find_payment job.payment_id (
            update_where
              (matching job.payment_id processing)
              (retried cfg.max_retries inputs.settle_now why)
              w.db.payments)
          ≡ some (retried cfg.max_retries inputs.settle_now why p)
    retried_stands why =
        find_updated job.payment_id processing (retried cfg.max_retries inputs.settle_now why) p
          w.db.payments (λ r. refl) found was

    retry_over :
        (why : String)
        → ltb cfg.max_retries (p.attempt_count + 1) ≡ true
        → RetryWorks why (settle_retry cfg inputs job why w)
    retry_over why over =
        let e : PaymentEvent =
          failure_event cfg.max_retries inputs.settle_event_id inputs.settle_now job why w.db in
        let row : Db =
          with_payments w.db (matching job.payment_id processing)
            (retried cfg.max_retries inputs.settle_now why) in
        let done : retry_txn cfg.max_retries inputs.settle_event_id inputs.settle_now job why w.db
            ≡ some (record row { payment_events = row.payment_events ++ e ∷ [] }, none) =
          retry_txn_exhausted cfg.max_retries inputs.settle_event_id inputs.settle_now job why w.db
            p (one_retried why) over
          ∙ rw (retry_event_inserted e why refl refl) in
        rw (done, settle_retry) (refl, retried_stands why, rw over (sym (append-nil _)))

    retry_under :
        (why : String)
        → ltb cfg.max_retries (p.attempt_count + 1) ≡ false
        → RetryWorks why (settle_retry cfg inputs job why w)
    retry_under why under =
        let e : PaymentEvent =
          retry_event_of cfg.max_retries inputs.settle_event_id inputs.settle_now job why w.db
            (p.attempt_count + 1) in
        let row : Db =
          with_payments w.db (matching job.payment_id processing)
            (retried cfg.max_retries inputs.settle_now why) in
        let db' : Db = record row { payment_events = row.payment_events ++ e ∷ [] } in
        let done : retry_txn cfg.max_retries inputs.settle_event_id inputs.settle_now job why w.db
            ≡ some (db', some (p.attempt_count + 1)) =
          retry_txn_again cfg.max_retries inputs.settle_event_id inputs.settle_now job why w.db p
            (one_retried why) under
          ∙ rw (retry_event_inserted e why refl refl) in
        let (ended, same, ids) = scheduled_works p.attempt_count (record w { db = db' }) in
        rw (done, settle_retry)
          (
            ended,
            ap (λ d. find_payment job.payment_id d.payments) same ∙ retried_stands why,
            rw under ids,
          )

    settle_as_settles :
        (target : PaymentStatus) (metadata : Metadata) (dis : Disposition)
        → can_transition processing target ≡ true
        → has_outbox inputs.outbox_id inputs.settle_now w.db.outbox ≡ false
        → settled_status cfg.max_retries p.attempt_count dis ≡ target
        → settled_attempts p.attempt_count dis ≡ p.attempt_count
        → scheduled_ids cfg.max_retries job.payment_id p.attempt_count dis ≡ []
        → IsSettled cfg inputs job w.added p.attempt_count p.version dis
            (settle_as cfg inputs job target metadata w)
    settle_as_settles target metadata dis way new_outbox status attempts none_scheduled =
        let (ended, stands, same) = settle_as_works target metadata way new_outbox in
        record {
          ended = ended;
          row = finished_as inputs.settle_now target p;
          found = stands;
          status = sym status;
          attempt_count = sym attempts;
          version_is = refl;
          added =
              ap (map (λ j. j.job_id)) same
              ∙ sym (append-nil _)
              ∙ ap (λ l. map (λ j. j.job_id) w.added ++ l) (sym none_scheduled);
        }

    settle_retry_settles :
        (why : String)
        → RetryWorks why (settle_retry cfg inputs job why w)
        → IsSettled cfg inputs job w.added p.attempt_count p.version
            (retry why)
            (settle_retry cfg inputs job why w)
    settle_retry_settles why (ended, stands, ids) = record {
      ended = ended;
      row = retried cfg.max_retries inputs.settle_now why p;
      found = stands;
      status = refl;
      attempt_count = refl;
      version_is = refl;
      added = ids;
    }

    pub settle_settles :
        (dis : Disposition)
        → has_outbox inputs.outbox_id inputs.settle_now w.db.outbox ≡ false
        → IsSettled cfg inputs job w.added p.attempt_count p.version dis
            (settle cfg inputs job dis w)
    unfolding settle can_transition
    settle_settles (complete m) new_outbox =
        settle_as_settles completed m (complete m) refl new_outbox refl refl refl
    settle_settles (fail m) new_outbox =
        settle_as_settles failed m (fail m) refl new_outbox refl refl refl
    settle_settles (retry why) new_outbox =
        elim (Bool-cases (ltb cfg.max_retries (p.attempt_count + 1))) [
          | inl over ↦ settle_retry_settles why (retry_over why over)
          | inr under ↦ settle_retry_settles why (retry_under why under)
        ]
