-- ===== src/Worker/Processor/Outcomes.antt =====
-- How a run of apps/api/src/worker/payment.processor.ts settles a payment that is due.
use payments_processor.Common.{
  ◌+◌, ◌≡◌, refl, ap, inl, inr, true, none, some, [], ◌∷◌, ◌++◌, arith, ◌∙◌, Bool-cases, not,
}
use payments_processor.Common.Table.{HasUniqueKeys, update_where-HasUniqueKeys, find-append}
use payments_processor.Shared.Status.{processing, can_transition}
use payments_processor.Database.{Payment, PaymentEvent, JobData, Db, find_payment, find_event}
use payments_processor.Bank.Breaker.{CircuitBreaker, allow, record_outcome}
use payments_processor.Audit.{HasUniqueIds}
use payments_processor.Audit.Statements.{insert_event_new}
use payments_processor.Worker.Processor.{
  WorkerConfig, World, Inputs, Disposition, retry, is_retry, decide, claim_read, claim, claimed,
  transition_event, settle, authorize_and_settle, process,
}
use payments_processor.Worker.Processor.Rows.{
  matching, with_payments, returning_found, find_updated,
}
use payments_processor.Worker.Processor.Claiming.{claim_cas_hit}
use payments_processor.Worker.Processor.Verdicts.{
  Decided, verdict, verdict-Decided, AreNew, IsSettled,
}
use payments_processor.Worker.Processor.Settling.{settle_settles}

module _ (cfg : WorkerConfig) (inputs : Inputs) (job : JobData) where
  claimed_db : Payment → Db → Db
  claimed_db p db =
      let row = with_payments db (matching job.payment_id p.status) (claimed inputs.claim_now) in
      record row {
        payment_events =
            row.payment_events
            ++ transition_event inputs.claim_event_id inputs.claim_now job.payment_id p.status
                processing job.correlation_id none
              ∷ [];
      }

  claim_works :
      (p : Payment) (db : Db)
      → HasUniqueKeys (λ (r : Payment). r.id) db.payments
      → find_payment job.payment_id db.payments ≡ some p
      → can_transition p.status processing ≡ true
      → find_event inputs.claim_event_id db.payment_events ≡ none
      → claim inputs.claim_event_id inputs.claim_now job db ≡ some (claimed_db p db)
  unfolding claim claim_read claimed_db
  claim_works p db unique found may new_event = rw found (
      rw may (
        claim_cas_hit inputs.claim_event_id inputs.claim_now job p.status db p (
          returning_found job.payment_id p.status (claimed inputs.claim_now) p db.payments unique
            found refl)
        ∙ insert_event_new _ (claimed inputs.claim_now p) _ new_event (
            find_updated job.payment_id p.status (claimed inputs.claim_now) p db.payments
              (λ r. refl) found refl)))

  authorize_by :
      (dis : Disposition) (w : World)
      → verdict cfg inputs w.breaker ≡ some dis
      → (b : CircuitBreaker) × (authorize_and_settle cfg inputs job w
          ≡ settle cfg inputs job dis (record w { breaker = b }))
  unfolding authorize_and_settle
  authorize_by dis w v =
      elim (Bool-cases (allow cfg.breaker_open_ms inputs.allow_now w.breaker).0) [
        | inl allowed ↦
            let answer : decide inputs.reply ≡ some dis = rw allowed at v in
            (
              record_outcome cfg.breaker_threshold (not (is_retry dis)) inputs.record_now
                  (allow cfg.breaker_open_ms inputs.allow_now w.breaker).1,
              rw allowed (rw answer refl),
            )
        | inr refused ↦
            let short : some (retry "circuit_open") ≡ some dis = rw refused at v in
            (
              (allow cfg.breaker_open_ms inputs.allow_now w.breaker).1,
              rw refused (
                  ap
                    (λ d. settle cfg inputs job d (record w {
                      breaker = (allow cfg.breaker_open_ms inputs.allow_now w.breaker).1;
                    }))
                    (cc)),
            )
      ]

  new_after_claim :
      (p : Payment) (db : Db)
      → AreNew inputs db
      → find_event inputs.settle_event_id (claimed_db p db).payment_events ≡ none
  unfolding claimed_db
  new_after_claim p db new =
      find-append (λ (e : PaymentEvent). e.id) inputs.settle_event_id db.payment_events _
        new.settle_event
      ∙ ground (arith, new.distinct)

  -- Where payments have unique ids, a run for a payment that is pending or waiting for a retry, with
  -- new ulids, always ends well when the breaker refuses the call or the bank answers or times out:
  -- an authorization completes the payment, and a decline or an error that is not retryable fails
  -- it; any other end counts an attempt and either fails the payment, if the attempts are used up, or
  -- leaves it waiting with exactly one job scheduled under the number of that attempt. The version
  -- goes up by two.
  pub process_settles :
      (w : World) (p : Payment) (dis : Disposition)
      → HasUniqueIds w.db
      → find_payment job.payment_id w.db.payments ≡ some p
      → can_transition p.status processing ≡ true
      → AreNew inputs w.db
      → Decided cfg inputs w.breaker dis
      → IsSettled cfg inputs job w.added p.attempt_count
          (p.version + 1)
          dis
          (process cfg inputs job w)
  unfolding claimed_db process
  process_settles w p dis c found may new decided =
      let v = verdict-Decided cfg inputs w.breaker dis decided in
      let f = claimed inputs.claim_now in
      let w1 : World = record w { db = claimed_db p w.db } in
      let (b, goes) = authorize_by dis w1 v in
      rw (claim_works p w.db c found may new.claim_event, process)
        (rw goes (
          settle_settles cfg inputs job (record w1 { breaker = b }) (f p)
            (update_where-HasUniqueKeys (λ (r : Payment). r.id) (matching job.payment_id p.status) f
              (λ r. refl) w.db.payments c)
            (find_updated job.payment_id p.status f p w.db.payments (λ r. refl) found refl) refl
            (new_after_claim p w.db new) dis new.outbox))
