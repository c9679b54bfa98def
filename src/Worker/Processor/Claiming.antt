-- ===== src/Worker/Processor/Claiming.antt =====
-- Transaction 1 of apps/api/src/worker/payment.processor.ts: claiming a payment.
use payments_processor.Common.{ℕ, ◌≡◌, refl, sym, ap, true, none, some, List, [], ◌∷◌, ◌∙◌}
use payments_processor.Common.Table.{returning, affected, no_row, one_row}
use payments_processor.Shared.Status.{
  PaymentStatus, pending, processing, retrying, status_eq, can_transition,
}
use payments_processor.Shared.Status.Laws.{status_eq_iff}
use payments_processor.Database.{Payment, PaymentEvent, EventType, JobData, Db, insert_event}
use payments_processor.Audit.{HasUniqueIds, AreNotices}
use payments_processor.Audit.Effects.{Effect, still, moved}
use payments_processor.Audit.Statements.{insert_event-eq}
use payments_processor.Worker.Processor.{claim_cas, claimed, transition_event}
use payments_processor.Worker.Processor.Rows.{matching, with_payments, with_payments_same}

claim_quiet :
    (s : PaymentStatus) (ns : List EventType)
    → can_transition s processing ≡ true
    → AreNotices s ns
    → AreNotices processing ns
unfolding can_transition
claim_quiet pending ns h k = k
claim_quiet retrying ns h k = k
claim_quiet _ ns h k = cc

module _ (event_id now : ℕ) (job : JobData) (from : PaymentStatus) (db : Db) where
  abbrev pub claim_row : Db
  claim_row = with_payments db (matching job.payment_id from) (claimed now)

  abbrev pub claim_event : PaymentEvent
  claim_event = transition_event event_id now job.payment_id from processing job.correlation_id none

  pub claim_cas_miss :
      returning (matching job.payment_id from) (claimed now) db.payments ≡ []
      → claim_cas event_id now job from db ≡ some claim_row
  unfolding claim_cas
  claim_cas_miss h = rw h

  pub claim_cas_hit :
      (p : Payment)
      → returning (matching job.payment_id from) (claimed now) db.payments ≡ claimed now p ∷ []
      → claim_cas event_id now job from db ≡ insert_event claim_event claim_row
  unfolding claim_cas
  claim_cas_hit p h = rw h

  -- A claim, whatever status was read for it, leaves the tables alone or moves the payment to
  -- processing.
  pub claim_cas-Effect :
      (db' : Db)
      → can_transition from processing ≡ true
      → HasUniqueIds db
      → claim_cas event_id now job from db ≡ some db'
      → Effect db db'
  claim_cas-Effect db' may c e =
      elim (affected (λ (p : Payment). p.id) job.payment_id (λ p. status_eq p.status from)
        (claimed now) db.payments c) [
          | no_row nothing same ↦
              let written : some claim_row ≡ some db' = sym (claim_cas_miss nothing) ∙ e in
              still ((cc) ∙ with_payments_same db (matching job.payment_id from) (claimed now) same)
          | one_row p found chosen one ↦
              let is_from : p.status ≡ from = (status_eq_iff p.status from).0 chosen in
              moved job.payment_id (λ p. status_eq p.status from) (claimed now) (λ r. refl)
                claim_event p
                (record {
                  found = found;
                  chosen = chosen;
                  about = refl;
                  from = ap some (sym is_from);
                  allowed = rw is_from may;
                  to = refl;
                  counted = refl;
                })
                (λ ns. claim_quiet p.status ns (rw is_from may))
                (insert_event-eq claim_event claim_row db' (sym (claim_cas_hit p one) ∙ e))
        ]
