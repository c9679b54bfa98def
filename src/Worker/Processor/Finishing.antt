-- ===== src/Worker/Processor/Finishing.antt =====
-- Transaction 2 of apps/api/src/worker/payment.processor.ts: settling a payment.
use payments_processor.Common.{
  ◌>>=◌, ℕ, ◌≡◌, ◌⊎◌, refl, sym, ap, inl, inr, true, none, some, [], ◌∷◌, ◌++◌, arith, ◌∙◌,
  Option-cases,
}
use payments_processor.Common.Table.{returning, affected, no_row, one_row}
use payments_processor.Shared.Status.{
  PaymentStatus, processing, completed, failed, status_eq, can_transition,
}
use payments_processor.Shared.Status.Laws.{status_eq_iff}
use payments_processor.Database.{
  Payment, Metadata, PaymentEvent, JobData, Db, find_payment, insert_event, insert_outbox,
}
use payments_processor.Audit.{HasUniqueIds, AreNotices}
use payments_processor.Audit.Effects.{Effect, still, announced}
use payments_processor.Audit.Statements.{insert_event-eq, insert_outbox-eq}
use payments_processor.Worker.Processor.{
  finish_txn, finished_as, notice, notice_type, transition_event,
}
use payments_processor.Worker.Processor.Rows.{
  matching, with_payments, with_payments_same, settled_quiet,
}

abbrev pub IsVerdict : PaymentStatus → Type 0
IsVerdict target = (target ≡ completed) ⊎ (target ≡ failed)

told : (target : PaymentStatus) → IsVerdict target → AreNotices target (notice_type target ∷ [])
told completed h = refl
told failed h = inr refl
told _ h = absurd (ground arith)

module _ (event_id outbox_id now : ℕ) (job : JobData) (target : PaymentStatus) (metadata : Metadata)
    (db : Db) where
  abbrev pub finish_row : Db
  finish_row = with_payments db (matching job.payment_id processing) (finished_as now target)

  abbrev pub finish_event : PaymentEvent
  finish_event =
      transition_event event_id now job.payment_id processing target job.correlation_id
        (some metadata)

  pub finish_txn_miss :
      returning (matching job.payment_id processing) (finished_as now target) db.payments ≡ []
      → finish_txn event_id outbox_id now job target metadata db ≡ some finish_row
  unfolding finish_txn
  finish_txn_miss h = rw h

  pub finish_txn_hit :
      (p : Payment)
      → returning (matching job.payment_id processing) (finished_as now target) db.payments
        ≡ finished_as now target p ∷ []
      → finish_txn event_id outbox_id now job target metadata db
        ≡ (insert_event finish_event finish_row >>= insert_outbox (notice outbox_id now job target))
  unfolding finish_txn
  finish_txn_hit p h = rw h

  -- What the last transaction has done: nothing, or settled the payment and written its notice.
  pub data Finished (db' : Db) : Type 0 where
    missed : db' ≡ db → Finished db'
    settled :
        (p : Payment)
        → find_payment job.payment_id db.payments ≡ some p
        → p.status ≡ processing
        → db' ≡ record finish_row {
          payment_events = db.payment_events ++ finish_event ∷ [];
          outbox = db.outbox ++ notice outbox_id now job target ∷ [];
        }
        → Finished db'

  both_inserted :
      (db' : Db)
      → (insert_event finish_event finish_row >>= insert_outbox (notice outbox_id now job target))
        ≡ some db'
      → db' ≡ record finish_row {
        payment_events = db.payment_events ++ finish_event ∷ [];
        outbox = db.outbox ++ notice outbox_id now job target ∷ [];
      }
  both_inserted db' e = elim (Option-cases (insert_event finish_event finish_row)) [
    | inl refused ↦ let no_row : none ≡ some db' = rw refused at e in cc
    | inr (db'', done) ↦
        let later : insert_outbox (notice outbox_id now job target) db'' ≡ some db' =
          rw done at e in
        insert_outbox-eq (notice outbox_id now job target) db'' db' later
        ∙ ap {A = Db} (λ d. record d { outbox = d.outbox ++ notice outbox_id now job target ∷ [] })
            (insert_event-eq finish_event finish_row db'' done)
  ]

  pub finish_txn-Finished :
      (db' : Db)
      → HasUniqueIds db
      → finish_txn event_id outbox_id now job target metadata db ≡ some db'
      → Finished db'
  finish_txn-Finished db' c e =
      elim (affected (λ (p : Payment). p.id) job.payment_id (λ p. status_eq p.status processing)
        (finished_as now target) db.payments c) [
          | no_row nothing same ↦
              let written : some finish_row ≡ some db' = sym (finish_txn_miss nothing) ∙ e in
              missed (
                (cc)
                ∙ with_payments_same db (matching job.payment_id processing)
                    (finished_as now target) same)
          | one_row p found chosen one ↦
              settled p found ((status_eq_iff p.status processing).0 chosen)
                (both_inserted db' (sym (finish_txn_hit p one) ∙ e))
        ]

  verdict_allowed : IsVerdict target → can_transition processing target ≡ true
  unfolding can_transition
  verdict_allowed h = ground arith

  pub finish_txn-Effect :
      (db' : Db)
      → IsVerdict target
      → HasUniqueIds db
      → finish_txn event_id outbox_id now job target metadata db ≡ some db'
      → Effect db db'
  finish_txn-Effect db' verdict c e = elim (finish_txn-Finished db' c e) [
    | missed same ↦ still same
    | settled p found was same ↦
        announced job.payment_id (λ p. status_eq p.status processing) (finished_as now target)
          (λ r. refl) finish_event p (notice outbox_id now job target)
          (record {
            found = found;
            chosen = rw was;
            about = refl;
            from = ap some (sym was);
            allowed = rw was (verdict_allowed verdict);
            to = refl;
            counted = refl;
          })
          refl (ground arith) (λ ns. settled_quiet p.status ns was) (told target verdict) same
  ]
