-- ===== src/Worker/Processor/Retrying.antt =====
-- The transaction of a retry in apps/api/src/worker/payment.processor.ts.
use payments_processor.Common.{
  ◌>>=◌, ℕ, ◌+◌, ◌≡◌, ◌⊎◌, refl, sym, ap, inl, inr, true, false, Option, none, some, List, [], ◌∷◌,
  ◌++◌, String, ltb, arith, ◌∙◌, Bool-cases,
}
use payments_processor.Common.Table.{returning, affected, no_row, one_row}
use payments_processor.Shared.Status.{
  PaymentStatus, processing, failed, retrying, status_eq, can_transition,
}
use payments_processor.Shared.Status.Laws.{status_eq_iff}
use payments_processor.Database.{
  Payment, exhausted, attempt, PaymentEvent, EventType, JobData, Db, find_payment, insert_event,
}
use payments_processor.Audit.{HasUniqueIds, AreNotices}
use payments_processor.Audit.Effects.{Effect, still, moved}
use payments_processor.Audit.Statements.{insert_event-eq}
use payments_processor.Worker.Processor.{retry_txn, retried, transition_event}
use payments_processor.Worker.Processor.Rows.{
  matching, with_payments, with_payments_same, settled_quiet,
}

pair_eq :
    (a b : Db) (m n : Option ℕ)
    → ◌≡◌ {A = Option (Db × Option ℕ)} (some (a, m)) (some (b, n))
    → (a ≡ b) × (m ≡ n)
pair_eq a b m n e = (cc, cc)

still_quiet :
    (s t : PaymentStatus) (ns : List EventType)
    → (t ≡ failed) ⊎ (t ≡ retrying)
    → ns ≡ []
    → AreNotices t ns
still_quiet s t ns (inl e) h = rw e (inl h)
still_quiet s t ns (inr e) h = rw e h

module _ (max_retries event_id now : ℕ) (job : JobData) (why : String) (db : Db) where
  abbrev pub retry_row : Db
  retry_row = with_payments db (matching job.payment_id processing) (retried max_retries now why)

  abbrev pub failure_event : PaymentEvent
  failure_event =
      transition_event event_id now job.payment_id processing failed job.correlation_id
        (some (exhausted why))

  abbrev pub retry_event_of : ℕ → PaymentEvent
  retry_event_of n =
      transition_event event_id now job.payment_id processing retrying job.correlation_id
        (some (attempt why n))

  pub retry_txn_miss :
      returning (matching job.payment_id processing) (retried max_retries now why) db.payments ≡ []
      → retry_txn max_retries event_id now job why db ≡ some (retry_row, none)
  unfolding retry_txn can_transition
  retry_txn_miss h = rw h

  module _ (p : Payment)
      (one : returning
          (matching job.payment_id processing)
          (retried max_retries now why)
          db.payments
        ≡ retried max_retries now why p ∷ []) where
    pub retry_txn_exhausted :
        ltb max_retries (p.attempt_count + 1) ≡ true
        → retry_txn max_retries event_id now job why db
          ≡ (insert_event failure_event retry_row >>= λ db'. some (db', none))
    unfolding retry_txn can_transition
    retry_txn_exhausted h = rw one (rw h)

    pub retry_txn_again :
        ltb max_retries (p.attempt_count + 1) ≡ false
        → retry_txn max_retries event_id now job why db ≡ (
            insert_event (retry_event_of (p.attempt_count + 1)) retry_row >>= λ db'.
            some (db', some (p.attempt_count + 1)))
    unfolding retry_txn can_transition
    retry_txn_again h = rw one (rw h)

  -- What a retry has done: nothing, given up, or scheduled the attempt that the row counts.
  pub data Retried (db' : Db) (scheduled : Option ℕ) : Type 0 where
    missed : db' ≡ db → scheduled ≡ none → Retried db' scheduled
    gave_up :
        (p : Payment)
        → find_payment job.payment_id db.payments ≡ some p
        → p.status ≡ processing
        → ltb max_retries (p.attempt_count + 1) ≡ true
        → db' ≡ record retry_row { payment_events = db.payment_events ++ failure_event ∷ [] }
        → scheduled ≡ none
        → Retried db' scheduled
    again :
        (p : Payment)
        → find_payment job.payment_id db.payments ≡ some p
        → p.status ≡ processing
        → ltb max_retries (p.attempt_count + 1) ≡ false
        → db' ≡ record retry_row {
          payment_events = db.payment_events ++ retry_event_of (p.attempt_count + 1) ∷ [];
        }
        → scheduled ≡ some (p.attempt_count + 1)
        → Retried db' scheduled

  bound_eq :
      (m : Option Db) (n n' : Option ℕ) (db' : Db)
      → ◌>>=◌ {B = Db × Option ℕ} m (λ d. some (d, n)) ≡ some (db', n')
      → (m ≡ some db') × (n' ≡ n)
  bound_eq none n n' db' e = cc
  bound_eq (some d) n n' db' e = (cc, cc)

  pub retry_txn-Retried :
      (db' : Db) (scheduled : Option ℕ)
      → HasUniqueIds db
      → retry_txn max_retries event_id now job why db ≡ some (db', scheduled)
      → Retried db' scheduled
  retry_txn-Retried db' scheduled c e =
      elim (affected (λ (p : Payment). p.id) job.payment_id (λ p. status_eq p.status processing)
        (retried max_retries now why) db.payments c) [
          | no_row nothing same ↦
              let (written, none_left) =
                pair_eq retry_row db' none scheduled (sym (retry_txn_miss nothing) ∙ e) in
              missed
                (sym written
                  ∙ with_payments_same db (matching job.payment_id processing)
                      (retried max_retries now why) same)
                (sym none_left)
          | one_row p found chosen one ↦
              let was = (status_eq_iff p.status processing).0 chosen in
              elim (Bool-cases (ltb max_retries (p.attempt_count + 1))) [
                | inl over ↦
                    let (written, none_left) =
                      bound_eq (insert_event failure_event retry_row) none scheduled db'
                        (sym (retry_txn_exhausted p one over) ∙ e) in
                    gave_up p found was over (insert_event-eq failure_event retry_row db' written)
                      none_left
                | inr under ↦
                    let (written, next) =
                      bound_eq (insert_event (retry_event_of (p.attempt_count + 1)) retry_row)
                        (some (p.attempt_count + 1)) scheduled db'
                        (sym (retry_txn_again p one under) ∙ e) in
                    again p found was under
                      (insert_event-eq (retry_event_of (p.attempt_count + 1)) retry_row db' written)
                      next
              ]
        ]

  retried_status_over :
      (p : Payment)
      → ltb max_retries (p.attempt_count + 1) ≡ true
      → (retried max_retries now why p).status ≡ failed
  retried_status_over p h = rw h

  retried_status_under :
      (p : Payment)
      → ltb max_retries (p.attempt_count + 1) ≡ false
      → (retried max_retries now why p).status ≡ retrying
  retried_status_under p h = rw h

  retry_moves :
      (p : Payment) (e : PaymentEvent) (t : PaymentStatus) (db' : Db)
      → HasUniqueIds db
      → find_payment job.payment_id db.payments ≡ some p
      → p.status ≡ processing
      → (retried max_retries now why p).status ≡ t
      → (t ≡ failed) ⊎ (t ≡ retrying)
      → e.payment_id ≡ job.payment_id
      → e.from_status ≡ some processing
      → e.to_status ≡ t
      → db' ≡ record retry_row { payment_events = db.payment_events ++ e ∷ [] }
      → Effect db db'
  unfolding can_transition
  retry_moves p e t db' c found was becomes end about from to same =
      moved job.payment_id (λ p. status_eq p.status processing) (retried max_retries now why)
        (λ r. refl) e p
        (record {
          found = found;
          chosen = rw was;
          about = about;
          from = from ∙ ap some (sym was);
          allowed = ground arith;
          to = to ∙ sym becomes;
          counted = refl;
        })
        (λ ns h. still_quiet p.status _ ns (rw becomes end) (settled_quiet p.status ns was h)) same

  pub retry_txn-Effect :
      (db' : Db) (scheduled : Option ℕ)
      → HasUniqueIds db
      → retry_txn max_retries event_id now job why db ≡ some (db', scheduled)
      → Effect db db'
  retry_txn-Effect db' scheduled c e = elim (retry_txn-Retried db' scheduled c e) [
    | missed same _ ↦ still same
    | gave_up p found was over same _ ↦
        retry_moves p failure_event failed db' c found was (retried_status_over p over) (inl refl)
          refl refl refl same
    | again p found was under same _ ↦
        retry_moves p (retry_event_of (p.attempt_count + 1)) retrying db' c found was
          (retried_status_under p under) (inr refl) refl refl refl same
  ]
