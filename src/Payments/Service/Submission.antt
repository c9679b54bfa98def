-- ===== src/Payments/Service/Submission.antt =====
-- What a submission writes, apps/api/src/payments/payments.service.ts.
use payments_processor.Common.{
  inl, inr, ◌>>=◌, ℕ, ◌≡◌, ◌≢◌, refl, ap, ◌∙◌, false, Option, none, some, [], ◌∷◌, ◌++◌, String,
  arith, Option-cases,
}
use payments_processor.Common.Table.{find-append_new}
use payments_processor.Shared.Money.{Amount, units, throws, conv_amount_to_units}
use payments_processor.Database.{Payment, IdempotencyKey, Db, find_payment, find_event, has_outbox}
use payments_processor.Audit.Effects.{Effect, still, submitted}
use payments_processor.Audit.Statements.{
  insert_event-eq, insert_outbox-eq, insert_event_new, insert_outbox_new,
}
use payments_processor.Payments.Service.{
  CreatePaymentDto, Fresh, new_payment, submitted_event, new_key, submission_of, find_key,
  insert_payment, insert_key, submit_txn, Insertion, answered, replay, insert_row, insert_amount,
  insert_txn,
}

pub insert_payment-eq :
    (p : Payment) (db db' : Db)
    → insert_payment p db ≡ some db'
    → (db' ≡ record db { payments = db.payments ++ p ∷ [] })
      × (find_payment p.id db.payments ≡ none)
unfolding insert_payment
insert_payment-eq p db db' h = (ground arith, ground arith)

pub insert_key-eq :
    (k : IdempotencyKey) (db db' : Db)
    → insert_key k db ≡ some db'
    → (db' ≡ record db { idempotency_keys = db.idempotency_keys ++ k ∷ [] })
      × (find_key k.customer_id k.idempotency_key db.idempotency_keys ≡ none)
unfolding insert_key
insert_key-eq k db db' h = (ground arith, ground arith)

>>=-eq-some :
    (m : Option Db) (f : Db → Option Db) (b : Db)
    → (m >>= f) ≡ some b
    → (a : Db) × (m ≡ some a) × (f a ≡ some b)
>>=-eq-some none f b h = absurd (ground arith)
>>=-eq-some (some a) f b h = (a, refl, h)

module _ (fresh : Fresh) (idempotency_key req_hash correlation_id : String) (row : Payment)
    (db : Db) where
  -- The four rows of a submission.
  abbrev pub submitted_db : Db
  submitted_db = record db {
    payments = db.payments ++ row ∷ [];
    payment_events = db.payment_events ++ submitted_event fresh correlation_id row ∷ [];
    idempotency_keys = db.idempotency_keys ++ new_key fresh idempotency_key req_hash row ∷ [];
    outbox = db.outbox ++ submission_of fresh correlation_id row ∷ [];
  }

  pub submit_txn-eq :
      (db' : Db)
      → submit_txn fresh idempotency_key req_hash correlation_id row db ≡ some db'
      → (db' ≡ submitted_db)
        × (find_payment row.id db.payments ≡ none)
        × (find_key row.customer_id idempotency_key db.idempotency_keys ≡ none)
  unfolding submit_txn
  submit_txn-eq db' h =
      let (db1, one, h1) = >>=-eq-some _ _ db' h in
      let (db2, two, h2) = >>=-eq-some _ _ db' h1 in
      let (db3, three, h3) = >>=-eq-some _ _ db' h2 in
      let (e1, new_id) = insert_payment-eq row db db1 one in
      let e2 = insert_event-eq (submitted_event fresh correlation_id row) db1 db2 two in
      let (e3, no_key) = insert_key-eq (new_key fresh idempotency_key req_hash row) db2 db3 three in
      let e4 = insert_outbox-eq (submission_of fresh correlation_id row) db3 db' h3 in
      let keys : db2.idempotency_keys ≡ db.idempotency_keys =
        ap (λ d. d.idempotency_keys) e2 ∙ ap (λ d. d.idempotency_keys) e1 in
      (rw e4 (rw e3 (rw e2 (rw e1))), new_id, rw keys at no_key)

  -- New ulids and a new key: nothing stands in the way of a submission.
  pub record IsNew : Type 0 where
    pub id : find_payment row.id db.payments ≡ none
    pub event : find_event fresh.event_id db.payment_events ≡ none
    pub key : find_key row.customer_id idempotency_key db.idempotency_keys ≡ none
    pub outbox : has_outbox fresh.outbox_id fresh.now db.outbox ≡ false

  find_new : IsNew → find_payment row.id (db.payments ++ row ∷ []) ≡ some row
  find_new new =
      find-append_new (λ (p : Payment). p.id) row.id row db.payments new.id ∙ ground arith

  pub submit_txn_new :
      IsNew → submit_txn fresh idempotency_key req_hash correlation_id row db ≡ some submitted_db
  unfolding submit_txn insert_payment insert_key
  submit_txn_new new = rw new.id (
      rw
        (insert_event_new (submitted_event fresh correlation_id row) row
          (record db { payments = db.payments ++ row ∷ [] }) new.event (find_new new))
        (rw new.key (insert_outbox_new (submission_of fresh correlation_id row) _ new.outbox)))

module _ (fresh : Fresh) (dto : CreatePaymentDto) (idempotency_key req_hash correlation_id : String)
    (db : Db) where
  -- A submission writes the payment, its event, its key and its outbox row, or it writes nothing
  -- and does not answer with a new payment.
  pub data Submission (r : Insertion × Db) : Type 0 where
    wrote :
        (n : ℕ)
        → conv_amount_to_units dto.amount ≡ units n
        → find_payment fresh.id db.payments ≡ none
        → find_key dto.customer_id idempotency_key db.idempotency_keys ≡ none
        → r ≡ (
          answered false 202 (new_payment fresh dto n),
          submitted_db fresh idempotency_key req_hash correlation_id (new_payment fresh dto n) db,
        )
        → Submission r
    wrote_nothing :
        r.1 ≡ db → ((status : ℕ) (body : Payment) → r.0 ≢ answered false status body) → Submission r

  not_new :
      (o : Option IdempotencyKey) (status : ℕ) (body : Payment)
      → replay req_hash o ≢ answered false status body
  not_new none status body = cc
  not_new (some k) status body = ground arith

  insert_row-Submission :
      (n : ℕ)
      → conv_amount_to_units dto.amount ≡ units n
      → Submission (
          insert_row fresh dto idempotency_key req_hash correlation_id (new_payment fresh dto n) db)
  unfolding new_payment
  insert_row-Submission n amount =
      elim (Option-cases
        (submit_txn fresh idempotency_key req_hash correlation_id (new_payment fresh dto n) db)) [
          | inl refused ↦
              rw (refused, insert_row)
                (wrote_nothing refl
                  (not_new (find_key dto.customer_id idempotency_key db.idempotency_keys)))
          | inr (db', done) ↦
              let (same, new_id, no_key) =
                submit_txn-eq fresh idempotency_key req_hash correlation_id
                  (new_payment fresh dto n) db db' done in
              rw (done, insert_row)
                (wrote n amount new_id no_key
                  (ap (λ d. (answered false 202 (new_payment fresh dto n), d)) same))
        ]

  insert_amount-Submission :
      (a : Amount)
      → conv_amount_to_units dto.amount ≡ a
      → Submission (insert_amount fresh dto idempotency_key req_hash correlation_id a db)
  insert_amount-Submission (units n) h = insert_row-Submission n h
  insert_amount-Submission (throws e) h = wrote_nothing refl (λ status body. cc)

  -- A submission is all or nothing: either it answers with a new payment and has written that
  -- payment, its first event, its idempotency key and its outbox row, or the database is unchanged
  -- and the answer is none of a new payment.
  pub insert_txn_atomic :
      Submission (insert_txn fresh dto idempotency_key req_hash correlation_id db)
  unfolding insert_txn
  insert_txn_atomic = insert_amount-Submission (conv_amount_to_units dto.amount) refl

  new_payment-Effect :
      (n : ℕ)
      → find_payment fresh.id db.payments ≡ none
      → Effect db
          (submitted_db fresh idempotency_key req_hash correlation_id (new_payment fresh dto n) db)
  unfolding new_payment
  new_payment-Effect n new_id =
      submitted (new_payment fresh dto n)
        (submitted_event fresh correlation_id (new_payment fresh dto n))
        (submission_of fresh correlation_id (new_payment fresh dto n))
        (record {
          new_id = new_id;
          is_pending = refl;
          is_first = refl;
          about = refl;
          from = refl;
          to = refl;
          submission = refl;
          payments = refl;
          payment_events = refl;
          outbox = refl;
        })

  -- The effect of a submission on the tables, however it ends.
  pub insert_txn-Effect :
      Effect db (insert_txn fresh dto idempotency_key req_hash correlation_id db).1
  insert_txn-Effect = elim insert_txn_atomic [
    | wrote_nothing same _ ↦ still same
    | wrote n amount new_id no_key done ↦ rw done (new_payment-Effect n new_id)
  ]

  -- With new ulids, a key that the customer has not used and an amount that can be read, the
  -- submission is answered with the new payment and has written its rows.
  pub insert_txn_new :
      (n : ℕ)
      → conv_amount_to_units dto.amount ≡ units n
      → IsNew fresh idempotency_key req_hash correlation_id (new_payment fresh dto n) db
      → insert_txn fresh dto idempotency_key req_hash correlation_id db ≡ (
        answered false 202 (new_payment fresh dto n),
        submitted_db fresh idempotency_key req_hash correlation_id (new_payment fresh dto n) db,
      )
  unfolding insert_txn
  insert_txn_new n amount new = rw amount (
      rw
        (
          submit_txn_new fresh idempotency_key req_hash correlation_id (new_payment fresh dto n) db
              new,
          insert_row,
        )
        refl)
