-- ===== src/Payments/Service/Replay.antt =====
-- Submitting again under the same idempotency key, apps/api/src/payments/payments.service.ts.
use payments_processor.Common.{
  inl, inr, ℕ, ◌≡◌, refl, sym, ap, ◌∙◌, true, false, none, some, List, [], ◌∷◌, ◌++◌, String,
  str_eq, arith, Option-cases, Bool-cases, eq_refl, if◌then◌else◌,
}
use payments_processor.Shared.Money.{units, conv_amount_to_units}
use payments_processor.Database.{Payment, IdempotencyKey, Db}
use payments_processor.Payments.Service.{
  CreatePaymentDto, Fresh, new_payment, new_key, is_key, find_key, submit_txn, answered, conflict,
  insert_row, insert_txn,
}
use payments_processor.Payments.Service.Submission.{
  submit_txn-eq, submitted_db, wrote, wrote_nothing, insert_txn_atomic,
}

find_key-append :
    (c i : String) (k : IdempotencyKey) (ks later : List IdempotencyKey)
    → find_key c i ks ≡ some k
    → find_key c i (ks ++ later) ≡ some k
find_key-append c i k [] later h = cc
find_key-append c i k (x ∷ ks) later h = ground (arith, find_key-append c i k ks later)

find_key-append_new :
    (c i : String) (k : IdempotencyKey) (ks later : List IdempotencyKey)
    → find_key c i ks ≡ none
    → is_key c i k ≡ true
    → find_key c i (ks ++ k ∷ later) ≡ some k
find_key-append_new c i k [] later h e = rw e
find_key-append_new c i k (x ∷ ks) later h e = elim (Bool-cases (is_key c i x)) [
  | inl hit ↦ let found : some x ≡ none = rw hit at h in cc
  | inr miss ↦ rw miss (find_key-append_new c i k ks later (rw miss at h) e)
]

module _ (fresh : Fresh) (dto : CreatePaymentDto) (idempotency_key req_hash correlation_id : String)
    (db : Db) where
  refused :
      (row : Payment) (k : IdempotencyKey)
      → find_key row.customer_id idempotency_key db.idempotency_keys ≡ some k
      → submit_txn fresh idempotency_key req_hash correlation_id row db ≡ none
  refused row k found =
      elim (Option-cases (submit_txn fresh idempotency_key req_hash correlation_id row db)) [
        | inl none_left ↦ none_left
        | inr (db', done) ↦
            let (_, _, no_key) =
              submit_txn-eq fresh idempotency_key req_hash correlation_id row db db' done in
            let both : some k ≡ none = sym found ∙ no_key in cc
      ]

  -- Under a key that the customer has used, a submission whose amount can be read changes nothing,
  -- and its answer is decided by the row of the key alone: the stored answer if the hash of the
  -- request is the stored one, and a conflict if it is not.
  pub insert_txn_used :
      (n : ℕ) (k : IdempotencyKey)
      → conv_amount_to_units dto.amount ≡ units n
      → find_key dto.customer_id idempotency_key db.idempotency_keys ≡ some k
      → insert_txn fresh dto idempotency_key req_hash correlation_id db ≡ (
        (if str_eq k.request_hash req_hash
            then answered true k.response_status k.response_body
            else conflict),
        db,
      )
  unfolding insert_txn new_payment
  insert_txn_used n k amount found =
      rw amount (rw (refused (new_payment fresh dto n) k found, insert_row) (rw found refl))

is_key_self :
    (c i : String) (k : IdempotencyKey)
    → k.customer_id ≡ c
    → k.idempotency_key ≡ i
    → is_key c i k ≡ true
is_key_self c i k h e = rw h (rw e (rw (eq_refl c) (rw (eq_refl i))))

stored :
    (fresh : Fresh) (dto : CreatePaymentDto) (key hash cor : String) (db : Db) (n : ℕ)
    (later : List IdempotencyKey)
    → find_key dto.customer_id key db.idempotency_keys ≡ none
    → find_key dto.customer_id key
        ((submitted_db fresh key hash cor (new_payment fresh dto n) db).idempotency_keys ++ later)
      ≡ some (new_key fresh key hash (new_payment fresh dto n))
unfolding new_payment
stored fresh dto key hash cor db n later h =
    let k = new_key fresh key hash (new_payment fresh dto n) in
    find_key-append dto.customer_id key k (db.idempotency_keys ++ k ∷ []) later (
      find_key-append_new dto.customer_id key k db.idempotency_keys [] h
        (is_key_self dto.customer_id key k refl refl))

-- After a submission that was answered with a new payment, any later submission of the same
-- customer under the same key whose amount can be read, with other ulids, at another time and
-- after any keys were added by others, is answered with that very payment as a replay if its hash
-- is the same, and with a conflict otherwise. It changes nothing, so the payment is created once.
pub insert_txn-again :
    (fresh fresh' : Fresh) (dto dto' : CreatePaymentDto) (key hash hash' cor cor' : String)
    (db db' : Db) (body : Payment) (n : ℕ) (later : List IdempotencyKey)
    → (insert_txn fresh dto key hash cor db).0 ≡ answered false 202 body
    → db'.idempotency_keys ≡ (insert_txn fresh dto key hash cor db).1.idempotency_keys ++ later
    → dto'.customer_id ≡ dto.customer_id
    → conv_amount_to_units dto'.amount ≡ units n
    → insert_txn fresh' dto' key hash' cor' db'
      ≡ ((if str_eq hash hash' then answered true 202 body else conflict), db')
insert_txn-again fresh fresh' dto dto' key hash hash' cor cor' db db' body n later first grown same
      amount =
    elim (insert_txn_atomic fresh dto key hash cor db) [
      | wrote_nothing _ never ↦ absurd (never 202 body first)
      | wrote m _ new_id no_key done ↦
          let made : answered false 202 (new_payment fresh dto m) ≡ answered false 202 body =
            sym (ap (λ r. r.0) done) ∙ first in
          let is_body : new_payment fresh dto m ≡ body = cc in
          let keys = grown ∙ ap (λ r. r.1.idempotency_keys ++ later) done in
          let found : find_key dto'.customer_id key db'.idempotency_keys
              ≡ some (new_key fresh key hash (new_payment fresh dto m)) =
            rw same (rw keys (stored fresh dto key hash cor db m later no_key)) in
          insert_txn_used fresh' dto' key hash' cor' db' n
            (new_key fresh key hash (new_payment fresh dto m)) amount found
          ∙ ap (λ b. ((if str_eq hash hash' then answered true 202 b else conflict), db')) is_body
    ]
