-- ===== src/Payments/Service.antt =====
-- apps/api/src/payments/payments.service.ts. The ulids and the time of a call are its arguments.
pub mod Submission
pub mod Replay
use payments_processor.Common.{
  ◌>>=◌, ℕ, ◌+◌, Bool, true, false, ◌&&◌, Option, none, some, List, [], ◌∷◌, ◌++◌, String, str_eq,
  sort_asc, if◌then◌else◌, is_none, filter_by, take, ◌==◌,
}
use payments_processor.Common.Paging.{before, sort_desc}
use payments_processor.Shared.Status.{PaymentStatus, pending, status_eq}
use payments_processor.Shared.Money.{Text, Amount, AmountError, units, throws, conv_amount_to_units}
use payments_processor.Database.{
  Payment, Metadata, reason, PaymentEvent, IdempotencyKey, payment_submitted, JobData, submission,
  Outbox, Db, find_payment, insert_event, insert_outbox,
}

-- A body that class-validator has let through, dto/create-payment.dto.ts.
pub record CreatePaymentDto : Type 0 where
  pub customer_id : String
  pub source_account : String
  pub destination_account : String
  pub amount : Text
  pub currency : Option String
  pub reference : Option String

-- What a call takes from outside: new ulids and the time.
pub record Fresh : Type 0 where
  pub id : ℕ
  pub event_id : ℕ
  pub outbox_id : ℕ
  pub now : ℕ

-- The row that is inserted, with the defaults of its table.
unfoldable pub new_payment : Fresh → CreatePaymentDto → ℕ → Payment
new_payment fresh dto amount_cents = record {
  id = fresh.id;
  customer_id = dto.customer_id;
  source_account = dto.source_account;
  destination_account = dto.destination_account;
  amount_cents = amount_cents;
  currency = "USD";
  reference = dto.reference;
  status = pending;
  version = 0;
  attempt_count = 0;
  last_error_code = none;
  created_at = fresh.now;
  updated_at = fresh.now;
}

abbrev submitted_event : Fresh → (correlation_id : String) → Payment → PaymentEvent
submitted_event fresh correlation_id row = record {
  id = fresh.event_id;
  payment_id = row.id;
  from_status = none;
  to_status = pending;
  correlation_id = some correlation_id;
  metadata = some (reason "submitted");
  occurred_at = fresh.now;
}

abbrev new_key : Fresh → (idempotency_key req_hash : String) → Payment → IdempotencyKey
new_key fresh idempotency_key req_hash row = record {
  customer_id = row.customer_id;
  idempotency_key = idempotency_key;
  request_hash = req_hash;
  payment_id = row.id;
  response_status = 202;
  response_body = row;
  created_at = fresh.now;
}

abbrev submission_of : Fresh → (correlation_id : String) → Payment → Outbox
submission_of fresh correlation_id row = record {
  id = fresh.outbox_id;
  aggregate_type = "payment";
  aggregate_id = row.id;
  event_type = payment_submitted;
  payload =
      submission
        (record {
          payment_id = row.id;
          amount_cents = row.amount_cents;
          currency = row.currency;
          correlation_id = some correlation_id;
        })
        row.source_account row.destination_account row.customer_id;
  published_at = none;
  webhook_dispatched_at = none;
  created_at = fresh.now;
}

-- eq(customerId, …) and eq(idempotencyKey, …), the pair that is unique.
abbrev pub is_key : (customer_id idempotency_key : String) → IdempotencyKey → Bool
is_key customer_id idempotency_key k =
    str_eq k.customer_id customer_id && str_eq k.idempotency_key idempotency_key

abbrev pub find_key :
    (customer_id idempotency_key : String) → List IdempotencyKey → Option IdempotencyKey
find_key customer_id idempotency_key [] = none
find_key customer_id idempotency_key (k ∷ ks) =
    if is_key customer_id idempotency_key k then some k else find_key customer_id idempotency_key ks

-- INSERT INTO payments
unfoldable pub insert_payment : Payment → Db → Option Db
insert_payment p db =
    if is_none (find_payment p.id db.payments)
    then some (record db { payments = db.payments ++ p ∷ [] })
    else none

-- INSERT INTO idempotency_keys, with its unique constraint.
unfoldable pub insert_key : IdempotencyKey → Db → Option Db
insert_key k db =
    if is_none (find_key k.customer_id k.idempotency_key db.idempotency_keys)
    then some (record db { idempotency_keys = db.idempotency_keys ++ k ∷ [] })
    else none

-- The transaction. `none` is a violated unique constraint, code 23505: the payment of the event and
-- of the key is inserted first, so no reference can fail.
unfoldable pub submit_txn :
    Fresh → (idempotency_key req_hash correlation_id : String) → Payment → Db → Option Db
submit_txn fresh idempotency_key req_hash correlation_id row db = do
  db1 ← insert_payment row db
  db2 ← insert_event (submitted_event fresh correlation_id row) db1
  db3 ← insert_key (new_key fresh idempotency_key req_hash row) db2
  insert_outbox (submission_of fresh correlation_id row) db3

-- How `insert_txn` ends: with an answer, a ConflictException, the error of a missing key, or the
-- error of the amount.
pub data Insertion : Type 0 where
  answered : (replayed : Bool) → (status : ℕ) → (body : Payment) → Insertion
  conflict : Insertion
  missing_key : Insertion
  bad_amount : AmountError → Insertion

-- The `catch` for code 23505, by the key that is found.
abbrev pub replay : (req_hash : String) → Option IdempotencyKey → Insertion
replay req_hash none = missing_key
replay req_hash (some existing) =
    if str_eq existing.request_hash req_hash
    then answered true existing.response_status existing.response_body
    else conflict

module _ (fresh : Fresh) (dto : CreatePaymentDto)
    (idempotency_key req_hash correlation_id : String) where
  abbrev insert_row : Payment → Db → Insertion × Db
  insert_row row db = elim (submit_txn fresh idempotency_key req_hash correlation_id row db) [
    | some db' ↦ (answered false 202 row, db')
    | none ↦ (replay req_hash (find_key dto.customer_id idempotency_key db.idempotency_keys), db)
  ]

  abbrev insert_amount : Amount → Db → Insertion × Db
  insert_amount (units amount_cents) db = insert_row (new_payment fresh dto amount_cents) db
  insert_amount (throws e) db = (bad_amount e, db)

  unfoldable pub insert_txn : Db → Insertion × Db
  insert_txn db = insert_amount (conv_amount_to_units dto.amount) db

-- `find_one`; `none` is the NotFoundException.
unfoldable pub find_one : ℕ → Db → Option Payment
find_one id db = find_payment id db.payments

-- The condition on the status, if one is given.
abbrev pub has_status : Option PaymentStatus → Payment → Bool
has_status none p = true
has_status (some s) p = status_eq p.status s

-- `list`
unfoldable pub list : Option PaymentStatus → (cursor : Option ℕ) → (limit : ℕ) → Db → List Payment
list status cursor limit db =
    take (limit + 1) (
      sort_desc (λ p. p.id)
        (filter_by (λ p. has_status status p && before cursor p.id) db.payments))

-- `list_events`: the NotFoundException, or the events of the payment in the order of time.
unfoldable pub list_events : ℕ → Db → Option (List PaymentEvent)
list_events id db = do
  row ← find_one id db
  some (sort_asc (λ e. e.occurred_at) (filter_by (λ e. e.payment_id == row.id) db.payment_events))
