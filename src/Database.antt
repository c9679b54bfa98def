-- ===== src/Database.antt =====
-- The tables of apps/api/src/database/schema.ts, and the statements that more than one service
-- issues. A ulid is the number that its 26 characters encode; a timestamp is in milliseconds.
use payments_processor.Common.{
  ℕ, Bool, true, false, ◌&&◌, ◌||◌, Option, none, some, List, [], ◌∷◌, ◌++◌, String, ◌==◌,
  if◌then◌else◌, is_none, is_some,
}
use payments_processor.Common.Table.{find}
use payments_processor.Shared.Status.{PaymentStatus}

pub record Payment : Type 0 where
  pub id : ℕ
  pub customer_id : String
  pub source_account : String
  pub destination_account : String
  pub amount_cents : ℕ
  pub currency : String
  pub reference : Option String
  pub status : PaymentStatus
  pub version : ℕ
  pub attempt_count : ℕ
  pub last_error_code : Option String
  pub created_at : ℕ
  pub updated_at : ℕ

-- What a bank gives as its reference: `bank_<key>` from the simulated one.
pub data BankRef : Type 0 where
  of_key : ℕ → BankRef
  other : String → BankRef

-- The objects that the services write to the `metadata` column.
pub data Metadata : Type 0 where
  reason : String → Metadata
  exhausted : (reason : String) → Metadata
  attempt : (reason : String) → ℕ → Metadata
  bank_ref : BankRef → Metadata

pub record PaymentEvent : Type 0 where
  pub id : ℕ
  pub payment_id : ℕ
  pub from_status : Option PaymentStatus
  pub to_status : PaymentStatus
  pub correlation_id : Option String
  pub metadata : Option Metadata
  pub occurred_at : ℕ

pub record IdempotencyKey : Type 0 where
  pub customer_id : String
  pub idempotency_key : String
  pub request_hash : String
  pub payment_id : ℕ
  pub response_status : ℕ
  pub response_body : Payment
  pub created_at : ℕ

-- The three values of the `event_type` column.
pub data EventType : Type 0 where
  payment_submitted payment_completed payment_failed : EventType

-- `===` on event types.
abbrev pub event_type_eq : EventType → EventType → Bool
event_type_eq payment_submitted payment_submitted = true
event_type_eq payment_completed payment_completed = true
event_type_eq payment_failed payment_failed = true
event_type_eq _ _ = false

-- What the worker reads of a job, and what every payload holds.
pub record JobData : Type 0 where
  pub payment_id : ℕ
  pub amount_cents : ℕ
  pub currency : String
  pub correlation_id : Option String

-- The objects that the services write to the `payload` column.
pub data Payload : Type 0 where
  submission : JobData → (source_account destination_account customer_id : String) → Payload
  settlement : JobData → (status : PaymentStatus) → Payload

abbrev pub payload_data : Payload → JobData
payload_data (submission d _ _ _) = d
payload_data (settlement d _) = d

pub record Outbox : Type 0 where
  pub id : ℕ
  pub aggregate_type : String
  pub aggregate_id : ℕ
  pub event_type : EventType
  pub payload : Payload
  pub published_at : Option ℕ
  pub webhook_dispatched_at : Option ℕ
  pub created_at : ℕ

pub record WebhookEndpoint : Type 0 where
  pub id : ℕ
  pub url : String
  pub secret : String
  pub active : Bool
  pub created_at : ℕ
  pub description : Option String

pub data WebhookStatus : Type 0 where
  pending delivered failed dead : WebhookStatus

pub record WebhookDelivery : Type 0 where
  pub id : ℕ
  pub endpoint_id : ℕ
  pub event_id : ℕ
  pub event_type : EventType
  pub payload : Payload
  pub status : WebhookStatus
  pub attempts : ℕ
  pub next_attempt_at : Option ℕ
  pub last_error : Option String
  pub created_at : ℕ
  pub delivered_at : Option ℕ

pub data BankMode : Type 0 where
  always_authorize always_decline always_error fail_n_then_authorize : BankMode

pub record BankConfig : Type 0 where
  pub id : String
  pub mode : BankMode
  pub latency_ms : ℕ
  pub fail_n : ℕ
  pub updated_at : ℕ

pub record Db : Type 0 where
  pub payments : List Payment
  pub payment_events : List PaymentEvent
  pub idempotency_keys : List IdempotencyKey
  pub outbox : List Outbox
  pub webhook_endpoints : List WebhookEndpoint
  pub webhook_deliveries : List WebhookDelivery
  pub bank_config : List BankConfig

abbrev pub find_payment : ℕ → List Payment → Option Payment
find_payment = find (λ p. p.id)

abbrev pub find_event : ℕ → List PaymentEvent → Option PaymentEvent
find_event = find (λ e. e.id)

abbrev pub find_endpoint : ℕ → List WebhookEndpoint → Option WebhookEndpoint
find_endpoint = find (λ e. e.id)

abbrev pub find_delivery : ℕ → List WebhookDelivery → Option WebhookDelivery
find_delivery = find (λ d. d.id)

-- INSERT INTO payment_events: the primary key must be new, and the payment must exist. `none` is
-- the error that the database raises, after which the transaction is rolled back.
unfoldable pub insert_event : PaymentEvent → Db → Option Db
insert_event e db =
    if is_none (find_event e.id db.payment_events)
      && is_some (find_payment e.payment_id db.payments)
    then some (record db { payment_events = db.payment_events ++ e ∷ [] })
    else none

-- Whether an outbox row with the same primary key, (id, created_at), is there.
abbrev pub has_outbox : ℕ → ℕ → List Outbox → Bool
has_outbox id at [] = false
has_outbox id at (o ∷ os) = (o.id == id && o.created_at == at) || has_outbox id at os

-- INSERT INTO outbox
unfoldable pub insert_outbox : Outbox → Db → Option Db
insert_outbox o db =
    if has_outbox o.id o.created_at db.outbox
    then none
    else some (record db { outbox = db.outbox ++ o ∷ [] })
