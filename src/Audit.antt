-- ===== src/Audit.antt =====
-- What the tables of apps/api/src/database/schema.ts say of one another between two transactions:
-- the events of a payment are its history, and the notices of the outbox announce its end.
pub mod Moves
pub mod Statements
pub mod Effects
pub mod Dropped
use payments_processor.Common.{
  ℕ, suc, ◌≡◌, ◌⊎◌, Bool, true, false, ◌&&◌, not, Option, none, some, List, [], ◌∷◌, map, ◌==◌,
  length, filter_by,
}
use payments_processor.Common.Table.{HasUniqueKeys}
use payments_processor.Shared.Status.{
  PaymentStatus, pending, processing, completed, failed, retrying, can_transition,
}
use payments_processor.Database.{
  Payment, PaymentEvent, EventType, payment_submitted, payment_completed, payment_failed,
  event_type_eq, Outbox, Db, find_payment,
}

abbrev pub events_of : ℕ → List PaymentEvent → List PaymentEvent
events_of id es = filter_by (λ e. e.payment_id == id) es

-- A payment is submitted as pending, and moves as the transition map allows.
abbrev pub IsMove : Option PaymentStatus → PaymentStatus → Type 0
IsMove none to = to ≡ pending
IsMove (some from) to = can_transition from to ≡ true

-- The events lead from one status to the other, each from where the one before it ended.
abbrev pub IsTrail : Option PaymentStatus → List PaymentEvent → Option PaymentStatus → Type 0
IsTrail from [] to = from ≡ to
IsTrail from (e ∷ es) to =
    (e.from_status ≡ from) × IsMove from e.to_status × IsTrail (some e.to_status) es to

-- The history of a payment is a trail that ends at its status, and its version counts the moves. An
-- id without a payment has no history.
abbrev pub IsAudited : Option Payment → List PaymentEvent → Type 0
IsAudited none es = es ≡ []
IsAudited (some p) es = IsTrail none es (some p.status) × (length es ≡ suc p.version)

-- The types of the notices for a payment.
abbrev pub notices_of : ℕ → List Outbox → List EventType
notices_of id os =
    map (λ o. o.event_type)
      (filter_by (λ o. o.aggregate_id == id && not (event_type_eq o.event_type payment_submitted))
        os)

-- A completed payment has one notice, of its completion; a failed one has at most one, of its
-- failure; any other has none.
abbrev pub AreNotices : PaymentStatus → List EventType → Type 0
AreNotices completed ns = ns ≡ payment_completed ∷ []
AreNotices failed ns = (ns ≡ []) ⊎ (ns ≡ payment_failed ∷ [])
AreNotices _ ns = ns ≡ []

abbrev pub IsNotified : Option Payment → List EventType → Type 0
IsNotified none ns = ns ≡ []
IsNotified (some p) ns = AreNotices p.status ns

-- The primary key of the payments.
abbrev pub HasUniqueIds : Db → Type 0
HasUniqueIds db = HasUniqueKeys (λ (p : Payment). p.id) db.payments

pub record IsConsistent (db : Db) : Type 0 where
  pub unique : HasUniqueIds db
  pub audited : (id : ℕ) → IsAudited (find_payment id db.payments) (events_of id db.payment_events)
  pub notified : (id : ℕ) → IsNotified (find_payment id db.payments) (notices_of id db.outbox)
