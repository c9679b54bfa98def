-- ===== src/Audit/Statements.antt =====
-- The inserts of apps/api/src/database/schema.ts as the transactions see them: a successful one
-- has appended its row.
use payments_processor.Common.{◌≡◌, some, [], ◌∷◌, ◌++◌, arith}
use payments_processor.Database.{
  Payment, PaymentEvent, Outbox, Db, insert_event, insert_outbox, has_outbox, find_event,
  find_payment,
}
use payments_processor.Common.{none, false}

pub insert_event-eq :
    (e : PaymentEvent) (db db' : Db)
    → insert_event e db ≡ some db'
    → db' ≡ record db { payment_events = db.payment_events ++ e ∷ [] }
unfolding insert_event
insert_event-eq e db db' h = ground arith

pub insert_outbox-eq :
    (o : Outbox) (db db' : Db)
    → insert_outbox o db ≡ some db'
    → db' ≡ record db { outbox = db.outbox ++ o ∷ [] }
unfolding insert_outbox
insert_outbox-eq o db db' h = ground arith

pub insert_event_new :
    (e : PaymentEvent) (p : Payment) (db : Db)
    → find_event e.id db.payment_events ≡ none
    → find_payment e.payment_id db.payments ≡ some p
    → insert_event e db ≡ some (record db { payment_events = db.payment_events ++ e ∷ [] })
unfolding insert_event
insert_event_new e p db new found = rw (new, found)

pub insert_outbox_new :
    (o : Outbox) (db : Db)
    → has_outbox o.id o.created_at db.outbox ≡ false
    → insert_outbox o db ≡ some (record db { outbox = db.outbox ++ o ∷ [] })
unfolding insert_outbox
insert_outbox_new o db new = rw new
