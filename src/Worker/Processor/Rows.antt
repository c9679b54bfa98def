-- ===== src/Worker/Processor/Rows.antt =====
-- The rows that the updates of apps/api/src/worker/payment.processor.ts address.
use payments_processor.Common.{
  some, [], ◌∷◌, List, ◌∙◌, ==_refl, ℕ, ◌≡◌, ap, Bool, ◌&&◌, List, [], ◌==◌,
}
use payments_processor.Common.Table.{
  HasUniqueKeys, returning, returning-eq-returned, find-update_where, update_where,
}
use payments_processor.Shared.Status.Laws.{status_eq_iff}
use payments_processor.Shared.Status.{PaymentStatus, processing, status_eq}
use payments_processor.Database.{find_payment, Payment, EventType, Db}
use payments_processor.Audit.{AreNotices}

-- The condition of an update by the payment's id and status.
abbrev pub matching : ℕ → PaymentStatus → Payment → Bool
matching id s p = p.id == id && status_eq p.status s

abbrev pub with_payments : Db → (Payment → Bool) → (Payment → Payment) → Db
with_payments db q f = record db { payments = update_where q f db.payments }

pub with_payments_same :
    (db : Db) (q : Payment → Bool) (f : Payment → Payment)
    → update_where q f db.payments ≡ db.payments
    → with_payments db q f ≡ db
with_payments_same db q f h = ap (λ ps. record db { payments = ps }) h

pub settled_quiet :
    (s : PaymentStatus) (ns : List EventType) → s ≡ processing → AreNotices s ns → ns ≡ []
settled_quiet s ns e h = rw e at h

-- An update by id and status finds the payment that has both.
pub returning_found :
    (id : ℕ) (s : PaymentStatus) (f : Payment → Payment) (p : Payment) (ps : List Payment)
    → HasUniqueKeys (λ (r : Payment). r.id) ps
    → find_payment id ps ≡ some p
    → p.status ≡ s
    → returning (matching id s) f ps ≡ f p ∷ []
returning_found id s f p ps unique found was =
    returning-eq-returned (λ (r : Payment). r.id) id (λ r. status_eq r.status s) f ps unique
    ∙ rw found (rw ((status_eq_iff p.status s).1 was))

-- And after the update it stands there changed.
pub find_updated :
    (id : ℕ) (s : PaymentStatus) (f : Payment → Payment) (p : Payment) (ps : List Payment)
    → ((r : Payment) → (f r).id ≡ r.id)
    → find_payment id ps ≡ some p
    → p.status ≡ s
    → find_payment id (update_where (matching id s) f ps) ≡ some (f p)
find_updated id s f p ps keep found was =
    find-update_where (λ (r : Payment). r.id) id id (λ r. status_eq r.status s) f keep ps
    ∙ rw (==_refl id) (rw found (rw ((status_eq_iff p.status s).1 was)))
