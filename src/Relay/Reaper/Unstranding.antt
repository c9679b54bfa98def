-- ===== src/Relay/Reaper/Unstranding.antt =====
-- The update of apps/api/src/relay/reaper.service.ts, which brings several payments back from
-- PROCESSING at once, as one move after the other.
use payments_processor.Common.{
  ℕ, ◌≡◌, refl, sym, ap, ◌∙◌, true, false, ◌&&◌, none, some, List, [], ◌∷◌, ◌++◌, mem, ◌==◌, arith,
  if◌then◌else◌,
}
use mathlib.Core.Path.{subst}
use mathlib.Core.List.{append-nil, append_assoc}
use payments_processor.Common.Table.{
  update_where, find-update_where, find-append_new, find-update_where_any,
}
use payments_processor.Shared.Status.{PaymentStatus, processing, retrying, can_transition}
use payments_processor.Database.{Payment, PaymentEvent, EventType, Db, find_payment, find_event}
use payments_processor.Audit.{AreNotices}
use payments_processor.Audit.Statements.{insert_event_new}
use payments_processor.Audit.Effects.{Effect, moved, Effects, none_yet, and_then, Effects-append}
use payments_processor.Relay.Reaper.{
  unstranded, reaped_event, reaped_events, insert_events, unstrand,
}

-- The ids are of different payments that are being processed.
abbrev pub AreProcessing : List Payment → List ℕ → Type 0
AreProcessing ps [] = Unit
AreProcessing ps (id ∷ ids) =
    ((p : Payment) × (find_payment id ps ≡ some p) × (p.status ≡ processing))
    × (mem ids id ≡ false)
    × AreProcessing ps ids

-- The ulids are new, and different for different payments.
pub record AreNewUlids (ulid : ℕ → ℕ) (db : Db) : Type 0 where
  pub fresh : (id : ℕ) → find_event (ulid id) db.payment_events ≡ none
  pub distinct : (i j : ℕ) → (i == j) ≡ false → (ulid i == ulid j) ≡ false

processing_to_retrying : can_transition processing retrying ≡ true
unfolding can_transition
processing_to_retrying = refl

retrying_quiet :
    (s : PaymentStatus) (ns : List EventType)
    → s ≡ processing
    → AreNotices s ns
    → AreNotices retrying ns
retrying_quiet processing ns was h = h
retrying_quiet _ ns was h = cc

module _ (now : ℕ) (ulid : ℕ → ℕ) where
  -- The tables after the update of the given ids, and their events.
  abbrev pub brought_back : List ℕ → Db → Db
  brought_back ids db = record db {
    payments = update_where (λ p. mem ids p.id) (unstranded now) db.payments;
    payment_events = db.payment_events ++ reaped_events now ulid ids;
  }

  -- The update of one id.
  abbrev one_back : ℕ → Db → Db
  one_back id db = record db {
    payments = update_where (λ p. p.id == id && true) (unstranded now) db.payments;
    payment_events = db.payment_events ++ reaped_event now (ulid id) id ∷ [];
  }

  update_where-mem_cons :
      (id : ℕ) (ids : List ℕ) (ps : List Payment)
      → mem ids id ≡ false
      → update_where
          (λ p. mem ids p.id)
          (unstranded now)
          (update_where (λ p. p.id == id && true) (unstranded now) ps)
        ≡ update_where (λ p. mem (id ∷ ids) p.id) (unstranded now) ps
  update_where-mem_cons id ids [] h = refl
  update_where-mem_cons id ids (p ∷ ps) h = ground (arith, update_where-mem_cons id ids ps h)

  brought_back-cons :
      (id : ℕ) (ids : List ℕ) (db : Db)
      → mem ids id ≡ false
      → brought_back ids (one_back id db) ≡ brought_back (id ∷ ids) db
  brought_back-cons id ids db h = rw (update_where-mem_cons id ids db.payments h) (
      rw
        (append_assoc db.payment_events (reaped_event now (ulid id) id ∷ [])
          (reaped_events now ulid ids))
        refl)

  update_where-mem_nil :
      (ps : List Payment) → update_where (λ p. mem [] p.id) (unstranded now) ps ≡ ps
  update_where-mem_nil [] = refl
  update_where-mem_nil (p ∷ ps) = ap (λ l. p ∷ l) (update_where-mem_nil ps)

  pub brought_back-nil : (db : Db) → brought_back [] db ≡ db
  brought_back-nil db =
      rw (update_where-mem_nil db.payments) (rw (append-nil db.payment_events) refl)

  still_processing :
      (id : ℕ) (ids : List ℕ) (ps : List Payment)
      → mem ids id ≡ false
      → AreProcessing ps ids
      → AreProcessing (update_where (λ p. p.id == id && true) (unstranded now) ps) ids
  still_processing id [] ps h a = tt
  still_processing id (j ∷ ids) ps h ((p, found, was), new, a) =
      let ne : (id == j) ≡ false = ground arith in
      (
        (
          p,
          find-update_where (λ (r : Payment). r.id) id j (λ r. true) (unstranded now) (λ r. refl) ps
              ∙ rw ne found,
          was,
        ),
        new,
        still_processing id ids ps (ground arith) a,
      )

  one_back-Effect :
      (id : ℕ) (p : Payment) (db : Db)
      → find_payment id db.payments ≡ some p
      → p.status ≡ processing
      → Effect db (one_back id db)
  one_back-Effect id p db found was =
      moved id (λ r. true) (unstranded now) (λ r. refl) (reaped_event now (ulid id) id) p
        (record {
          found = found;
          chosen = refl;
          about = refl;
          from = ap some (sym was);
          allowed = rw was processing_to_retrying;
          to = refl;
          counted = refl;
        })
        (λ ns. retrying_quiet p.status ns was) refl

  pub brought_back-Effects :
      (ids : List ℕ) (db : Db) → AreProcessing db.payments ids → Effects db (brought_back ids db)
  brought_back-Effects [] db a = subst (Effects db) (sym (brought_back-nil db)) none_yet
  brought_back-Effects (id ∷ ids) db ((p, found, was), new, a) =
      subst (Effects db) (brought_back-cons id ids db new) (
        Effects-append (and_then none_yet (one_back-Effect id p db found was))
          (brought_back-Effects ids (one_back id db) (still_processing id ids db.payments new a)))

  -- The events of the ids can be inserted one after the other.
  abbrev AreInsertable : List PaymentEvent → List Payment → List ℕ → Type 0
  AreInsertable es ps [] = Unit
  AreInsertable es ps (id ∷ ids) =
      (find_event (ulid id) es ≡ none)
      × ((p : Payment) × (find_payment id ps ≡ some p))
      × (mem ids id ≡ false)
      × AreInsertable es ps ids

  inserted_one :
      (distinct : (i j : ℕ) → (i == j) ≡ false → (ulid i == ulid j) ≡ false) (id : ℕ) (ids : List ℕ)
      (es : List PaymentEvent) (ps : List Payment)
      → find_event (ulid id) es ≡ none
      → mem ids id ≡ false
      → AreInsertable es ps ids
      → AreInsertable (es ++ reaped_event now (ulid id) id ∷ []) ps ids
  inserted_one distinct id [] es ps fresh h a = tt
  inserted_one distinct id (j ∷ ids) es ps fresh h (new, there, once, a) = (
    find-append_new (λ (e : PaymentEvent). e.id) (ulid j) (reaped_event now (ulid id) id) es fresh
        ∙ rw (distinct id j (ground arith)) new,
    there,
    once,
    inserted_one distinct id ids es ps fresh (ground arith) a,
  )

  insert_events_new :
      (distinct : (i j : ℕ) → (i == j) ≡ false → (ulid i == ulid j) ≡ false) (ids : List ℕ)
      (db : Db)
      → AreInsertable db.payment_events db.payments ids
      → insert_events (reaped_events now ulid ids) db
        ≡ some (record db { payment_events = db.payment_events ++ reaped_events now ulid ids })
  unfolding insert_events
  insert_events_new distinct [] db a = rw (append-nil db.payment_events) refl
  insert_events_new distinct (id ∷ ids) db (new, (p, found), once, a) =
      let e : PaymentEvent = reaped_event now (ulid id) id in
      rw (insert_event_new e p db new found) (
        insert_events_new distinct ids (record db { payment_events = db.payment_events ++ e ∷ [] })
          (inserted_one distinct id ids db.payment_events db.payments new once a)
        ∙ rw (append_assoc db.payment_events (e ∷ []) (reaped_events now ulid ids)) refl)

  insertable :
      (all : List ℕ) (ids : List ℕ) (db : Db)
      → ((id : ℕ) → find_event (ulid id) db.payment_events ≡ none)
      → AreProcessing db.payments ids
      → AreInsertable db.payment_events
          (update_where (λ p. mem all p.id) (unstranded now) db.payments)
          ids
  insertable all [] db fresh a = tt
  insertable all (id ∷ ids) db fresh ((p, found, was), new, a) = (
    fresh id,
    (
      if mem all p.id then unstranded now p else p,
      find-update_where_any (λ (r : Payment). r.id) id (λ r. mem all r.id) (unstranded now)
            (λ r. refl) db.payments
          ∙ rw found refl,
    ),
    new,
    insertable all ids db fresh a,
  )

  -- The transaction succeeds, with the tables of `brought_back`.
  pub unstrand_works :
      (ids : List ℕ) (db : Db)
      → AreNewUlids ulid db
      → AreProcessing db.payments ids
      → unstrand now ulid ids db ≡ some (brought_back ids db)
  unfolding unstrand
  unstrand_works [] db new a = ap some (sym (brought_back-nil db))
  unstrand_works (id ∷ ids) db new a =
      insert_events_new new.distinct (id ∷ ids)
        (record db {
          payments = update_where (λ p. mem (id ∷ ids) p.id) (unstranded now) db.payments;
        })
        (insertable (id ∷ ids) (id ∷ ids) db new.fresh a)
