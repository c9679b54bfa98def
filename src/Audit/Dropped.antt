-- ===== src/Audit/Dropped.antt =====
-- What the tables of apps/api/src/database/schema.ts say of one another where the cleanup of
-- apps/api/src/relay/outbox-cleanup.service.ts drops rows of the outbox: they are looked at together
-- with the rows that were dropped.
use mathlib.Core.Path.{subst}
use mathlib.Core.List.{append_assoc, append-nil, map-append}
use payments_processor.Common.{
  ◌∙◌, ℕ, ◌≡◌, refl, sym, ap, inl, inr, Bool, ◌&&◌, not, none, some, Option, List, [], ◌∷◌, ◌++◌,
  ◌==◌, filter_by, filter_by-append, Bool-cases, arith,
}
use payments_processor.Shared.Status.{
  PaymentStatus, pending, processing, completed, failed, retrying,
}
use payments_processor.Database.{
  Payment, EventType, payment_submitted, event_type_eq, Outbox, Db, find_payment,
}
use payments_processor.Common.Table.{update_where}
use payments_processor.Audit.{notices_of, AreNotices, IsNotified, IsConsistent}
use payments_processor.Audit.Effects.{
  Effect, marked, moved, announced, submitted, Effects, none_yet, and_then, Effect-IsConsistent,
}

-- The tables, with rows put back into the outbox.
abbrev pub with_dropped : List Outbox → Db → Db
with_dropped dropped db = record db { outbox = dropped ++ db.outbox }

notices_of-append :
    (id : ℕ) (os ps : List Outbox) → notices_of id (os ++ ps) ≡ notices_of id os ++ notices_of id ps
notices_of-append id os ps =
    rw
      (filter_by-append
        (λ x. x.aggregate_id == id && not (event_type_eq x.event_type payment_submitted)) os ps)
      (map-append (λ x. x.event_type) _ _)

-- A transaction has the same effect on the tables with the dropped rows.
Effect-with_dropped :
    (dropped : List Outbox) {db db' : Db}
    → Effect db db'
    → Effect (with_dropped dropped db) (with_dropped dropped db')
Effect-with_dropped dropped {db} {db'} (marked ps es os) = marked ps es (λ id.
    notices_of-append id dropped db'.outbox
    ∙ ap (λ ns. notices_of id dropped ++ ns) (os id)
    ∙ sym (notices_of-append id dropped db.outbox))
Effect-with_dropped dropped (moved id q f keep e p m quiet same) =
    moved id q f keep e p m quiet (ap (with_dropped dropped) same)
Effect-with_dropped dropped {db} (announced id q f keep e p o m about real empty told same) =
    announced id q f keep e p o m about real empty told (
      ap (with_dropped dropped) same
      ∙ ap {B = Db}
          (λ os. record (with_dropped dropped db) {
            payments = update_where (λ r. r.id == id && q r) f db.payments;
            payment_events = db.payment_events ++ e ∷ [];
            outbox = os;
          })
          (sym (append_assoc dropped db.outbox (o ∷ []))))
Effect-with_dropped dropped {db} (submitted p e o s) = submitted p e o (record {
  new_id = s.new_id;
  is_pending = s.is_pending;
  is_first = s.is_first;
  about = s.about;
  from = s.from;
  to = s.to;
  submission = s.submission;
  payments = s.payments;
  payment_events = s.payment_events;
  outbox = ap (λ os. dropped ++ os) s.outbox ∙ sym (append_assoc dropped db.outbox (o ∷ []));
})

pub Effects-with_dropped :
    (dropped : List Outbox) {db db' : Db}
    → Effects db db'
    → IsConsistent (with_dropped dropped db)
    → IsConsistent (with_dropped dropped db')
Effects-with_dropped dropped none_yet c = c
Effects-with_dropped dropped (and_then es e) c =
    Effect-IsConsistent (Effect-with_dropped dropped e) (Effects-with_dropped dropped es c)

-- Rows that go from the outbox to the dropped ones. Where there is one notice at most, it stays.
module _ (id : ℕ) (gone : Outbox → Bool) where
  abbrev rest_of : List Outbox → List Outbox
  rest_of os = filter_by (λ o. not (gone o)) os

  none_moved :
      (os : List Outbox)
      → notices_of id os ≡ []
      → (notices_of id (filter_by gone os) ≡ []) × (notices_of id (rest_of os) ≡ [])
  none_moved [] h = (refl, refl)
  none_moved (o ∷ os) h = ground (arith, none_moved os)

  append_nil_parts : (ns ms : List EventType) → ns ++ ms ≡ [] → (ns ≡ []) × (ms ≡ [])
  append_nil_parts [] ms h = (refl, h)
  append_nil_parts (n ∷ ns) ms h = cc

  append_one_parts :
      (ns ms : List EventType) (t u : EventType)
      → ns ++ (u ∷ ms) ≡ t ∷ []
      → (ns ≡ []) × ((u ≡ t) × (ms ≡ []))
  append_one_parts [] ms t u h = (refl, (cc, cc))
  append_one_parts (n ∷ []) ms t u h = cc
  append_one_parts (n ∷ k ∷ ns) ms t u h = cc

  one_moved :
      (ns : List EventType) (os : List Outbox) (t : EventType)
      → ns ++ notices_of id os ≡ t ∷ []
      → (ns ++ notices_of id (filter_by gone os)) ++ notices_of id (rest_of os) ≡ t ∷ []
  one_moved ns [] t h = rw (append-nil ns) (rw (append-nil ns) (rw append-nil at h))
  one_moved ns (o ∷ os) t h =
      elim (Bool-cases
        (o.aggregate_id == id && not (event_type_eq o.event_type payment_submitted))) [
          | inr other ↦
              let h' : ns ++ notices_of id os ≡ t ∷ [] = rw other at h in
              let ih = one_moved ns os t h' in
              elim (Bool-cases (gone o)) [
                | inl goes ↦ rw (goes, other) ih
                | inr stays ↦ rw (stays, other) ih
              ]
          | inl one ↦
              let h' : ns ++ (o.event_type ∷ notices_of id os) ≡ t ∷ [] = rw one at h in
              let (before, (is, after)) =
                append_one_parts ns (notices_of id os) t o.event_type h' in
              let (moved_none, left_none) = none_moved os after in
              elim (Bool-cases (gone o)) [
                | inl goes ↦ rw (goes, one, before, moved_none, left_none, is) refl
                | inr stays ↦ rw (stays, one, before, moved_none, left_none, is) refl
              ]
        ]

  nil_moved :
      (ns : List EventType) (os : List Outbox)
      → ns ++ notices_of id os ≡ []
      → (ns ++ notices_of id (filter_by gone os)) ++ notices_of id (rest_of os) ≡ []
  nil_moved ns os h =
      let (before, after) = append_nil_parts ns (notices_of id os) h in
      let (moved_none, left_none) = none_moved os after in rw (before, moved_none, left_none) refl

  AreNotices-moved :
      (s : PaymentStatus) (ns : List EventType) (os : List Outbox)
      → AreNotices s (ns ++ notices_of id os)
      → AreNotices s ((ns ++ notices_of id (filter_by gone os)) ++ notices_of id (rest_of os))
  AreNotices-moved pending ns os h = nil_moved ns os h
  AreNotices-moved processing ns os h = nil_moved ns os h
  AreNotices-moved retrying ns os h = nil_moved ns os h
  AreNotices-moved completed ns os h = one_moved ns os _ h
  AreNotices-moved failed ns os (inl h) = inl (nil_moved ns os h)
  AreNotices-moved failed ns os (inr h) = inr (one_moved ns os _ h)

  IsNotified-moved :
      (found : Option Payment) (ns : List EventType) (os : List Outbox)
      → IsNotified found (ns ++ notices_of id os)
      → IsNotified found ((ns ++ notices_of id (filter_by gone os)) ++ notices_of id (rest_of os))
  IsNotified-moved none ns os h = nil_moved ns os h
  IsNotified-moved (some p) ns os h = AreNotices-moved p.status ns os h

  moved_notices :
      (dropped os : List Outbox) (found : Option Payment)
      → IsNotified found (notices_of id (dropped ++ os))
      → IsNotified found (notices_of id ((dropped ++ filter_by gone os) ++ rest_of os))
  moved_notices dropped os found h =
      rw
        (
          notices_of-append id (dropped ++ filter_by gone os) (rest_of os),
          notices_of-append id dropped (filter_by gone os),
        )
        (IsNotified-moved found (notices_of id dropped) os
          (subst (IsNotified found) (notices_of-append id dropped os) h))

-- What the cleanup does to the outbox.
abbrev pub cleaned : (Outbox → Bool) → Db → Db
cleaned gone db = record db { outbox = filter_by (λ o. not (gone o)) db.outbox }

pub cleaned-IsConsistent :
    (gone : Outbox → Bool) (dropped : List Outbox) (db : Db)
    → IsConsistent (with_dropped dropped db)
    → IsConsistent (with_dropped (dropped ++ filter_by gone db.outbox) (cleaned gone db))
cleaned-IsConsistent gone dropped db c = record {
  unique = c.unique;
  audited = c.audited;
  notified =
      λ id. moved_notices id gone dropped db.outbox (find_payment id db.payments) (c.notified id);
}
