-- ===== src/Audit/Moves.antt =====
-- Moving one payment and writing its event, in the tables of apps/api/src/database/schema.ts.
use payments_processor.Common.{
  ℕ, ◌+◌, ◌≡◌, refl, sym, ap, inl, inr, Bool, true, false, ◌&&◌, Option, none, some, List, [], ◌∷◌,
  ◌++◌, ◌==◌, ==_iff, length-append, filter_by-append, Bool-cases, if◌then◌else◌, arith,
}
use payments_processor.Common.Table.{
  HasUniqueKeys, update_where, find-update_where, update_where-HasUniqueKeys,
}
use mathlib.Core.List.{append-nil, map-append}
use mathlib.Core.Path.{subst}
use payments_processor.Common.{◌∙◌, not}
use payments_processor.Shared.Status.{PaymentStatus, can_transition}
use payments_processor.Database.{
  Payment, PaymentEvent, payment_submitted, event_type_eq, Outbox, Db, find_payment,
}
use payments_processor.Audit.{
  events_of, IsTrail, IsAudited, notices_of, IsNotified, AreNotices, IsConsistent,
}

pub IsTrail-append :
    (from : Option PaymentStatus) (es : List PaymentEvent) (s : PaymentStatus) (e : PaymentEvent)
    → IsTrail from es (some s)
    → e.from_status ≡ some s
    → can_transition s e.to_status ≡ true
    → IsTrail from (es ++ e ∷ []) (some e.to_status)
IsTrail-append from [] s e h f m = rw h (f, m, refl)
IsTrail-append from (x ∷ es) s e (h, k, t) f m =
    (h, k, IsTrail-append (some x.to_status) es s e t f m)

pub events_of-append_self :
    (id : ℕ) (es : List PaymentEvent) (e : PaymentEvent)
    → e.payment_id ≡ id
    → events_of id (es ++ e ∷ []) ≡ events_of id es ++ e ∷ []
events_of-append_self id es e h =
    rw (filter_by-append (λ x. x.payment_id == id) es (e ∷ [])) (ground arith)

pub events_of-append_ne :
    (id : ℕ) (es : List PaymentEvent) (e : PaymentEvent)
    → (e.payment_id == id) ≡ false
    → events_of id (es ++ e ∷ []) ≡ events_of id es
events_of-append_ne id es e h =
    rw (filter_by-append (λ x. x.payment_id == id) es (e ∷ [])) (rw h (append-nil _))

pub notices_of-append_self :
    (id : ℕ) (os : List Outbox) (o : Outbox)
    → o.aggregate_id ≡ id
    → event_type_eq o.event_type payment_submitted ≡ false
    → notices_of id (os ++ o ∷ []) ≡ notices_of id os ++ o.event_type ∷ []
notices_of-append_self id os o h real =
    rw
      (filter_by-append
        (λ x. x.aggregate_id == id && not (event_type_eq x.event_type payment_submitted)) os
        (o ∷ []))
      (map-append (λ x. x.event_type) _ _ ∙ ap (λ r. notices_of id os ++ r) (ground arith))

pub notices_of-append_ne :
    (id : ℕ) (os : List Outbox) (o : Outbox)
    → (o.aggregate_id == id && not (event_type_eq o.event_type payment_submitted)) ≡ false
    → notices_of id (os ++ o ∷ []) ≡ notices_of id os
notices_of-append_ne id os o h =
    rw
      (filter_by-append
        (λ x. x.aggregate_id == id && not (event_type_eq x.event_type payment_submitted)) os
        (o ∷ []))
      (rw h (rw append-nil refl))

-- One payment of status `p.status` becomes `f p`, with an event that says so.
module _ (id : ℕ) (q : Payment → Bool) (f : Payment → Payment)
    (keep : (r : Payment) → (f r).id ≡ r.id) (e : PaymentEvent) (p : Payment) where
  pub record Moves (ps : List Payment) : Type 0 where
    pub found : find_payment id ps ≡ some p
    pub chosen : q p ≡ true
    pub about : e.payment_id ≡ id
    pub from : e.from_status ≡ some p.status
    pub allowed : can_transition p.status (f p).status ≡ true
    pub to : e.to_status ≡ (f p).status
    pub counted : (f p).version ≡ p.version + 1

  pub find-moved :
      (ps : List Payment)
      → Moves ps
      → (j : ℕ)
      → find_payment j (update_where (λ r. r.id == id && q r) f ps)
        ≡ (if id == j then some (f p) else find_payment j ps)
  find-moved ps m j =
      rw (find-update_where (λ (r : Payment). r.id) id j q f keep ps) (elim (Bool-cases (id == j)) [
        | inl same ↦
            let e' : id ≡ j = (==_iff id j).0 same in rw same (rw (← e') (rw m.found (rw m.chosen)))
        | inr other ↦ rw other
      ])

  IsAudited-self :
      (ps : List Payment) (es : List PaymentEvent)
      → Moves ps
      → IsAudited (some p) (events_of id es)
      → IsAudited (some (f p)) (events_of id (es ++ e ∷ []))
  IsAudited-self ps es m (trail, count) = rw (events_of-append_self id es e m.about) (
    subst (λ s. IsTrail none (events_of id es ++ e ∷ []) (some s)) m.to
        (IsTrail-append none (events_of id es) p.status e trail m.from
          (subst (λ s. can_transition p.status s ≡ true) (sym m.to) m.allowed)),
    rw (length-append (events_of id es) (e ∷ [])) (omega (arith, m.counted)),
  )

  -- The history of every payment, after one has moved.
  pub move-IsAudited :
      (ps : List Payment) (es : List PaymentEvent)
      → Moves ps
      → ((j : ℕ) → IsAudited (find_payment j ps) (events_of j es))
      → (j : ℕ)
      → IsAudited
          (find_payment j (update_where (λ r. r.id == id && q r) f ps))
          (events_of j (es ++ e ∷ []))
  move-IsAudited ps es m h j = rw (find-moved ps m j) (elim (Bool-cases (id == j)) [
    | inl same ↦
        let e' : id ≡ j = (==_iff id j).0 same in
        rw same (
          subst (λ k. IsAudited (some (f p)) (events_of k (es ++ e ∷ []))) e'
            (IsAudited-self ps es m (rw m.found at (h id))))
    | inr other ↦ rw other (rw (events_of-append_ne j es e (rw m.about other)) (h j))
  ])

  -- The notices, after a move that writes none.
  pub move-IsNotified :
      (ps : List Payment) (os : List Outbox)
      → Moves ps
      → (AreNotices p.status (notices_of id os) → AreNotices (f p).status (notices_of id os))
      → ((j : ℕ) → IsNotified (find_payment j ps) (notices_of j os))
      → (j : ℕ)
      → IsNotified (find_payment j (update_where (λ r. r.id == id && q r) f ps)) (notices_of j os)
  move-IsNotified ps os m quiet h j = rw (find-moved ps m j) (elim (Bool-cases (id == j)) [
    | inl same ↦
        let e' : id ≡ j = (==_iff id j).0 same in
        rw same
          (subst (λ k. IsNotified (some (f p)) (notices_of k os)) e' (quiet (rw m.found at (h id))))
    | inr other ↦ rw other (h j)
  ])

  -- The notices, after a move that writes one.
  pub move-IsNotified_with :
      (ps : List Payment) (os : List Outbox) (o : Outbox)
      → Moves ps
      → o.aggregate_id ≡ id
      → event_type_eq o.event_type payment_submitted ≡ false
      → notices_of id os ≡ []
      → AreNotices (f p).status (o.event_type ∷ [])
      → ((j : ℕ) → IsNotified (find_payment j ps) (notices_of j os))
      → (j : ℕ)
      → IsNotified
          (find_payment j (update_where (λ r. r.id == id && q r) f ps))
          (notices_of j (os ++ o ∷ []))
  move-IsNotified_with ps os o m about real empty told h j =
      rw (find-moved ps m j) (elim (Bool-cases (id == j)) [
        | inl same ↦
            let e' : id ≡ j = (==_iff id j).0 same in
            rw same (
              subst (λ k. IsNotified (some (f p)) (notices_of k (os ++ o ∷ []))) e'
                (rw (notices_of-append_self id os o about real) (rw empty told)))
        | inr other ↦ rw other (rw (notices_of-append_ne j os o (rw about (ground arith))) (h j))
      ])

  move_unique :
      (ps : List Payment)
      → HasUniqueKeys (λ (r : Payment). r.id) ps
      → HasUniqueKeys (λ (r : Payment). r.id) (update_where (λ r. r.id == id && q r) f ps)
  move_unique ps h = update_where-HasUniqueKeys (λ r. r.id) _ f keep ps h

  -- A move without a notice.
  pub move-IsConsistent :
      (db : Db)
      → Moves db.payments
      → (AreNotices p.status (notices_of id db.outbox)
          → AreNotices (f p).status (notices_of id db.outbox))
      → IsConsistent db
      → IsConsistent (record db {
        payments = update_where (λ r. r.id == id && q r) f db.payments;
        payment_events = db.payment_events ++ e ∷ [];
      })
  move-IsConsistent db m quiet c = record {
    unique = move_unique db.payments c.unique;
    audited = move-IsAudited db.payments db.payment_events m c.audited;
    notified = move-IsNotified db.payments db.outbox m quiet c.notified;
  }

  -- A move with a notice.
  pub move-IsConsistent_with :
      (db : Db) (o : Outbox)
      → Moves db.payments
      → o.aggregate_id ≡ id
      → event_type_eq o.event_type payment_submitted ≡ false
      → notices_of id db.outbox ≡ []
      → AreNotices (f p).status (o.event_type ∷ [])
      → IsConsistent db
      → IsConsistent (record db {
        payments = update_where (λ r. r.id == id && q r) f db.payments;
        payment_events = db.payment_events ++ e ∷ [];
        outbox = db.outbox ++ o ∷ [];
      })
  move-IsConsistent_with db o m about real empty told c = record {
    unique = move_unique db.payments c.unique;
    audited = move-IsAudited db.payments db.payment_events m c.audited;
    notified = move-IsNotified_with db.payments db.outbox o m about real empty told c.notified;
  }
