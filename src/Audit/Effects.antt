-- ===== src/Audit/Effects.antt =====
-- The ways in which a transaction changes the tables of apps/api/src/database/schema.ts, and what
-- each of them keeps.
use mathlib.Core.Path.{subst}
use payments_processor.Common.{
  ◌∙◌, ℕ, suc, ◌≡◌, ◌≢◌, sym, ap, inl, inr, Bool, true, false, ◌&&◌, none, some, List, [], ◌∷◌,
  ◌++◌, ◌==◌, ==_iff, Bool-cases, arith,
}
use payments_processor.Common.Table.{
  update_where, update_where-HasUniqueKeys, find-append_new, find-append_some, append-HasUniqueKeys,
}
use payments_processor.Shared.Status.{PaymentStatus, pending, can_transition}
use payments_processor.Shared.Status.Laws.{IsTerminal}
use payments_processor.Database.{
  Payment, PaymentEvent, EventType, payment_submitted, event_type_eq, Outbox, Db, find_payment,
}
use payments_processor.Audit.{
  HasUniqueIds, events_of, IsAudited, notices_of, IsNotified, AreNotices, IsConsistent,
}
use payments_processor.Audit.Moves.{
  Moves, find-moved, move-IsConsistent, move-IsConsistent_with, events_of-append_self,
  events_of-append_ne, notices_of-append_ne,
}

-- A payment that is new, with its first event and, for the relay, its submission.
pub record Submits (db db' : Db) (p : Payment) (e : PaymentEvent) (o : Outbox) : Type 0 where
  pub new_id : find_payment p.id db.payments ≡ none
  pub is_pending : p.status ≡ pending
  pub is_first : p.version ≡ 0
  pub about : e.payment_id ≡ p.id
  pub from : e.from_status ≡ none
  pub to : e.to_status ≡ pending
  pub submission : o.event_type ≡ payment_submitted
  pub payments : db'.payments ≡ db.payments ++ p ∷ []
  pub payment_events : db'.payment_events ≡ db.payment_events ++ e ∷ []
  pub outbox : db'.outbox ≡ db.outbox ++ o ∷ []

pub data Effect (db db' : Db) : Type 0 where
  -- Payments, their events and their notices stay as they are.
  marked :
      db'.payments ≡ db.payments
      → db'.payment_events ≡ db.payment_events
      → ((id : ℕ) → notices_of id db'.outbox ≡ notices_of id db.outbox)
      → Effect db db'
  -- One payment moves.
  moved :
      (id : ℕ) (q : Payment → Bool) (f : Payment → Payment) (keep : (r : Payment) → (f r).id ≡ r.id)
      (e : PaymentEvent) (p : Payment)
      → Moves id q f keep e p db.payments
      → ((ns : List EventType) → AreNotices p.status ns → AreNotices (f p).status ns)
      → db' ≡ record db {
        payments = update_where (λ r. r.id == id && q r) f db.payments;
        payment_events = db.payment_events ++ e ∷ [];
      }
      → Effect db db'
  -- One payment moves, and a notice of it is written.
  announced :
      (id : ℕ) (q : Payment → Bool) (f : Payment → Payment) (keep : (r : Payment) → (f r).id ≡ r.id)
      (e : PaymentEvent) (p : Payment) (o : Outbox)
      → Moves id q f keep e p db.payments
      → o.aggregate_id ≡ id
      → event_type_eq o.event_type payment_submitted ≡ false
      → ((ns : List EventType) → AreNotices p.status ns → ns ≡ [])
      → AreNotices (f p).status (o.event_type ∷ [])
      → db' ≡ record db {
        payments = update_where (λ r. r.id == id && q r) f db.payments;
        payment_events = db.payment_events ++ e ∷ [];
        outbox = db.outbox ++ o ∷ [];
      }
      → Effect db db'
  submitted : (p : Payment) (e : PaymentEvent) (o : Outbox) → Submits db db' p e o → Effect db db'

pub still : {db db' : Db} → db' ≡ db → Effect db db'
still {db} {db'} e =
    marked (ap (λ d. d.payments) e) (ap (λ d. d.payment_events) e)
      (λ id. ap (λ d. notices_of id d.outbox) e)

module _ (db db' : Db) (p : Payment) (e : PaymentEvent) (o : Outbox)
    (s : Submits db db' p e o) where
  no_history : IsConsistent db → events_of p.id db.payment_events ≡ []
  no_history c = rw s.new_id at (c.audited p.id)

  IsAudited-new : IsConsistent db → IsAudited (some p) (events_of p.id db'.payment_events)
  IsAudited-new c = rw s.payment_events (
      rw (events_of-append_self p.id db.payment_events e s.about) (
        rw (no_history c)
          ((s.from, s.to, ap some (s.to ∙ sym s.is_pending)), ap suc (sym s.is_first))))

  submitted-IsAudited :
      (c : IsConsistent db) (j : ℕ)
      → IsAudited (find_payment j db'.payments) (events_of j db'.payment_events)
  submitted-IsAudited c j = rw s.payments (
      rw (find-append_new (λ (x : Payment). x.id) j p db.payments s.new_id)
        (elim (Bool-cases (p.id == j)) [
          | inl same ↦
              let e' : p.id ≡ j = (==_iff p.id j).0 same in
              rw same (
                subst (λ k. IsAudited (some p) (events_of k db'.payment_events)) e'
                  (IsAudited-new c))
          | inr other ↦ rw other (
              rw s.payment_events
                (rw (events_of-append_ne j db.payment_events e (rw s.about other)) (c.audited j)))
        ]))

  notices_same : (j : ℕ) → notices_of j db'.outbox ≡ notices_of j db.outbox
  notices_same j =
      ap (notices_of j) s.outbox
      ∙ notices_of-append_ne j db.outbox o (rw s.submission (ground arith))

  submitted-IsNotified :
      (c : IsConsistent db) (j : ℕ)
      → IsNotified (find_payment j db'.payments) (notices_of j db'.outbox)
  submitted-IsNotified c j = rw (notices_same j) (
      rw s.payments (
        rw (find-append_new (λ (x : Payment). x.id) j p db.payments s.new_id)
          (elim (Bool-cases (p.id == j)) [
            | inl same ↦
                let e' : p.id ≡ j = (==_iff p.id j).0 same in
                rw same (
                  subst (λ k. IsNotified (some p) (notices_of k db.outbox)) e'
                    (rw s.is_pending (rw s.new_id at (c.notified p.id))))
            | inr other ↦ rw other (c.notified j)
          ])))

  submitted-IsConsistent : IsConsistent db → IsConsistent db'
  submitted-IsConsistent c = record {
    unique =
        rw s.payments
          (append-HasUniqueKeys (λ (r : Payment). r.id) db.payments p s.new_id c.unique);
    audited = submitted-IsAudited c;
    notified = submitted-IsNotified c;
  }

pub Effect-IsConsistent : {db db' : Db} → Effect db db' → IsConsistent db → IsConsistent db'
Effect-IsConsistent (marked ps es os) c = record {
  unique = rw ps c.unique;
  audited = λ j. rw (ps, es) (c.audited j);
  notified = λ j. rw (ps, os j) (c.notified j);
}
Effect-IsConsistent {db} (moved id q f keep e p m quiet same) c =
    rw same (move-IsConsistent id q f keep e p db m (quiet (notices_of id db.outbox)) c)
Effect-IsConsistent {db} (announced id q f keep e p o m about real empty told same) c = rw same (
    move-IsConsistent_with id q f keep e p db o m about real
      (empty (notices_of id db.outbox) (rw m.found at (c.notified id))) told c)
Effect-IsConsistent {db} {db'} (submitted p e o s) c = submitted-IsConsistent db db' p e o s c

-- The rows of payments keep their primary keys.
pub Effect-HasUniqueIds : {db db' : Db} → Effect db db' → HasUniqueIds db → HasUniqueIds db'
Effect-HasUniqueIds (marked ps es os) c = rw ps c
Effect-HasUniqueIds {db} (moved id q f keep e p m quiet same) c =
    rw same (update_where-HasUniqueKeys (λ (r : Payment). r.id) _ f keep db.payments c)
Effect-HasUniqueIds {db} (announced id q f keep e p o m about real empty told same) c =
    rw same (update_where-HasUniqueKeys (λ (r : Payment). r.id) _ f keep db.payments c)
Effect-HasUniqueIds {db} (submitted p e o s) c =
    rw s.payments (append-HasUniqueKeys (λ (r : Payment). r.id) db.payments p s.new_id c)

terminal_stuck : (s t : PaymentStatus) → IsTerminal s → can_transition s t ≢ true
unfolding can_transition
terminal_stuck s t h = ground arith

module _ (k : ℕ) (q : Payment → Bool) (f : Payment → Payment)
    (keep : (r : Payment) → (f r).id ≡ r.id) (e : PaymentEvent) (p : Payment) where
  moved-terminal :
      (ps : List Payment) (id : ℕ) (r : Payment)
      → Moves k q f keep e p ps
      → find_payment id ps ≡ some r
      → IsTerminal r.status
      → find_payment id (update_where (λ x. x.id == k && q x) f ps) ≡ some r
  moved-terminal ps id r m h t =
      rw (find-moved k q f keep e p ps m id) (elim (Bool-cases (k == id)) [
        | inl same ↦
            let e' : k ≡ id = (==_iff k id).0 same in
            let here : some p ≡ some r = sym m.found ∙ ap (λ i. find_payment i ps) e' ∙ h in
            let one : p.status ≡ r.status = cc in
            absurd (
              terminal_stuck r.status (f p).status t
                (subst (λ x. can_transition x (f p).status ≡ true) one m.allowed))
        | inr other ↦ rw other h
      ])

-- A row of a terminal payment is kept as it is.
pub Effect-terminal :
    {db db' : Db} (id : ℕ) (r : Payment)
    → Effect db db'
    → find_payment id db.payments ≡ some r
    → IsTerminal r.status
    → find_payment id db'.payments ≡ some r
Effect-terminal id r (marked ps es os) h t = rw ps h
Effect-terminal {db} id r (moved k q f keep e p m quiet same) h t =
    rw same (moved-terminal k q f keep e p db.payments id r m h t)
Effect-terminal {db} id r (announced k q f keep e p o m about real empty told same) h t =
    rw same (moved-terminal k q f keep e p db.payments id r m h t)
Effect-terminal {db} id r (submitted p e o s) h t =
    rw s.payments (find-append_some (λ (x : Payment). x.id) id r db.payments (p ∷ []) h)

-- Any number of transactions, one after the other.
pub data Effects (db : Db) : Db → Type 0 where
  none_yet : Effects db db
  and_then : {middle db' : Db} → Effects db middle → Effect middle db' → Effects db db'

pub Effects-IsConsistent : {db db' : Db} → Effects db db' → IsConsistent db → IsConsistent db'
Effects-IsConsistent none_yet c = c
Effects-IsConsistent (and_then es e) c = Effect-IsConsistent e (Effects-IsConsistent es c)

pub Effects-terminal :
    {db db' : Db} (id : ℕ) (r : Payment)
    → Effects db db'
    → find_payment id db.payments ≡ some r
    → IsTerminal r.status
    → find_payment id db'.payments ≡ some r
Effects-terminal id r none_yet h t = h
Effects-terminal id r (and_then es e) h t = Effect-terminal id r e (Effects-terminal id r es h t) t

pub Effects-append : {a b c : Db} → Effects a b → Effects b c → Effects a c
Effects-append es none_yet = es
Effects-append es (and_then fs f) = and_then (Effects-append es fs) f

pub Effects-HasUniqueIds : {db db' : Db} → Effects db db' → HasUniqueIds db → HasUniqueIds db'
Effects-HasUniqueIds none_yet c = c
Effects-HasUniqueIds (and_then es e) c = Effect-HasUniqueIds e (Effects-HasUniqueIds es c)
