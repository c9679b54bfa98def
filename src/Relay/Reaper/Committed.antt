-- ===== src/Relay/Reaper/Committed.antt =====
-- Any run of apps/api/src/relay/reaper.service.ts that commits, whatever its ulids.
use payments_processor.Common.{
  ℕ, ◌≡◌, refl, sym, ap, ◌∙◌, Bool, inl, inr, none, some, List, [], ◌∷◌, ◌++◌, Option, Option-cases,
  arith, map,
}
use mathlib.Core.List.{append-nil, append_assoc}
use payments_processor.Common.Table.{HasUniqueKeys}
use payments_processor.Database.{Payment, PaymentEvent, Db, insert_event}
use payments_processor.Jobs.{PaymentJob}
use payments_processor.Audit.Statements.{insert_event-eq}
use payments_processor.Audit.Effects.{Effects}
use payments_processor.Relay.Reaper.{
  reaped_events, insert_events, unstrand, processing_ids, select_stuck, reap_job, reap_once,
}
use payments_processor.Relay.Reaper.Unstranding.{
  brought_back, brought_back-nil, brought_back-Effects,
}
use payments_processor.Relay.Reaper.Laws.{ids-AreProcessing}

-- What a transaction wrote, or `old` after an error.
abbrev committed : Db → Option Db → Db
committed old none = old
committed old (some db) = db

abbrev committed_first : Db → Option (Db × List PaymentJob) → Db
committed_first old none = old
committed_first old (some (db, jobs)) = db

insert_events-eq :
    (es : List PaymentEvent) (db db' : Db)
    → insert_events es db ≡ some db'
    → db' ≡ record db { payment_events = db.payment_events ++ es }
unfolding insert_events
insert_events-eq [] db db' h = rw (append-nil db.payment_events) (ground arith)
insert_events-eq (e ∷ es) db db' h = elim (Option-cases (insert_event e db)) [
  | inl refused ↦ let no_row : none ≡ some db' = rw refused at h in absurd (ground arith)
  | inr (db1, done) ↦
      let later : insert_events es db1 ≡ some db' = rw done at h in
      insert_events-eq es db1 db' later
      ∙ ap {A = Db} (λ d. record d { payment_events = d.payment_events ++ es })
          (insert_event-eq e db db1 done)
      ∙ rw (append_assoc db.payment_events (e ∷ []) es) refl
]

unstrand-eq :
    (now : ℕ) (ulid : ℕ → ℕ) (ids : List ℕ) (db db' : Db)
    → unstrand now ulid ids db ≡ some db'
    → db' ≡ brought_back now ulid ids db
unfolding unstrand
unstrand-eq now ulid [] db db' h =
    ap (λ o. committed db o) (sym h) ∙ sym (brought_back-nil now ulid db)
unstrand-eq now ulid (id ∷ ids) db db' h =
    insert_events-eq (reaped_events now ulid (id ∷ ids)) _ db' h

pub reap_once-eq :
    (locked : ℕ → Bool) (deadline_ms now enqueued : ℕ) (ulid : ℕ → ℕ) (db db' : Db)
    (jobs : List PaymentJob)
    → reap_once locked deadline_ms now enqueued ulid db ≡ some (db', jobs)
    → db' ≡ brought_back now ulid (processing_ids (select_stuck locked deadline_ms now db)) db
unfolding reap_once
reap_once-eq locked deadline_ms now enqueued ulid db db' jobs h =
    elim (Option-cases
      (unstrand now ulid (processing_ids (select_stuck locked deadline_ms now db)) db)) [
        | inl refused ↦
            let no_row : ◌≡◌ {A = Option (Db × List PaymentJob)} none (some (db', jobs)) =
              rw refused at h in
            cc
        | inr (db1, done) ↦
            let both : ◌≡◌ {A = Option (Db × List PaymentJob)}
                (some (db1, map (reap_job enqueued) (select_stuck locked deadline_ms now db)))
                (some (db', jobs)) =
              rw done at h in
            sym (ap (committed_first db) both)
            ∙ unstrand-eq now ulid (processing_ids (select_stuck locked deadline_ms now db)) db db1
                done
      ]

pub reap_once-Effects :
    (locked : ℕ → Bool) (deadline_ms now enqueued : ℕ) (ulid : ℕ → ℕ) (db db' : Db)
    (jobs : List PaymentJob)
    → HasUniqueKeys (λ (p : Payment). p.id) db.payments
    → reap_once locked deadline_ms now enqueued ulid db ≡ some (db', jobs)
    → Effects db db'
reap_once-Effects locked deadline_ms now enqueued ulid db db' jobs unique h =
    rw (reap_once-eq locked deadline_ms now enqueued ulid db db' jobs h) (
      brought_back-Effects now ulid (processing_ids (select_stuck locked deadline_ms now db)) db
        (ids-AreProcessing locked deadline_ms now enqueued ulid db unique))
