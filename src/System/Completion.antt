-- ===== src/System/Completion.antt =====
-- Which payments a transaction of apps/api/src completes.
use payments_processor.Common.{
  ℕ, ◌≡◌, ◌≢◌, refl, sym, ap, ◌∙◌, inl, inr, ◌⊎◌, Bool, ◌==◌, ==_iff, none, some, List, [], ◌∷◌,
  ◌++◌, Bool-cases, Option, Option-cases, arith, if◌then◌else◌, String,
}
use payments_processor.Common.Table.{
  update_where, find-append_new, find-update_where, find-update_where_any, changed,
}
use payments_processor.Shared.Status.{PaymentStatus, processing, completed, failed, status_eq}
use payments_processor.Database.{Payment, Metadata, JobData, Db, find_payment, insert_event}
use payments_processor.Worker.Processor.{
  claim_cas, claimed, retry_txn, retried, finish_txn, finished_as,
}
use payments_processor.Audit.{HasUniqueIds}
use payments_processor.Jobs.{PaymentJob}
use payments_processor.Worker.Processor.Retrying.{retry_txn-Retried, missed, gave_up, again}
use payments_processor.Worker.Processor.Finishing.{finish_txn-Finished, settled}
use payments_processor.Worker.Processor.Finishing
use payments_processor.Payments.Service.{CreatePaymentDto, Fresh, new_payment, insert_txn}
use payments_processor.Payments.Service.Submission.{insert_txn_atomic, wrote, wrote_nothing}
use payments_processor.Relay.Poll.{poll_once}
use payments_processor.Relay.Reaper.{unstranded, reap_once}
use payments_processor.Relay.Reaper.Committed.{reap_once-eq}
use payments_processor.Worker.Processor.Rows.{matching}

-- A payment that is completed in `db'` was completed in `db`, unless it is the one of `id`.
abbrev pub CompletesOnly : (ℕ → Type 0) → List Payment → List Payment → Type 0
CompletesOnly P ps ps' =
    (id : ℕ) (p : Payment)
    → find_payment id ps' ≡ some p
    → p.status ≡ completed
    → ((r : Payment) × (find_payment id ps ≡ some r) × (r.status ≡ completed)) ⊎ P id

module _ (q : Payment → Bool) (f : Payment → Payment) (keep : (r : Payment) → (f r).id ≡ r.id) where
  pub update-CompletesOnly :
      (ps : List Payment)
      → ((r : Payment) → (f r).status ≢ completed)
      → CompletesOnly (λ id. ⊥) ps (update_where q f ps)
  update-CompletesOnly ps other id p found is = elim (Option-cases (find_payment id ps)) [
    | inl missing ↦
        let e : changed (λ (r : Payment). r.id) q f none ≡ some p =
          ap (changed (λ (r : Payment). r.id) q f) (sym missing)
          ∙ sym (find-update_where_any (λ (r : Payment). r.id) id q f keep ps)
          ∙ found in
        absurd (ground arith)
    | inr (r, there) ↦
        let e : changed (λ (r : Payment). r.id) q f (some r) ≡ some p =
          ap (changed (λ (r : Payment). r.id) q f) (sym there)
          ∙ sym (find-update_where_any (λ (r : Payment). r.id) id q f keep ps)
          ∙ found in
        elim (Bool-cases (q r)) [
          | inl hit ↦
              let same : some (f r) ≡ some p = rw hit at e in
              let done : (f r).status ≡ completed = ground arith in absurd (other r done)
          | inr miss ↦ let same : some r ≡ some p = rw miss at e in inl (r, there, ground arith)
        ]
  ]

-- What the transactions do to the payments.
claim_cas-payments :
    (event_id now : ℕ) (job : JobData) (from : PaymentStatus) (db db' : Db)
    → claim_cas event_id now job from db ≡ some db'
    → db'.payments ≡ update_where (matching job.payment_id from) (claimed now) db.payments
unfolding claim_cas insert_event
claim_cas-payments event_id now job from db db' e = ground arith

abbrev Nobody : ℕ → Type 0
Nobody id = ⊥

pub unchanged-CompletesOnly :
    (P : ℕ → Type 0) (ps ps' : List Payment) → ps' ≡ ps → CompletesOnly P ps ps'
unchanged-CompletesOnly P ps ps' same id p found is =
    inl (p, ap (find_payment id) (sym same) ∙ found, is)

updated-CompletesOnly :
    (q : Payment → Bool) (f : Payment → Payment) (keep : (r : Payment) → (f r).id ≡ r.id)
    (ps ps' : List Payment)
    → ((r : Payment) → (f r).status ≢ completed)
    → ps' ≡ update_where q f ps
    → CompletesOnly Nobody ps ps'
updated-CompletesOnly q f keep ps ps' other same id p found is =
    update-CompletesOnly q f keep ps other id p (ap (find_payment id) (sym same) ∙ found) is

pub claim_cas-CompletesOnly :
    (event_id now : ℕ) (job : JobData) (from : PaymentStatus) (db db' : Db)
    → claim_cas event_id now job from db ≡ some db'
    → CompletesOnly (λ id. ⊥) db.payments db'.payments
claim_cas-CompletesOnly event_id now job from db db' e =
    updated-CompletesOnly (matching job.payment_id from) (claimed now) (λ r. refl) db.payments
      db'.payments (λ r h. absurd (ground arith))
      (claim_cas-payments event_id now job from db db' e)

retried_not_completed :
    (max_retries now : ℕ) (why : String) (r : Payment)
    → (retried max_retries now why r).status ≢ completed
retried_not_completed max_retries now why r h = ground arith

pub retry_txn-CompletesOnly :
    (max_retries event_id now : ℕ) (job : JobData) (why : String) (db db' : Db) (n : Option ℕ)
    → HasUniqueIds db
    → retry_txn max_retries event_id now job why db ≡ some (db', n)
    → CompletesOnly (λ id. ⊥) db.payments db'.payments
retry_txn-CompletesOnly max_retries event_id now job why db db' n c e =
    let f : Payment → Payment = retried max_retries now why in
    let never = retried_not_completed max_retries now why in
    let q : Payment → Bool = matching job.payment_id processing in
    elim (retry_txn-Retried max_retries event_id now job why db db' n c e) [
      | missed same _ ↦
          unchanged-CompletesOnly Nobody db.payments db'.payments (ap (λ d. d.payments) same)
      | gave_up p found was over same _ ↦
          updated-CompletesOnly q f (λ r. refl) db.payments db'.payments never
            (ap (λ d. d.payments) same)
      | again p found was under same _ ↦
          updated-CompletesOnly q f (λ r. refl) db.payments db'.payments never
            (ap (λ d. d.payments) same)
    ]

pub finish_txn-CompletesOnly :
    (event_id outbox_id now : ℕ) (job : JobData) (metadata : Metadata) (db db' : Db)
    → HasUniqueIds db
    → finish_txn event_id outbox_id now job failed metadata db ≡ some db'
    → CompletesOnly (λ id. ⊥) db.payments db'.payments
finish_txn-CompletesOnly event_id outbox_id now job metadata db db' c e =
    elim (finish_txn-Finished event_id outbox_id now job failed metadata db db' c e) [
      | Finishing.missed same ↦
          unchanged-CompletesOnly Nobody db.payments db'.payments (ap (λ d. d.payments) same)
      | settled p found was same ↦
          updated-CompletesOnly (matching job.payment_id processing) (finished_as now failed)
            (λ r. refl) db.payments db'.payments (λ r h. absurd (ground arith))
            (ap (λ d. d.payments) same)
    ]

pub finish_txn-CompletesOnly_one :
    (event_id outbox_id now : ℕ) (job : JobData) (metadata : Metadata) (db db' : Db)
    → HasUniqueIds db
    → finish_txn event_id outbox_id now job completed metadata db ≡ some db'
    → CompletesOnly (λ id. id ≡ job.payment_id) db.payments db'.payments
finish_txn-CompletesOnly_one event_id outbox_id now job metadata db db' c e =
    elim (finish_txn-Finished event_id outbox_id now job completed metadata db db' c e) [
      | Finishing.missed same ↦
          unchanged-CompletesOnly (λ id. id ≡ job.payment_id) db.payments db'.payments
            (ap (λ d. d.payments) same)
      | settled p found was same ↦ λ id r there is. elim (Bool-cases (job.payment_id == id)) [
        | inl this ↦ inr (sym ((==_iff job.payment_id id).0 this))
        | inr other ↦ inl (
          r,
          sym (
                find-update_where (λ (x : Payment). x.id) job.payment_id id
                  (λ x. status_eq x.status processing) (finished_as now completed) (λ x. refl)
                  db.payments
                ∙ rw other refl)
              ∙ ap (λ d. find_payment id d.payments) (sym same)
              ∙ there,
          is,
        )
      ]
    ]

pub reap_once-CompletesOnly :
    (locked : ℕ → Bool) (deadline_ms now enqueued : ℕ) (ulid : ℕ → ℕ) (db db' : Db)
    (jobs : List PaymentJob)
    → reap_once locked deadline_ms now enqueued ulid db ≡ some (db', jobs)
    → CompletesOnly (λ id. ⊥) db.payments db'.payments
reap_once-CompletesOnly locked deadline_ms now enqueued ulid db db' jobs e =
    updated-CompletesOnly _ (unstranded now) (λ r. refl) db.payments db'.payments
      (λ r h. absurd (ground arith))
      (ap (λ d. d.payments) (reap_once-eq locked deadline_ms now enqueued ulid db db' jobs e))

pub poll_once-CompletesOnly :
    (locked : ℕ → Bool) (now : ℕ) (db : Db)
    → CompletesOnly (λ id. ⊥) db.payments (poll_once locked now db).0.payments
poll_once-CompletesOnly locked now db =
    unchanged-CompletesOnly Nobody db.payments _ (unfold poll_once in (ground arith))

appended-CompletesOnly :
    (new : Payment) (ps ps' : List Payment)
    → new.status ≢ completed
    → find_payment new.id ps ≡ none
    → ps' ≡ ps ++ new ∷ []
    → CompletesOnly Nobody ps ps'
appended-CompletesOnly new ps ps' other fresh same id p found is =
    let e : (if new.id == id then some new else find_payment id ps) ≡ some p =
      sym (find-append_new (λ (x : Payment). x.id) id new ps fresh)
      ∙ ap (find_payment id) (sym same)
      ∙ found in
    elim (Bool-cases (new.id == id)) [
      | inl this ↦
          let one : some new ≡ some p = rw this at e in
          let done : new.status ≡ completed = ground arith in absurd (other done)
      | inr that ↦ inl (p, rw that at e, is)
    ]

pub insert_txn-CompletesOnly :
    (fresh : Fresh) (dto : CreatePaymentDto) (key hash cor : String) (db : Db)
    → CompletesOnly (λ id. ⊥) db.payments (insert_txn fresh dto key hash cor db).1.payments
insert_txn-CompletesOnly fresh dto key hash cor db =
    elim (insert_txn_atomic fresh dto key hash cor db) [
      | wrote_nothing same _ ↦
          unchanged-CompletesOnly Nobody db.payments _ (ap (λ d. d.payments) same)
      | wrote n amount new_id no_key done ↦
          appended-CompletesOnly (new_payment fresh dto n) db.payments _
            (unfold new_payment in (λ h. absurd (ground arith))) (unfold new_payment in new_id)
            (ap (λ r. r.1.payments) done)
    ]
