-- ===== src/Webhooks/Dispatcher/Laws.antt =====
-- What a poll of apps/api/src/webhooks/webhooks-dispatcher.service.ts hands out.
use payments_processor.Common.{
  ◌>>=◌, ℕ, ◌≡◌, refl, sym, ap, ◌∙◌, inl, inr, Bool, ◌&&◌, not, Option, none, some, List, [], ◌∷◌,
  ◌++◌, map, filter_by, take, drop, mem, sort_asc, is_empty, if◌then◌else◌, Option-cases, arith,
}
use mathlib.Core.Path.{subst}
use mathlib.Core.List.{append_assoc, append-nil}
use payments_processor.Common.Table.{HasUniqueKeys, update_where}
use payments_processor.Common.Paging.Order.{filter_by-HasUniqueKeys}
use payments_processor.Common.Sorting.{sort_asc-rest}
use payments_processor.Database.{Outbox, WebhookEndpoint, WebhookDelivery, Db}
use payments_processor.Audit.{notices_of}
use payments_processor.Audit.Effects.{Effect, marked}
use payments_processor.Jobs.{WebhookJob}
use payments_processor.Webhooks.Dispatcher.Fanning.{
  FannedOut, Each, IsJobOf, deliveries_of-FannedOut, jobs-Each,
}
use payments_processor.Webhooks.Dispatcher.{
  is_undispatched, select_events, deliveries_of, insert_deliveries, dispatched, mark_dispatched,
  delivery_job, dispatch_txn, dispatch_once,
}

abbrev pub is_due : (ℕ → Bool) → Outbox → Bool
is_due locked o = is_undispatched o && not (locked o.id)

-- The notices that wait for the dispatcher, in the order of time.
pub notices_due : (ℕ → Bool) → Db → List Outbox
notices_due locked db = sort_asc (λ o. o.created_at) (filter_by (is_due locked) db.outbox)

insert_deliveries-eq :
    (ds : List WebhookDelivery) (db db' : Db)
    → insert_deliveries ds db ≡ some db'
    → db' ≡ record db { webhook_deliveries = db.webhook_deliveries ++ ds }
unfolding insert_deliveries
insert_deliveries-eq [] db db' h = rw (append-nil db.webhook_deliveries) (ground arith)
insert_deliveries-eq (d ∷ ds) db db' h =
    let db1 : Db = record db { webhook_deliveries = db.webhook_deliveries ++ d ∷ [] } in
    let later : insert_deliveries ds db1 ≡ some db' = ground arith in
    insert_deliveries-eq ds db1 db' later ∙ rw (append_assoc db.webhook_deliveries (d ∷ []) ds) refl

waiting-dispatched :
    (locked : ℕ → Bool) (ids : List ℕ) (now : ℕ) (os : List Outbox)
    → filter_by (is_due locked) (update_where (λ o. mem ids o.id) (dispatched now) os)
      ≡ filter_by (λ o. not (mem ids o.id)) (filter_by (is_due locked) os)
waiting-dispatched locked ids now [] = refl
waiting-dispatched locked ids now (o ∷ os) = ground (arith, waiting-dispatched locked ids now os)

-- What a poll has done: the first hundred of the queue are marked, with one delivery for each of
-- them and each active endpoint, and one job for each delivery.
pub record IsDispatched (locked : ℕ → Bool) (now : ℕ) (ulid : ℕ → ℕ → ℕ) (db db' : Db)
    (jobs : List WebhookJob) : Type 0 where
  pub created : List WebhookDelivery
  pub one_each :
      FannedOut now ulid
        (filter_by (λ ep. ep.active) db.webhook_endpoints)
        (take 100 (notices_due locked db))
        created
  pub written : db'.webhook_deliveries ≡ db.webhook_deliveries ++ created
  pub rest : notices_due locked db' ≡ drop 100 (notices_due locked db)
  pub enqueued : Each IsJobOf created jobs

abbrev active : Db → List WebhookEndpoint
active db = filter_by (λ ep. ep.active) db.webhook_endpoints

ids_of : List Outbox → List ℕ
ids_of events = map (λ (e : Outbox). e.id) events

update_where-none_chosen :
    (now : ℕ) (os : List Outbox) → update_where (λ o. mem [] o.id) (dispatched now) os ≡ os
update_where-none_chosen now [] = refl
update_where-none_chosen now (o ∷ os) = ap (λ l. o ∷ l) (update_where-none_chosen now os)

-- A transaction for the given notices.
record IsWritten (now : ℕ) (ulid : ℕ → ℕ → ℕ) (events : List Outbox) (db db' : Db)
    (rows : List WebhookDelivery) : Type 0 where
  one_each : rows ≡ deliveries_of now ulid (active db) events
  written : db'.webhook_deliveries ≡ db.webhook_deliveries ++ rows
  payments : db'.payments ≡ db.payments
  payment_events : db'.payment_events ≡ db.payment_events
  marked : db'.outbox ≡ update_where (λ o. mem (ids_of events) o.id) (dispatched now) db.outbox

pair_eq :
    (a b : Db) (m n : List WebhookDelivery)
    → ◌≡◌ {A = Option (Db × List WebhookDelivery)} (some (a, m)) (some (b, n))
    → (b ≡ a) × (n ≡ m)
pair_eq a b m n e = (cc, cc)

job_pair_eq :
    (a b : Db) (m n : List WebhookJob)
    → ◌≡◌ {A = Option (Db × List WebhookJob)} (some (a, m)) (some (b, n))
    → (b ≡ a) × (n ≡ m)
job_pair_eq a b m n e = (cc, cc)

txn-IsWritten :
    (now : ℕ) (ulid : ℕ → ℕ → ℕ) (events : List Outbox) (db db' : Db) (rows : List WebhookDelivery)
    → ◌≡◌ {A = Option (Db × List WebhookDelivery)}
        (if is_empty events
          then some (db, [])
          else insert_deliveries (deliveries_of now ulid (active db) events) db >>= λ d.
              some (mark_dispatched now events d, deliveries_of now ulid (active db) events))
        (some (db', rows))
    → IsWritten now ulid events db db' rows
unfolding ids_of mark_dispatched
txn-IsWritten now ulid [] db db' rows h =
    let (same, no_rows) = pair_eq db db' [] rows h in
    record {
      one_each = no_rows;
      written = ap (λ d. d.webhook_deliveries) same ∙ sym (append-nil _) ∙ rw no_rows refl;
      payments = ap (λ d. d.payments) same;
      payment_events = ap (λ d. d.payment_events) same;
      marked = ap (λ d. d.outbox) same ∙ sym (update_where-none_chosen now db.outbox);
    }
txn-IsWritten now ulid (e ∷ es) db db' rows h =
    let made : List WebhookDelivery = deliveries_of now ulid (active db) (e ∷ es) in
    elim (Option-cases (insert_deliveries made db)) [
      | inl refused ↦
          let no_row : ◌≡◌ {A = Option (Db × List WebhookDelivery)} none (some (db', rows)) =
            rw refused at h in
          cc
      | inr (db1, done) ↦
          let both : ◌≡◌ {A = Option (Db × List WebhookDelivery)}
              (some (mark_dispatched now (e ∷ es) db1, made)) (some (db', rows)) =
            rw done at h in
          let (same, exact) = pair_eq (mark_dispatched now (e ∷ es) db1) db' made rows both in
          let inserted = insert_deliveries-eq made db db1 done in
          record {
            one_each = exact;
            written =
                ap (λ d. d.webhook_deliveries) same
                ∙ ap (λ d. d.webhook_deliveries) inserted
                ∙ ap (λ l. db.webhook_deliveries ++ l) (sym exact);
            payments = ap (λ d. d.payments) same ∙ ap (λ d. d.payments) inserted;
            payment_events = ap (λ d. d.payment_events) same ∙ ap (λ d. d.payment_events) inserted;
            marked =
                ap (λ d. d.outbox) same
                ∙ ap (λ d. (mark_dispatched now (e ∷ es) d).outbox) inserted;
          }
    ]

notices_of-dispatched :
    (p : Outbox → Bool) (now id : ℕ) (os : List Outbox)
    → notices_of id (update_where p (dispatched now) os) ≡ notices_of id os
notices_of-dispatched p now id [] = refl
notices_of-dispatched p now id (o ∷ os) = ground (arith, notices_of-dispatched p now id os)

pub dispatch_txn-payments :
    (locked : ℕ → Bool) (now : ℕ) (ulid : ℕ → ℕ → ℕ) (db db' : Db) (rows : List WebhookDelivery)
    → dispatch_txn locked now ulid db ≡ some (db', rows)
    → db'.payments ≡ db.payments
unfolding dispatch_txn
dispatch_txn-payments locked now ulid db db' rows h =
    (txn-IsWritten now ulid (select_events locked db) db db' rows h).payments

pub dispatch_txn-Effect :
    (locked : ℕ → Bool) (now : ℕ) (ulid : ℕ → ℕ → ℕ) (db db' : Db) (rows : List WebhookDelivery)
    → dispatch_txn locked now ulid db ≡ some (db', rows)
    → Effect db db'
unfolding dispatch_txn
dispatch_txn-Effect locked now ulid db db' rows h =
    let w = txn-IsWritten now ulid (select_events locked db) db db' rows h in
    marked w.payments w.payment_events
      (λ id. ap (notices_of id) w.marked ∙ notices_of-dispatched _ now id db.outbox)

-- Where no two outbox rows share an id, a poll that commits marks the first hundred of the
-- notices that are due, in the order of time, and creates exactly one delivery for each of them
-- and each active endpoint; it adds one job for each delivery under the delivery's id, and what
-- stays due is the rest.
pub dispatch_once-IsDispatched :
    (locked : ℕ → Bool) (now : ℕ) (ulid : ℕ → ℕ → ℕ) (db db' : Db) (jobs : List WebhookJob)
    → HasUniqueKeys (λ (o : Outbox). o.id) db.outbox
    → dispatch_once locked now ulid db ≡ some (db', jobs)
    → IsDispatched locked now ulid db db' jobs
unfolding dispatch_once dispatch_txn select_events notices_due ids_of
dispatch_once-IsDispatched locked now ulid db db' jobs unique h =
    elim (Option-cases (dispatch_txn locked now ulid db)) [
      | inl refused ↦
          let no_row : ◌≡◌ {A = Option (Db × List WebhookJob)} none (some (db', jobs)) =
            rw refused at h in
          cc
      | inr ((db1, rows), done) ↦
          let both : ◌≡◌ {A = Option (Db × List WebhookJob)} (some (db1, map delivery_job rows))
              (some (db', jobs)) =
            rw done at h in
          let (same, exact) = job_pair_eq db1 db' (map delivery_job rows) jobs both in
          let w = txn-IsWritten now ulid (select_events locked db) db db1 rows done in
          let due : List Outbox = filter_by (is_due locked) db.outbox in
          record {
            created = rows;
            one_each =
                subst (FannedOut now ulid (active db) (select_events locked db)) (sym w.one_each)
                  (deliveries_of-FannedOut now ulid (active db) (select_events locked db));
            written = ap (λ d. d.webhook_deliveries) same ∙ w.written;
            rest =
                ap (λ os. sort_asc (λ o. o.created_at) (filter_by (is_due locked) os))
                  (ap (λ d. d.outbox) same ∙ w.marked)
                ∙ ap (sort_asc (λ o. o.created_at))
                    (waiting-dispatched locked (ids_of (select_events locked db)) now db.outbox)
                ∙ sort_asc-rest (λ o. o.created_at) (λ o. o.id) 100 due
                    (filter_by-HasUniqueKeys (λ o. o.id) (is_due locked) db.outbox unique);
            enqueued = subst (Each IsJobOf rows) (sym exact) (jobs-Each rows);
          }
    ]
