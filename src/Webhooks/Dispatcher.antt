-- ===== src/Webhooks/Dispatcher.antt =====
-- apps/api/src/webhooks/webhooks-dispatcher.service.ts.
pub mod Fanning
pub mod Laws
use payments_processor.Common.{
  ◌>>=◌, ℕ, Bool, true, false, ◌&&◌, ◌||◌, not, Option, none, some, List, [], ◌∷◌, ◌++◌, map, ◌==◌,
  is_none, is_some, filter_by, take, mem, sort_asc, is_empty, if◌then◌else◌,
}
use payments_processor.Common.Table.{update_where}
use payments_processor.Database.{
  payment_completed, payment_failed, event_type_eq, Outbox, WebhookEndpoint, pending,
  WebhookDelivery, Db, find_endpoint, find_delivery,
}
use payments_processor.Jobs.{JobId, WebhookJob}

-- isNull(webhookDispatchedAt) and inArray(eventType, …)
abbrev pub is_undispatched : Outbox → Bool
is_undispatched o =
    is_none o.webhook_dispatched_at
    && (event_type_eq o.event_type payment_completed || event_type_eq o.event_type payment_failed)

unfoldable pub select_events : (locked : ℕ → Bool) → Db → List Outbox
select_events locked db = take 100 (
    sort_asc (λ o. o.created_at)
      (filter_by (λ o. is_undispatched o && not (locked o.id)) db.outbox))

-- The row that is inserted, with the defaults of its table.
abbrev pub delivery_of : (now id : ℕ) → Outbox → WebhookEndpoint → WebhookDelivery
delivery_of now id e ep = record {
  id = id;
  endpoint_id = ep.id;
  event_id = e.id;
  event_type = e.event_type;
  payload = e.payload;
  status = pending;
  attempts = 0;
  next_attempt_at = none;
  last_error = none;
  created_at = now;
  delivered_at = none;
}

-- events.flatMap(e => endpoints.map(ep => …)); `ulid()` gives each pair an id of its own.
abbrev pub deliveries_of :
    (now : ℕ) → (ulid : ℕ → ℕ → ℕ) → List WebhookEndpoint → List Outbox → List WebhookDelivery
deliveries_of now ulid eps [] = []
deliveries_of now ulid eps (e ∷ es) =
    map (λ ep. delivery_of now (ulid e.id ep.id) e ep) eps ++ deliveries_of now ulid eps es

-- Whether the pair of the unique constraint is there.
abbrev pub has_delivery : (event_id endpoint_id : ℕ) → List WebhookDelivery → Bool
has_delivery event_id endpoint_id [] = false
has_delivery event_id endpoint_id (d ∷ ds) =
    (d.event_id == event_id && d.endpoint_id == endpoint_id) || has_delivery event_id endpoint_id ds

-- INSERT INTO webhook_deliveries of several rows, with the constraints of the table.
unfoldable pub insert_deliveries : List WebhookDelivery → Db → Option Db
insert_deliveries [] db = some db
insert_deliveries (d ∷ ds) db =
    let db' = record db { webhook_deliveries = db.webhook_deliveries ++ d ∷ [] } in
    let rest = insert_deliveries ds db' in
    if is_none (find_delivery d.id db.webhook_deliveries)
      && not (has_delivery d.event_id d.endpoint_id db.webhook_deliveries)
      && is_some (find_endpoint d.endpoint_id db.webhook_endpoints)
    then rest
    else none

abbrev pub dispatched : ℕ → Outbox → Outbox
dispatched now o = record o { webhook_dispatched_at = some now }

unfoldable pub mark_dispatched : ℕ → List Outbox → Db → Db
mark_dispatched now events db = record db {
  outbox =
      update_where (λ o. mem (map (λ (e : Outbox). e.id) events) o.id) (dispatched now) db.outbox;
}

-- this.queue.add('webhook.deliver', { deliveryId: d.id }, { jobId: d.id })
abbrev pub delivery_job : WebhookDelivery → WebhookJob
delivery_job d = record { delivery_id = d.id; delay = none; job_id = JobId.plain d.id }

-- The transaction, with the rows that it returns; `none` is an error of the database.
unfoldable pub dispatch_txn :
    (locked : ℕ → Bool) (now : ℕ) (ulid : ℕ → ℕ → ℕ) → Db → Option (Db × List WebhookDelivery)
dispatch_txn locked now ulid db =
    let events = select_events locked db in
    let rows = deliveries_of now ulid (filter_by (λ ep. ep.active) db.webhook_endpoints) events in
    if is_empty events
    then some (db, [])
    else insert_deliveries rows db >>= λ db'. some (mark_dispatched now events db', rows)

-- `poll_once`, with the jobs that follow the commit.
unfoldable pub dispatch_once :
    (locked : ℕ → Bool) (now : ℕ) (ulid : ℕ → ℕ → ℕ) → Db → Option (Db × List WebhookJob)
dispatch_once locked now ulid db =
    dispatch_txn locked now ulid db >>= λ r. some (r.0, map delivery_job r.1)
