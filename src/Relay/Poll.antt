-- ===== src/Relay/Poll.antt =====
-- apps/api/src/relay/relay.service.ts.
pub mod Laws
use payments_processor.Common.{
  ℕ, Bool, true, false, ◌&&◌, not, Option, none, some, List, [], ◌∷◌, map, if◌then◌else◌, is_none,
  filter_by, take, mem, sort_asc, is_empty,
}
use payments_processor.Common.Table.{update_where}
use payments_processor.Database.{
  EventType, payment_submitted, event_type_eq, payload_data, Outbox, Db,
}
use payments_processor.Database
use payments_processor.Jobs.{JobId, JobName, PaymentJob}

-- isNull(publishedAt) and eq(eventType, 'payment.submitted')
abbrev pub is_unpublished : Outbox → Bool
is_unpublished o = is_none o.published_at && event_type_eq o.event_type payment_submitted

-- The rows that are locked by another relay, by their ids, are skipped.
unfoldable pub select_rows : (locked : ℕ → Bool) → Db → List Outbox
select_rows locked db = take 100 (
    sort_asc (λ o. o.created_at) (filter_by (λ o. is_unpublished o && not (locked o.id)) db.outbox))

-- row.eventType as the name of the job.
abbrev pub job_name : EventType → JobName
job_name _ = JobName.payment_submitted

-- this.queue.add(row.eventType, row.payload, { jobId: row.id })
abbrev pub published_job : Outbox → PaymentJob
published_job row = record {
  name = job_name row.event_type;
  data_of = payload_data row.payload;
  delay = none;
  job_id = JobId.plain row.id;
}

abbrev pub published : ℕ → Outbox → Outbox
published now o = record o { published_at = some now }

abbrev mark_published : ℕ → List ℕ → Db → Db
mark_published now ids db = record db {
  outbox = update_where (λ o. mem ids o.id) (published now) db.outbox;
}

-- `poll_once` where the queue takes every job and the transaction commits: the database and the
-- calls of `queue.add`. Where the queue fails, the transaction is rolled back.
unfoldable pub poll_once : (locked : ℕ → Bool) → (now : ℕ) → Db → Db × List PaymentJob
poll_once locked now db =
    let rows = select_rows locked db in
    let published_ids = map (λ (o : Outbox). o.id) rows in
    if is_empty published_ids
    then (db, map published_job rows)
    else (mark_published now published_ids db, map published_job rows)
