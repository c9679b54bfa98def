-- ===== src/Webhooks/Tests.antt =====
-- The laws of apps/api/src/webhooks at concrete inputs.
use payments_processor.Webhooks.Dispatcher.{
  select_events, insert_deliveries, mark_dispatched, delivery_job, dispatch_txn, dispatch_once,
}
use payments_processor.Webhooks.Dispatcher.Laws.{IsDispatched, dispatch_once-IsDispatched}
use payments_processor.Database.{Outbox, WebhookStatus}
use payments_processor.Common.{
  ◌*◌, sort_asc, insert_asc, ℕ, ◌+◌, ◌≤◌, ◌<◌, ◌≡◌, refl, inr, Bool, true, false, none, some, List,
  [], ◌∷◌, ◌&&◌, ◌==◌, not, filter_by, length, mem, map, ◌↔◌, arith,
}
use payments_processor.Common.Table.{HasUniqueKeys}
use payments_processor.Common.Paging.{sort_desc}
use payments_processor.Database.{
  WebhookEndpoint, WebhookDelivery, failed, payment_completed, JobData, settlement, Db,
}
use payments_processor.Shared.Status.{completed}
use payments_processor.Webhooks.Delivering.{WebhookConfig, ok, not_ok, Hooks, deliver}
use payments_processor.Webhooks.Delivering.Laws.{IsOpen}
use payments_processor.Webhooks.Delivering.Runs.{
  Run, run, deliver_all, IsAfter, deliver_all-IsAfter,
}
use payments_processor.Webhooks.Reaper.{select_stuck, reap_once}
use payments_processor.Webhooks.Reaper.Laws.{IsRebuilt, reap_job-deliver, IsStranded, reap_once_iff}
use payments_processor.Webhooks.Endpoints.{delete, list_endpoints, has_webhook_status}
use payments_processor.Webhooks.Endpoints.Laws.{
  list_endpoints-delete, collect_deliveries, collect_deliveries-all,
}

abbrev config : WebhookConfig
config = record { max_attempts = 3; base_backoff_ms = 1000; cap_backoff_ms = 30_000 }

abbrev receiver : WebhookEndpoint
receiver = record {
  id = 4;
  url = "http://localhost/hook";
  secret = "s";
  active = true;
  created_at = 10;
  description = none;
}

abbrev job_data : JobData
job_data = record { payment_id = 1; amount_cents = 1050; currency = "USD"; correlation_id = none }

abbrev retrying_delivery : WebhookDelivery
retrying_delivery = record {
  id = 6;
  endpoint_id = 4;
  event_id = 12;
  event_type = payment_completed;
  payload = settlement job_data completed;
  status = failed;
  attempts = 1;
  next_attempt_at = some 5000;
  last_error = some "HTTP 500";
  created_at = 4000;
  delivered_at = none;
}

abbrev hooks_db : Db
hooks_db = record {
  payments = [];
  payment_events = [];
  idempotency_keys = [];
  outbox = [];
  webhook_endpoints = receiver ∷ [];
  webhook_deliveries = retrying_delivery ∷ [];
  bank_config = [];
}

abbrev before_runs : Hooks
before_runs = record { db = hooks_db; added = [] }

abbrev two_runs : List Run
two_runs = run (not_ok "HTTP 503") 6000 7 ∷ run ok 9000 8 ∷ []

attempts_left : 1 < 3
attempts_left = omega arith

failed-IsOpen : IsOpen failed
failed-IsOpen = inr refl

deliver_all-IsAfter_example :
    IsAfter config 6 two_runs 1 failed before_runs (deliver_all config 6 two_runs before_runs)
deliver_all-IsAfter_example =
    deliver_all-IsAfter config 6 two_runs retrying_delivery receiver before_runs refl attempts_left
      refl failed-IsOpen refl

another_left : 1 + 1 < 3
another_left = omega arith

reap_job-deliver_example :
    IsRebuilt 6 before_runs (deliver config 6000 7 6 (not_ok "HTTP 503") before_runs).1
reap_job-deliver_example =
    reap_job-deliver config 6000 7 6 "HTTP 503" retrying_delivery receiver before_runs another_left
      refl failed-IsOpen refl

abbrev unlocked : ℕ → Bool
unlocked _ = false

deliveries_unique : HasUniqueKeys (λ (d : WebhookDelivery). d.id) hooks_db.webhook_deliveries
deliveries_unique = (refl, tt)

few_jobs : length (reap_once unlocked 60_000 100_000 hooks_db) < 100
unfolding reap_once
few_jobs = unfold select_stuck in omega arith

reap_once_iff_example :
    (mem (map (λ j. j.delivery_id) (reap_once unlocked 60_000 100_000 hooks_db)) 6 ≡ true)
    ↔ IsStranded 60_000 100_000 retrying_delivery
reap_once_iff_example =
    reap_once_iff unlocked 60_000 100_000 hooks_db retrying_delivery deliveries_unique few_jobs refl
      refl

list_endpoints-delete_example :
    list_endpoints (delete 4 hooks_db).1
    ≡ filter_by (λ v. not (v.id == 4)) (list_endpoints hooks_db)
list_endpoints-delete_example = list_endpoints-delete 4 hooks_db

page_size : 1 ≤ 20
page_size = omega arith

collect_deliveries-all_example :
    collect_deliveries 2 20 (some failed) none hooks_db
    ≡ sort_desc
        (λ d. d.id)
        (filter_by (λ d. has_webhook_status (some failed) d && true) hooks_db.webhook_deliveries)
collect_deliveries-all_example =
    collect_deliveries-all 20 (some failed) hooks_db deliveries_unique page_size

abbrev settled_notice : Outbox
settled_notice = record {
  id = 12;
  aggregate_type = "payment";
  aggregate_id = 1;
  event_type = payment_completed;
  payload = settlement job_data completed;
  published_at = none;
  webhook_dispatched_at = none;
  created_at = 3000;
}

abbrev notices_db : Db
notices_db = record hooks_db { outbox = settled_notice ∷ []; webhook_deliveries = [] }

abbrev pair_ulid : ℕ → ℕ → ℕ
pair_ulid event endpoint = event * 1000 + endpoint

abbrev new_delivery : WebhookDelivery
new_delivery = record {
  id = 12_004;
  endpoint_id = 4;
  event_id = 12;
  event_type = payment_completed;
  payload = settlement job_data completed;
  status = WebhookStatus.pending;
  attempts = 0;
  next_attempt_at = none;
  last_error = none;
  created_at = 3500;
  delivered_at = none;
}

abbrev dispatched_db : Db
dispatched_db = record notices_db {
  outbox = (record settled_notice { webhook_dispatched_at = some 3500 }) ∷ [];
  webhook_deliveries = new_delivery ∷ [];
}

notices_unique : HasUniqueKeys (λ (o : Outbox). o.id) notices_db.outbox
notices_unique = (refl, tt)

dispatch_works :
    dispatch_once unlocked 3500 pair_ulid notices_db
    ≡ some (dispatched_db, delivery_job new_delivery ∷ [])
unfolding dispatch_once dispatch_txn select_events insert_deliveries mark_dispatched sort_asc
    insert_asc
dispatch_works = refl

dispatch_once-IsDispatched_example :
    IsDispatched unlocked 3500 pair_ulid notices_db dispatched_db (delivery_job new_delivery ∷ [])
dispatch_once-IsDispatched_example =
    dispatch_once-IsDispatched unlocked 3500 pair_ulid notices_db dispatched_db
      (delivery_job new_delivery ∷ []) notices_unique dispatch_works
