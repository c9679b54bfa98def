-- ===== src/Webhooks/Delivering.antt =====
-- apps/api/src/webhooks/webhook.processor.ts. The request over HTTP, with its signature, is
-- represented by how it ends.
pub mod Laws
pub mod Runs
use payments_processor.Common.{
  ℕ, ◌+◌, ◌/◌, Bool, true, false, ◌||◌, Option, none, some, List, [], ◌∷◌, ◌++◌, String, ◌==◌, leb,
  if◌then◌else◌,
}
use payments_processor.Common.Table.{update_where}
use payments_processor.Database.{
  WebhookEndpoint, WebhookStatus, pending, delivered, failed, dead, WebhookDelivery, Db,
  find_endpoint, find_delivery,
}
use payments_processor.Jobs.{JobId, WebhookJob}
use payments_processor.Worker.Processor.{Ended, returned, threw}
use payments_processor.Worker.Backoff.{millisecond, compute_backoff_ms}

-- The values of apps/api/src/config.ts that the processor reads.
pub record WebhookConfig : Type 0 where
  pub max_attempts : ℕ
  pub base_backoff_ms : ℕ
  pub cap_backoff_ms : ℕ

-- `===` on the status of a delivery.
abbrev pub webhook_status_eq : WebhookStatus → WebhookStatus → Bool
webhook_status_eq pending pending = true
webhook_status_eq delivered delivered = true
webhook_status_eq failed failed = true
webhook_status_eq dead dead = true
webhook_status_eq _ _ = false

-- How `fetch` ends: `res.ok`, or the text of `lastError`.
pub data Reply : Type 0 where
  ok : Reply
  not_ok : (last_error : String) → Reply

-- The database and the calls of `queue.add` made so far.
pub record Hooks : Type 0 where
  pub db : Db
  pub added : List WebhookJob

-- UPDATE webhook_deliveries SET f WHERE id
unfoldable pub update_delivery : ℕ → (WebhookDelivery → WebhookDelivery) → Db → Db
update_delivery id f db = record db {
  webhook_deliveries = update_where (λ d. d.id == id) f db.webhook_deliveries;
}

abbrev pub as_delivered : (now : ℕ) → WebhookDelivery → WebhookDelivery
as_delivered now d = record d {
  status = delivered;
  delivered_at = some now;
  attempts = d.attempts + 1;
}

abbrev pub as_dead : (attempts : ℕ) → String → WebhookDelivery → WebhookDelivery
as_dead attempts last_error d = record d {
  status = dead;
  attempts = attempts;
  last_error = some last_error;
}

abbrev pub as_failed : (attempts next_attempt_at : ℕ) → String → WebhookDelivery → WebhookDelivery
as_failed attempts next_attempt_at last_error d = record d {
  status = failed;
  next_attempt_at = some next_attempt_at;
  attempts = attempts;
  last_error = some last_error;
}

abbrev pub retry_of : (delivery_id attempts delay : ℕ) → WebhookJob
retry_of delivery_id attempts delay = record {
  delivery_id = delivery_id;
  delay = some delay;
  job_id = JobId.retry delivery_id attempts;
}

module _ (cfg : WebhookConfig) (now random : ℕ) where
  -- Behind a failed request, with the delivery as it was read before.
  abbrev pub not_delivered : WebhookDelivery → String → Hooks → Ended × Hooks
  not_delivered delivery last_error w =
      let attempts = delivery.attempts + 1 in
      if leb cfg.max_attempts attempts
      then (
        returned,
        record w { db = update_delivery delivery.id (as_dead attempts last_error) w.db },
      )
      else (elim (compute_backoff_ms cfg.base_backoff_ms cfg.cap_backoff_ms random attempts) [
        | none ↦ (threw, w)
        | some delay ↦ (
          returned,
          record w {
            db =
                update_delivery delivery.id
                  (as_failed attempts (now + delay / millisecond) last_error) w.db;
            added = w.added ++ retry_of delivery.id attempts delay ∷ [];
          },
        )
      ])

  -- What follows the request.
  unfoldable pub after_request : WebhookDelivery → Reply → Hooks → Ended × Hooks
  after_request delivery ok w =
      (returned, record w { db = update_delivery delivery.id (as_delivered now) w.db })
  after_request delivery (not_ok last_error) w = not_delivered delivery last_error w

  abbrev pub attempt_delivery :
      WebhookDelivery → Option WebhookEndpoint → Reply → Hooks → Ended × Hooks
  attempt_delivery delivery none reply w = (threw, w)
  attempt_delivery delivery (some endpoint) reply w = after_request delivery reply w

  abbrev pub with_delivery : Option WebhookDelivery → Reply → Hooks → Ended × Hooks
  with_delivery none reply w = (returned, w)
  with_delivery (some delivery) reply w =
      if webhook_status_eq delivery.status delivered || webhook_status_eq delivery.status dead
      then (returned, w)
      else attempt_delivery delivery (find_endpoint delivery.endpoint_id w.db.webhook_endpoints)
          reply w

  -- `process`, for the id in its job, where nobody writes the delivery meanwhile.
  unfoldable pub deliver : (delivery_id : ℕ) → Reply → Hooks → Ended × Hooks
  deliver delivery_id reply w =
      with_delivery (find_delivery delivery_id w.db.webhook_deliveries) reply w
