-- ===== src/Webhooks/Reaper.antt =====
-- apps/api/src/webhooks/webhook-reaper.service.ts.
pub mod Laws
use payments_processor.Common.{
  ℕ, ◌+◌, Bool, ◌&&◌, ◌||◌, not, Option, none, some, List, map, ◌==◌, ltb, filter_by, take,
  if◌then◌else◌,
}
use payments_processor.Database.{pending, failed, WebhookDelivery, Db}
use payments_processor.Jobs.{JobId, WebhookJob}
use payments_processor.Webhooks.Delivering.{webhook_status_eq}

-- COALESCE(nextAttemptAt, createdAt)
abbrev pub due_at : WebhookDelivery → ℕ
due_at d = elim d.next_attempt_at [ none ↦ d.created_at | some at ↦ at ]

-- The status is pending or failed, and the due time lies before now - REAPER_DEADLINE_MS.
abbrev pub is_stuck : (deadline_ms now : ℕ) → WebhookDelivery → Bool
is_stuck deadline_ms now d =
    (webhook_status_eq d.status pending || webhook_status_eq d.status failed)
    && ltb (due_at d + deadline_ms) now

unfoldable pub select_stuck :
    (locked : ℕ → Bool) → (deadline_ms now : ℕ) → Db → List WebhookDelivery
select_stuck locked deadline_ms now db =
    take 100
      (filter_by (λ d. is_stuck deadline_ms now d && not (locked d.id)) db.webhook_deliveries)

abbrev pub reap_job : WebhookDelivery → WebhookJob
reap_job d = record {
  delivery_id = d.id;
  delay = none;
  job_id = if d.attempts == 0 then JobId.plain d.id else JobId.retry d.id d.attempts;
}

-- `reap_once`, which only adds jobs.
unfoldable pub reap_once : (locked : ℕ → Bool) → (deadline_ms now : ℕ) → Db → List WebhookJob
reap_once locked deadline_ms now db = map reap_job (select_stuck locked deadline_ms now db)
