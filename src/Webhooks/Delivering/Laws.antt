-- ===== src/Webhooks/Delivering/Laws.antt =====
-- What apps/api/src/webhooks/webhook.processor.ts makes of a delivery, run after run.
use payments_processor.Common.{
  List, inl, inr, Bool-cases, Option-cases, String, ℕ, ◌+◌, ◌*◌, ◌^◌, ◌≡◌, ◌⊎◌, refl, ◌∙◌, true,
  false, ◌||◌, some, [], ◌∷◌, ◌++◌, ◌==◌, leb, ltb, ==_refl, arith, ◌/◌,
}
use payments_processor.Common.Table.{find-update_where_any}
use payments_processor.Database.{
  WebhookEndpoint, WebhookStatus, pending, delivered, failed, dead, WebhookDelivery, Db,
  find_endpoint, find_delivery,
}
use payments_processor.Worker.Processor.{returned}
use payments_processor.Worker.Backoff.{millisecond, exponential, compute_backoff_ms}
use payments_processor.Webhooks.Delivering.{
  ok, not_ok, WebhookConfig, webhook_status_eq, Reply, Hooks, update_delivery, as_dead, as_failed,
  retry_of, not_delivered, after_request, deliver,
}

-- The processor may still try.
abbrev pub IsOpen : WebhookStatus → Type 0
IsOpen s = (s ≡ pending) ⊎ (s ≡ failed)

abbrev pub IsClosed : WebhookStatus → Type 0
IsClosed s = (s ≡ delivered) ⊎ (s ≡ dead)

pub find-update_delivery :
    (id : ℕ) (f : WebhookDelivery → WebhookDelivery) (d : WebhookDelivery) (db : Db)
    → ((r : WebhookDelivery) → (f r).id ≡ r.id)
    → find_delivery id db.webhook_deliveries ≡ some d
    → find_delivery id (update_delivery d.id f db).webhook_deliveries ≡ some (f d)
unfolding update_delivery
find-update_delivery id f d db keep found =
    find-update_where_any (λ (r : WebhookDelivery). r.id) id (λ r. r.id == d.id) f keep
      db.webhook_deliveries
    ∙ rw found (rw (==_refl d.id) refl)

pub endpoints-update_delivery :
    (id : ℕ) (f : WebhookDelivery → WebhookDelivery) (db : Db)
    → (update_delivery id f db).webhook_endpoints ≡ db.webhook_endpoints
unfolding update_delivery
endpoints-update_delivery id f db = refl

module _ (cfg : WebhookConfig) (now random : ℕ) where
  pub deliver_closed :
      (id : ℕ) (reply : Reply) (d : WebhookDelivery) (w : Hooks)
      → find_delivery id w.db.webhook_deliveries ≡ some d
      → IsClosed d.status
      → deliver cfg now random id reply w ≡ (returned, w)
  unfolding deliver
  deliver_closed id reply d w found closed =
      let done : (webhook_status_eq d.status delivered || webhook_status_eq d.status dead) ≡ true =
        ground arith in
      rw found (rw done refl)

  pub deliver_open :
      (id : ℕ) (reply : Reply) (d : WebhookDelivery) (ep : WebhookEndpoint) (w : Hooks)
      → find_delivery id w.db.webhook_deliveries ≡ some d
      → IsOpen d.status
      → find_endpoint d.endpoint_id w.db.webhook_endpoints ≡ some ep
      → deliver cfg now random id reply w ≡ after_request cfg now random d reply w
  unfolding deliver
  deliver_open id reply d ep w found open_ there =
      let going : (webhook_status_eq d.status delivered || webhook_status_eq d.status dead)
          ≡ false =
        ground arith in
      rw found (rw going (rw there refl))

  pub backoff_value : ℕ → ℕ
  backoff_value n =
      exponential cfg.base_backoff_ms cfg.cap_backoff_ms n * 2 ^ 53
      + random * exponential cfg.base_backoff_ms cfg.cap_backoff_ms n

  pub failed_row : WebhookDelivery → String → WebhookDelivery
  failed_row d why =
      as_failed (d.attempts + 1) (now + backoff_value (d.attempts + 1) / millisecond) why d

  pub not_delivered_again :
      (d : WebhookDelivery) (why : String) (w : Hooks)
      → leb cfg.max_attempts (d.attempts + 1) ≡ false
      → not_delivered cfg now random d why w ≡ (
        returned,
        record w {
          db =
              update_delivery d.id
                (λ r.
                  as_failed
                    (d.attempts + 1)
                    (now + backoff_value (d.attempts + 1) / millisecond)
                    why
                    r)
                w.db;
          added = w.added ++ retry_of d.id (d.attempts + 1) (backoff_value (d.attempts + 1)) ∷ [];
        },
      )
  unfolding compute_backoff_ms backoff_value
  not_delivered_again d why w under =
      let one : ltb (d.attempts + 1) 1 ≡ false = ground arith in rw under (rw one refl)

  pub not_delivered_over :
      (d : WebhookDelivery) (why : String) (w : Hooks)
      → leb cfg.max_attempts (d.attempts + 1) ≡ true
      → not_delivered cfg now random d why w
        ≡ (returned, record w { db = update_delivery d.id (as_dead (d.attempts + 1) why) w.db })
  not_delivered_over d why w over = rw over refl

-- A run for a delivery leaves the other tables alone.
pub after_request-others :
    (cfg : WebhookConfig) (now random : ℕ) (d : WebhookDelivery) (reply : Reply) (w : Hooks)
    → (ds : List WebhookDelivery) × ((after_request cfg now random d reply w).1.db
        ≡ record w.db { webhook_deliveries = ds })
unfolding after_request update_delivery
after_request-others cfg now random d ok w = (_, refl)
after_request-others cfg now random d (not_ok why) w =
    elim (Bool-cases (leb cfg.max_attempts (d.attempts + 1))) [
      | inl over ↦ rw over (_, refl)
      | inr under ↦
          rw under
            (elim (Option-cases
              (compute_backoff_ms cfg.base_backoff_ms cfg.cap_backoff_ms random (d.attempts + 1))) [
                | inl failed_delay ↦ rw failed_delay (w.db.webhook_deliveries, refl)
                | inr (delay, known) ↦ rw known (_, refl)
              ])
    ]
