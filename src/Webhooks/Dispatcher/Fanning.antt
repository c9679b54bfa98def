-- ===== src/Webhooks/Dispatcher/Fanning.antt =====
-- What apps/api/src/webhooks/webhooks-dispatcher.service.ts is to hand out for a list of notices.
use payments_processor.Common.{ℕ, ◌≡◌, refl, none, List, [], ◌∷◌, ◌++◌, map}
use payments_processor.Database.{Outbox, WebhookEndpoint, pending, WebhookDelivery}
use payments_processor.Jobs.{JobId, WebhookJob}
use payments_processor.Webhooks.Dispatcher.{delivery_of, deliveries_of, delivery_job}

-- The delivery of a notice to an endpoint, new and not yet tried.
pub record IsDeliveryOf (now : ℕ) (ulid : ℕ → ℕ → ℕ) (e : Outbox) (ep : WebhookEndpoint)
    (d : WebhookDelivery) : Type 0 where
  pub id_is : d.id ≡ ulid e.id ep.id
  pub event : d.event_id ≡ e.id
  pub endpoint : d.endpoint_id ≡ ep.id
  pub event_type_is : d.event_type ≡ e.event_type
  pub payload_is : d.payload ≡ e.payload
  pub is_pending : d.status ≡ pending
  pub untried : d.attempts ≡ 0
  pub unscheduled : d.next_attempt_at ≡ none
  pub created : d.created_at ≡ now

-- The job that drives a delivery at once, under the delivery's id.
pub record IsJobOf (d : WebhookDelivery) (j : WebhookJob) : Type 0 where
  pub delivery : j.delivery_id ≡ d.id
  pub at_once : j.delay ≡ none
  pub under : j.job_id ≡ JobId.plain d.id

-- Each element of the first list has its counterpart in the second, in the same order.
pub data Each {A B : Type 0} (R : A → B → Type 0) : List A → List B → Type 0 where
  no_more : Each R [] []
  one :
      {a : A} {b : B} {xs : List A} {ys : List B} → R a b → Each R xs ys → Each R (a ∷ xs) (b ∷ ys)

-- One delivery for each notice and each endpoint.
pub data FannedOut (now : ℕ) (ulid : ℕ → ℕ → ℕ) (eps : List WebhookEndpoint)
    : List Outbox → List WebhookDelivery → Type 0 where
  no_notice : FannedOut now ulid eps [] []
  each_notice :
      {e : Outbox} {es : List Outbox} {ds rest : List WebhookDelivery}
      → Each (IsDeliveryOf now ulid e) eps ds
      → FannedOut now ulid eps es rest
      → FannedOut now ulid eps (e ∷ es) (ds ++ rest)

deliveries-Each :
    (now : ℕ) (ulid : ℕ → ℕ → ℕ) (e : Outbox) (eps : List WebhookEndpoint)
    → Each (IsDeliveryOf now ulid e) eps (map (λ ep. delivery_of now (ulid e.id ep.id) e ep) eps)
deliveries-Each now ulid e [] = no_more
deliveries-Each now ulid e (ep ∷ eps) =
    one
      (record {
        id_is = refl;
        event = refl;
        endpoint = refl;
        event_type_is = refl;
        payload_is = refl;
        is_pending = refl;
        untried = refl;
        unscheduled = refl;
        created = refl;
      })
      (deliveries-Each now ulid e eps)

pub deliveries_of-FannedOut :
    (now : ℕ) (ulid : ℕ → ℕ → ℕ) (eps : List WebhookEndpoint) (es : List Outbox)
    → FannedOut now ulid eps es (deliveries_of now ulid eps es)
deliveries_of-FannedOut now ulid eps [] = no_notice
deliveries_of-FannedOut now ulid eps (e ∷ es) =
    each_notice (deliveries-Each now ulid e eps) (deliveries_of-FannedOut now ulid eps es)

pub jobs-Each : (ds : List WebhookDelivery) → Each IsJobOf ds (map delivery_job ds)
jobs-Each [] = no_more
jobs-Each (d ∷ ds) = one (record { delivery = refl; at_once = refl; under = refl }) (jobs-Each ds)
