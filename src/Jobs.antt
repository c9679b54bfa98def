-- ===== src/Jobs.antt =====
-- The jobs that the services add to the two BullMQ queues: apps/api/src/worker/payment.processor.ts,
-- apps/api/src/relay and apps/api/src/webhooks. The queues themselves are not part of the
-- repository: an operation returns the calls of `queue.add` that it makes.
use payments_processor.Common.{ℕ, Option}
use payments_processor.Database.{JobData}

-- `<id>`, `<id>:retry:<n>` and `<id>:reap:<ms>`.
pub data JobId : Type 0 where
  plain : ℕ → JobId
  retry : ℕ → ℕ → JobId
  reap : ℕ → ℕ → JobId

pub data JobName : Type 0 where
  payment_submitted payment_retry payment_reap : JobName

-- A call of `add` on the queue of payments. The delay is in units of 2 ^ -54 ms.
pub record PaymentJob : Type 0 where
  pub name : JobName
  pub data_of : JobData
  pub delay : Option ℕ
  pub job_id : JobId

-- A call of `add` on the queue of webhooks, whose jobs are all named `webhook.deliver`.
pub record WebhookJob : Type 0 where
  pub delivery_id : ℕ
  pub delay : Option ℕ
  pub job_id : JobId
