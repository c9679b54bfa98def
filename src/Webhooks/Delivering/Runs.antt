-- ===== src/Webhooks/Delivering/Runs.antt =====
-- Any number of runs of apps/api/src/webhooks/webhook.processor.ts for one delivery.
use payments_processor.Common.{
  String, ℕ, zero, suc, ◌+◌, ◌-◌, ◌<◌, min, ◌≡◌, refl, sym, ap, ◌∙◌, inl, inr, Bool, true, false,
  some, List, [], ◌∷◌, ◌++◌, map, ◌==◌, leb, if◌then◌else◌, Bool-cases, arith, ◌/◌,
}
use mathlib.Core.List.{append_assoc, append-nil, map-append}
use payments_processor.Database.{
  WebhookEndpoint, WebhookStatus, delivered, failed, dead, WebhookDelivery, Db, find_endpoint,
  find_delivery,
}
use payments_processor.Jobs.{JobId}
use payments_processor.Worker.Backoff.{millisecond}
use payments_processor.Webhooks.Delivering.{
  WebhookConfig, Reply, ok, not_ok, Hooks, update_delivery, as_delivered, as_dead, as_failed,
  retry_of, after_request, deliver,
}
use payments_processor.Webhooks.Delivering.Laws.{
  IsOpen, IsClosed, deliver_closed, deliver_open, not_delivered_again, not_delivered_over,
  find-update_delivery, endpoints-update_delivery, backoff_value,
}

-- What a run takes from outside: how the request ends, the time, and a random number.
pub data Run : Type 0 where
  run : (reply : Reply) (now random : ℕ) → Run

pub deliver_all : WebhookConfig → (delivery_id : ℕ) → List Run → Hooks → Hooks
deliver_all cfg id [] w = w
deliver_all cfg id (run reply now random ∷ rs) w =
    deliver_all cfg id rs (deliver cfg now random id reply w).1

-- The failures before the first request that the endpoint accepts.
abbrev pub failures : List Run → ℕ
failures [] = 0
failures (run ok now random ∷ rs) = 0
failures (run (not_ok why) now random ∷ rs) = suc (failures rs)

abbrev pub is_accepted : List Run → Bool
is_accepted [] = false
is_accepted (run ok now random ∷ rs) = true
is_accepted (run (not_ok why) now random ∷ rs) = is_accepted rs

-- Where runs leave a delivery of status `s` that was tried `n` times.
abbrev pub status_after : (max n : ℕ) → WebhookStatus → List Run → WebhookStatus
status_after max n s rs =
    if leb max (n + failures rs)
    then dead
    else (if is_accepted rs then delivered else (if failures rs == 0 then s else failed))

abbrev pub attempts_after : (max n : ℕ) → List Run → ℕ
attempts_after max n rs =
    if leb max (n + failures rs)
    then max
    else (if is_accepted rs then n + failures rs + 1 else n + failures rs)

-- The jobs for the retries number n + 1 to n + k.
abbrev pub retry_ids : (delivery_id n k : ℕ) → List JobId
retry_ids id n zero = []
retry_ids id n (suc k) = JobId.retry id (n + 1) ∷ retry_ids id (n + 1) k

module _ (cfg : WebhookConfig) (id : ℕ) where
  pub record IsAfter (rs : List Run) (n : ℕ) (s : WebhookStatus) (w w' : Hooks) : Type 0 where
    pub row : WebhookDelivery
    pub found : find_delivery id w'.db.webhook_deliveries ≡ some row
    pub status : row.status ≡ status_after cfg.max_attempts n s rs
    pub attempts : row.attempts ≡ attempts_after cfg.max_attempts n rs
    pub added :
        map (λ j. j.job_id) w'.added
        ≡ map (λ j. j.job_id) w.added
          ++ retry_ids id n (min (failures rs) (cfg.max_attempts - n - 1))

  deliver_all_closed :
      (rs : List Run) (d : WebhookDelivery) (w : Hooks)
      → find_delivery id w.db.webhook_deliveries ≡ some d
      → IsClosed d.status
      → deliver_all cfg id rs w ≡ w
  unfolding deliver_all
  deliver_all_closed [] d w found closed = refl
  deliver_all_closed (run reply now random ∷ rs) d w found closed =
      rw (deliver_closed cfg now random id reply d w found closed)
        (deliver_all_closed rs d w found closed)

  accepted :
      (rs : List Run) (now random : ℕ) (d : WebhookDelivery) (ep : WebhookEndpoint) (w : Hooks)
      → d.id ≡ id
      → d.attempts < cfg.max_attempts
      → find_delivery id w.db.webhook_deliveries ≡ some d
      → IsOpen d.status
      → find_endpoint d.endpoint_id w.db.webhook_endpoints ≡ some ep
      → IsAfter
          (run ok now random ∷ rs)
          d.attempts
          d.status
          w
          (deliver_all cfg id (run ok now random ∷ rs) w)
  unfolding deliver_all after_request
  accepted rs now random d ep w same left found open_ there =
      let db' : Db = update_delivery d.id (as_delivered now) w.db in
      let w' : Hooks = record w { db = db' } in
      let found' : find_delivery id db'.webhook_deliveries ≡ some (as_delivered now d) =
        find-update_delivery id (as_delivered now) d w.db (λ r. refl) found in
      let under : leb cfg.max_attempts (d.attempts + 0) ≡ false = ground arith in
      rw (deliver_open cfg now random id ok d ep w found open_ there) (
        rw (deliver_all_closed rs (as_delivered now d) w' found' (inl refl)) (record {
          row = as_delivered now d;
          found = found';
          status = rw under refl;
          attempts = rw under (omega arith);
          added =
              let no_retry : min 0 (cfg.max_attempts - d.attempts - 1) ≡ 0 = omega arith in
              rw no_retry (sym (append-nil _));
        }))

  gave_up :
      (rs : List Run) (now random : ℕ) (why : String) (d : WebhookDelivery) (ep : WebhookEndpoint)
      (w : Hooks)
      → d.attempts < cfg.max_attempts
      → leb cfg.max_attempts (d.attempts + 1) ≡ true
      → find_delivery id w.db.webhook_deliveries ≡ some d
      → IsOpen d.status
      → find_endpoint d.endpoint_id w.db.webhook_endpoints ≡ some ep
      → IsAfter
          (run (not_ok why) now random ∷ rs)
          d.attempts
          d.status
          w
          (deliver_all cfg id (run (not_ok why) now random ∷ rs) w)
  unfolding deliver_all after_request
  gave_up rs now random why d ep w left last found open_ there =
      let db' : Db = update_delivery d.id (as_dead (d.attempts + 1) why) w.db in
      let w' : Hooks = record w { db = db' } in
      let found' : find_delivery id db'.webhook_deliveries ≡ some (as_dead (d.attempts + 1) why d) =
        find-update_delivery id (as_dead (d.attempts + 1) why) d w.db (λ r. refl) found in
      let over : leb cfg.max_attempts (d.attempts + suc (failures rs)) ≡ true = ground arith in
      let no_retry : min (suc (failures rs)) (cfg.max_attempts - d.attempts - 1) ≡ 0 =
        ground arith in
      rw (deliver_open cfg now random id (not_ok why) d ep w found open_ there) (
        rw (not_delivered_over cfg now random d why w last) (
          rw (deliver_all_closed rs (as_dead (d.attempts + 1) why d) w' found' (inr refl)) (record {
            row = as_dead (d.attempts + 1) why d;
            found = found';
            status = rw over refl;
            attempts = rw over (ground arith);
            added = rw no_retry (sym (append-nil _));
          })))

  -- Runs behind one that failed and left attempts.
  later-IsAfter :
      (rs : List Run) (now random : ℕ) (why : String) (n : ℕ) (s : WebhookStatus) (w w1 w2 : Hooks)
      → leb cfg.max_attempts (n + 1) ≡ false
      → map (λ j. j.job_id) w1.added ≡ map (λ j. j.job_id) w.added ++ JobId.retry id (n + 1) ∷ []
      → IsAfter rs (n + 1) failed w1 w2
      → IsAfter (run (not_ok why) now random ∷ rs) n s w w2
  later-IsAfter rs now random why n s w w1 w2 under jobs h =
      let shift : n + 1 + failures rs ≡ n + suc (failures rs) = omega arith in
      let more : min (suc (failures rs)) (cfg.max_attempts - n - 1)
          ≡ suc (min (failures rs) (cfg.max_attempts - (n + 1) - 1)) =
        ground arith in
      record {
        row = h.row;
        found = h.found;
        status = h.status ∙ rw shift (ground arith);
        attempts = h.attempts ∙ rw shift (ground arith);
        added =
            h.added
            ∙ ap
                (λ l.
                  l ++ retry_ids id (n + 1) (min (failures rs) (cfg.max_attempts - (n + 1) - 1)))
                jobs
            ∙ append_assoc (map (λ j. j.job_id) w.added) (JobId.retry id (n + 1) ∷ [])
                (retry_ids id (n + 1) (min (failures rs) (cfg.max_attempts - (n + 1) - 1)))
            ∙ rw more refl;
      }

  -- Runs for a delivery that is pending or failed, with attempts left and its endpoint there, leave
  -- it as the count of the failures before the first accepted request says. When the attempts are
  -- used up, it is dead, with as many attempts as are allowed. Otherwise, if a request was accepted,
  -- it is delivered and no later run tries again; and else it waits, failed, for its retry. The
  -- attempts are counted one by one, and every failure that leaves attempts has added the job of
  -- the retry under the next number, once.
  pub deliver_all-IsAfter :
      (rs : List Run) (d : WebhookDelivery) (ep : WebhookEndpoint) (w : Hooks)
      → d.id ≡ id
      → d.attempts < cfg.max_attempts
      → find_delivery id w.db.webhook_deliveries ≡ some d
      → IsOpen d.status
      → find_endpoint d.endpoint_id w.db.webhook_endpoints ≡ some ep
      → IsAfter rs d.attempts d.status w (deliver_all cfg id rs w)
  unfolding deliver_all after_request
  deliver_all-IsAfter [] d ep w same left found open_ there =
      let under : leb cfg.max_attempts (d.attempts + 0) ≡ false = ground arith in
      let no_retry : min 0 (cfg.max_attempts - d.attempts - 1) ≡ 0 = omega arith in
      record {
        row = d;
        found = found;
        status = rw under refl;
        attempts = rw under (omega arith);
        added = rw no_retry (sym (append-nil _));
      }
  deliver_all-IsAfter (run ok now random ∷ rs) d ep w same left found open_ there =
      accepted rs now random d ep w same left found open_ there
  deliver_all-IsAfter (run (not_ok why) now random ∷ rs) d ep w same left found open_ there =
      elim (Bool-cases (leb cfg.max_attempts (d.attempts + 1))) [
        | inl last ↦ gave_up rs now random why d ep w left last found open_ there
        | inr under ↦
            let f : WebhookDelivery → WebhookDelivery = λ r.
              as_failed (d.attempts + 1)
                (now + backoff_value cfg now random (d.attempts + 1) / millisecond) why r in
            let w' : Hooks = record w {
              db = update_delivery d.id f w.db;
              added =
                  w.added
                  ++ retry_of d.id (d.attempts + 1) (backoff_value cfg now random (d.attempts + 1))
                    ∷ [];
            } in
            rw (deliver_open cfg now random id (not_ok why) d ep w found open_ there) (
              rw (not_delivered_again cfg now random d why w under) (
                later-IsAfter rs now random why d.attempts d.status w w' _ under
                  (map-append (λ j. j.job_id) w.added _ ∙ rw same refl)
                  (deliver_all-IsAfter rs (f d) ep w' same (ground arith)
                    (find-update_delivery id f d w.db (λ r. refl) found) (inr refl)
                    (ap (find_endpoint d.endpoint_id) (endpoints-update_delivery d.id f w.db)
                      ∙ there))))
      ]
