-- ===== src/Webhooks/Reaper/Laws.antt =====
-- What apps/api/src/webhooks/webhook-reaper.service.ts drives again.
use mathlib.Core.Path.{subst}
use payments_processor.Common.{
  zero, suc, none, length, mem, ◌↔◌, inl, inr, Option-cases, Bool-cases, ==_iff, sym, ap, ◌∙◌,
  String, ℕ, ◌+◌, ◌<◌, ◌≡◌, refl, Bool, true, false, ◌&&◌, not, some, List, [], ◌∷◌, ◌++◌, map,
  ◌==◌, leb, filter_by, take, arith, ◌/◌,
}
use payments_processor.Common.Table.{HasUniqueKeys}
use payments_processor.Database.{WebhookEndpoint, WebhookDelivery, Db, find_endpoint, find_delivery}
use payments_processor.Jobs.{WebhookJob}
use payments_processor.Worker.Backoff.{millisecond}
use payments_processor.Webhooks.Delivering.{
  WebhookConfig, not_ok, Hooks, as_failed, retry_of, after_request, deliver,
}
use payments_processor.Webhooks.Delivering.Laws.{
  IsOpen, deliver_open, not_delivered_again, find-update_delivery, backoff_value,
}
use payments_processor.Webhooks.Reaper.{due_at, is_stuck, select_stuck, reap_job, reap_once}

-- Of a delivery that failed and left attempts: its row, the job of its retry, and the reaper's job
-- for the row, which has the same id.
pub record IsRebuilt (id : ℕ) (w w' : Hooks) : Type 0 where
  pub row : WebhookDelivery
  pub job : WebhookJob
  pub found : find_delivery id w'.db.webhook_deliveries ≡ some row
  pub added : w'.added ≡ w.added ++ job ∷ []
  pub same_delivery : (reap_job row).delivery_id ≡ job.delivery_id
  pub same_id : (reap_job row).job_id ≡ job.job_id

-- When a run for an open delivery of an endpoint that exists fails and leaves attempts, it adds one job,
-- and the job that the reaper would add for the delivery after it is for the same delivery and has
-- the same id.
pub reap_job-deliver :
    (cfg : WebhookConfig) (now random id : ℕ) (why : String) (d : WebhookDelivery)
    (ep : WebhookEndpoint) (w : Hooks)
    → d.attempts + 1 < cfg.max_attempts
    → find_delivery id w.db.webhook_deliveries ≡ some d
    → IsOpen d.status
    → find_endpoint d.endpoint_id w.db.webhook_endpoints ≡ some ep
    → IsRebuilt id w (deliver cfg now random id (not_ok why) w).1
unfolding after_request
reap_job-deliver cfg now random id why d ep w left found open_ there =
    let f : WebhookDelivery → WebhookDelivery = λ r.
      as_failed (d.attempts + 1) (now + backoff_value cfg now random (d.attempts + 1) / millisecond)
        why r in
    let under : leb cfg.max_attempts (d.attempts + 1) ≡ false = ground arith in
    let tried : (d.attempts + 1 == 0) ≡ false = ground arith in
    rw (deliver_open cfg now random id (not_ok why) d ep w found open_ there) (
      rw (not_delivered_again cfg now random d why w under) (record {
        row = f d;
        job = retry_of d.id (d.attempts + 1) (backoff_value cfg now random (d.attempts + 1));
        found = find-update_delivery id f d w.db (λ r. refl) found;
        added = refl;
        same_delivery = refl;
        same_id = rw tried refl;
      }))

-- When a delivery is due: at the time of its next attempt, or at its creation where none was set.
pub data DueAt (d : WebhookDelivery) : ℕ → Type 0 where
  next_attempt : (at : ℕ) → d.next_attempt_at ≡ some at → DueAt d at
  creation : d.next_attempt_at ≡ none → DueAt d d.created_at

due_at-eq : (d : WebhookDelivery) (at : ℕ) → DueAt d at → due_at d ≡ at
due_at-eq d _ (next_attempt at set) = rw set
due_at-eq d _ (creation none_set) = rw none_set

DueAt-due_at : (d : WebhookDelivery) → DueAt d (due_at d)
DueAt-due_at d = elim (Option-cases d.next_attempt_at) [
  | inl none_set ↦
      subst (DueAt d) (sym (due_at-eq d d.created_at (creation none_set))) (creation none_set)
  | inr (at, set) ↦
      subst (DueAt d) (sym (due_at-eq d at (next_attempt at set))) (next_attempt at set)
]

-- The delivery is neither delivered nor dead, and its time lies more than the deadline ago.
abbrev pub IsStranded : (deadline_ms now : ℕ) → WebhookDelivery → Type 0
IsStranded deadline_ms now d =
    IsOpen d.status × ((at : ℕ) × (DueAt d at × (at + deadline_ms < now)))

is_stuck_iff :
    (deadline_ms now : ℕ) (d : WebhookDelivery)
    → (is_stuck deadline_ms now d ≡ true) ↔ IsStranded deadline_ms now d
is_stuck_iff deadline_ms now d = (
  (λ h. (ground arith, (due_at d, (DueAt-due_at d, ground arith)))),
  (λ (open_, (at, (due, late))). let e = due_at-eq d at due in ground arith),
)

abbrev ids_where : (WebhookDelivery → Bool) → List WebhookDelivery → List ℕ
ids_where q ds = map (λ d. d.id) (filter_by q ds)

ids_where-new :
    (q : WebhookDelivery → Bool) (k : ℕ) (ds : List WebhookDelivery)
    → find_delivery k ds ≡ none
    → mem (ids_where q ds) k ≡ false
ids_where-new q k [] h = refl
ids_where-new q k (d ∷ ds) h = ground (arith, ids_where-new q k ds)

mem-ids_where :
    (q : WebhookDelivery → Bool) (k : ℕ) (d : WebhookDelivery) (ds : List WebhookDelivery)
    → HasUniqueKeys (λ (d : WebhookDelivery). d.id) ds
    → find_delivery k ds ≡ some d
    → mem (ids_where q ds) k ≡ q d
mem-ids_where q k d [] unique h = cc
mem-ids_where q k d (x ∷ xs) (new, unique) h = elim (Bool-cases (x.id == k)) [
  | inl same ↦
      let is_k : x.id ≡ k = (==_iff x.id k).0 same in
      let is_d : some x ≡ some d = rw same at h in
      let is_d' : x ≡ d = cc in
      let rest : mem (ids_where q xs) k ≡ false = ids_where-new q k xs (rw (← is_k) new) in
      elim (Bool-cases (q x)) [
        | inl yes_ ↦ rw (yes_, same) (sym yes_ ∙ ap q is_d')
        | inr no_ ↦ rw (no_, rest) (sym no_ ∙ ap q is_d')
      ]
  | inr other ↦
      let there : find_delivery k xs ≡ some d = rw other at h in
      let ih = mem-ids_where q k d xs unique there in
      elim (Bool-cases (q x)) [ inl yes_ ↦ rw (yes_, other) ih | inr no_ ↦ rw no_ ih ]
]

take_short : {A : Type 0} → (n : ℕ) (xs : List A) → length (take n xs) < n → take n xs ≡ xs
take_short zero xs h = absurd (omega (arith, h))
take_short (suc n) [] h = refl
take_short (suc n) (x ∷ xs) h = ap (λ l. x ∷ l) (take_short n xs (omega (arith, h)))

job_ids :
    (ds : List WebhookDelivery) → map (λ j. j.delivery_id) (map reap_job ds) ≡ map (λ d. d.id) ds
job_ids [] = refl
job_ids (d ∷ ds) = ap (λ l. d.id ∷ l) (job_ids ds)

length-jobs : (ds : List WebhookDelivery) → length (map reap_job ds) ≡ length ds
length-jobs [] = refl
length-jobs (d ∷ ds) = ap suc (length-jobs ds)

-- Where no two deliveries share an id, and fewer than a hundred jobs come of a poll of the reaper: a
-- delivery that no other reaper has locked gets a job exactly if it is neither delivered nor dead
-- and the time of its next attempt, or of its creation if none was set, lies more than the deadline
-- ago.
pub reap_once_iff :
    (locked : ℕ → Bool) (deadline_ms now : ℕ) (db : Db) (d : WebhookDelivery)
    → HasUniqueKeys (λ (d : WebhookDelivery). d.id) db.webhook_deliveries
    → length (reap_once locked deadline_ms now db) < 100
    → find_delivery d.id db.webhook_deliveries ≡ some d
    → locked d.id ≡ false
    → (mem (map (λ j. j.delivery_id) (reap_once locked deadline_ms now db)) d.id ≡ true)
      ↔ IsStranded deadline_ms now d
unfolding reap_once select_stuck
reap_once_iff locked deadline_ms now db d unique few found free =
    let chosen : WebhookDelivery → Bool = λ d. is_stuck deadline_ms now d && not (locked d.id) in
    let all_chosen : List WebhookDelivery = filter_by chosen db.webhook_deliveries in
    let short : take 100 all_chosen ≡ all_chosen =
      take_short 100 all_chosen (omega (arith, few, length-jobs (take 100 all_chosen))) in
    let is : mem (map (λ j. j.delivery_id) (map reap_job (take 100 all_chosen))) d.id
        ≡ is_stuck deadline_ms now d =
      rw
        (
          job_ids (take 100 all_chosen),
          short,
          mem-ids_where chosen d.id d db.webhook_deliveries unique found,
          free,
        )
        (ground arith) in
    (
      (λ h. (is_stuck_iff deadline_ms now d).0 (sym is ∙ h)),
      (λ h. is ∙ (is_stuck_iff deadline_ms now d).1 h),
    )
