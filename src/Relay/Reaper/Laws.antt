-- ===== src/Relay/Reaper/Laws.antt =====
-- What apps/api/src/relay/reaper.service.ts does for the payments that it finds stranded.
use payments_processor.Common.{
  ℕ, ◌≡◌, ◌≢◌, refl, sym, ap, ◌∙◌, inl, inr, Bool, true, ◌&&◌, not, Option, some, List, [], ◌∷◌,
  map, mem, filter_by, All, arith, Bool-cases, if◌then◌else◌,
}
use mathlib.Core.Path.{subst}
use payments_processor.Common.Table.{update_where, find-update_where_any, HasUniqueKeys}
use payments_processor.Common.Selections.{
  All-filter_by, All-take, filter_by-All, IsRow, HasUniqueKeys-All, take-HasUniqueKeys, mem-map,
}
use payments_processor.Common.Paging.Order.{filter_by-HasUniqueKeys}
use payments_processor.Shared.Status.{processing, status_eq, can_transition}
use payments_processor.Shared.Status.Laws.{status_eq_iff}
use payments_processor.Database.{Payment, Db, find_payment}
use payments_processor.Jobs.{PaymentJob}
use payments_processor.Audit.Effects.{Effects}
use payments_processor.Relay.Reaper.{
  is_stuck, select_stuck, processing_ids, unstranded, reap_job, reap_once,
}
use payments_processor.Relay.Reaper.Unstranding.{
  AreProcessing, AreNewUlids, brought_back, brought_back-Effects, unstrand_works,
}

-- The worker will claim the payment of the job.
abbrev pub IsDriven : Db → PaymentJob → Type 0
IsDriven db job =
    (p : Payment) × (find_payment job.data_of.payment_id db.payments ≡ some p)
    × (can_transition p.status processing ≡ true)

-- What a run of the reaper comes to.
pub record IsReaped (before : Db) (stuck : List Payment) (r : Option (Db × List PaymentJob))
    : Type 0 where
  pub after : Db
  pub jobs : List PaymentJob
  pub result : r ≡ some (after, jobs)
  pub effects : Effects before after
  pub covered : map (λ j. j.data_of.payment_id) jobs ≡ map (λ p. p.id) stuck
  pub driven : All (IsDriven after) jobs

abbrev IsProcessingRow : Payment → Type 0
IsProcessingRow p = status_eq p.status processing ≡ true

rows-AreProcessing :
    (ps rows : List Payment)
    → All (IsRow (λ (p : Payment). p.id) ps) rows
    → All IsProcessingRow rows
    → HasUniqueKeys (λ (p : Payment). p.id) rows
    → AreProcessing ps (map (λ p. p.id) rows)
rows-AreProcessing ps [] at was u = tt
rows-AreProcessing ps (r ∷ rs) (here, at) (is, was) (fresh, u) = (
  (r, here, (status_eq_iff r.status processing).0 is),
  mem-map (λ p. p.id) r.id rs fresh,
  rows-AreProcessing ps rs at was u,
)

-- A stuck row that is not being processed waits for a retry.
waiting_of_stuck :
    (deadline_ms now : ℕ) (r : Payment)
    → is_stuck deadline_ms now r ≡ true
    → status_eq r.status processing ≢ true
    → can_transition r.status processing ≡ true
unfolding can_transition
waiting_of_stuck deadline_ms now r stuck other = ground arith

-- A stuck row is claimable afterwards, if it was among the ids wherever it was being processed.
row-IsDriven :
    (deadline_ms now enqueued : ℕ) (ids : List ℕ) (db db' : Db) (r : Payment)
    → find_payment r.id db.payments ≡ some r
    → is_stuck deadline_ms now r ≡ true
    → (status_eq r.status processing ≡ true → mem ids r.id ≡ true)
    → db'.payments ≡ update_where (λ p. mem ids p.id) (unstranded now) db.payments
    → IsDriven db' (reap_job enqueued r)
unfolding can_transition
row-IsDriven deadline_ms now enqueued ids db db' r found stuck covers same =
    let r' : Payment = if mem ids r.id then unstranded now r else r in
    (
      r',
      ap (find_payment r.id) same
          ∙ find-update_where_any (λ (p : Payment). p.id) r.id (λ p. mem ids p.id) (unstranded now)
              (λ p. refl) db.payments
          ∙ rw found refl,
      elim (Bool-cases (mem ids r.id)) [
        | inl back ↦ rw back refl
        | inr left ↦ rw left (waiting_of_stuck deadline_ms now r stuck (λ was. ground arith))
      ],
    )

rows-AreDriven :
    (deadline_ms now enqueued : ℕ) (ids : List ℕ) (db db' : Db) (rows : List Payment)
    → All (IsRow (λ (p : Payment). p.id) db.payments) rows
    → All (λ r. is_stuck deadline_ms now r ≡ true) rows
    → All (λ r. status_eq r.status processing ≡ true → mem ids r.id ≡ true) rows
    → db'.payments ≡ update_where (λ p. mem ids p.id) (unstranded now) db.payments
    → All (IsDriven db') (map (reap_job enqueued) rows)
rows-AreDriven deadline_ms now enqueued ids db db' [] at stuck covers same = tt
rows-AreDriven deadline_ms now enqueued ids db db' (r ∷ rs) (h, at) (s, stuck) (c, covers) same = (
  row-IsDriven deadline_ms now enqueued ids db db' r h s c same,
  rows-AreDriven deadline_ms now enqueued ids db db' rs at stuck covers same,
)

abbrev Covers : List ℕ → List Payment → Type 0
Covers ids = All (λ r. status_eq r.status processing ≡ true → mem ids r.id ≡ true)

Covers-cons :
    (id : ℕ) (ids : List ℕ) (rows : List Payment) → Covers ids rows → Covers (id ∷ ids) rows
Covers-cons id ids [] c = tt
Covers-cons id ids (r ∷ rs) (h, c) =
    (λ was. let there = h was in ground arith, Covers-cons id ids rs c)

processing_ids-Covers : (rows : List Payment) → Covers (processing_ids rows) rows
processing_ids-Covers [] = tt
processing_ids-Covers (r ∷ rs) = elim (Bool-cases (status_eq r.status processing)) [
  | inl was ↦
      let same : processing_ids (r ∷ rs) ≡ r.id ∷ processing_ids rs = rw was refl in
      subst (λ ids. Covers ids (r ∷ rs)) (sym same)
        (λ _. ground arith, Covers-cons r.id (processing_ids rs) rs (processing_ids-Covers rs))
  | inr other ↦
      let same : processing_ids (r ∷ rs) ≡ processing_ids rs = rw other refl in
      subst (λ ids. Covers ids (r ∷ rs)) (sym same)
        (λ was. absurd (ground arith), processing_ids-Covers rs)
]

covered_ids :
    (enqueued : ℕ) (rows : List Payment)
    → map (λ j. j.data_of.payment_id) (map (reap_job enqueued) rows) ≡ map (λ p. p.id) rows
covered_ids enqueued [] = refl
covered_ids enqueued (r ∷ rs) = ap (λ l. r.id ∷ l) (covered_ids enqueued rs)

module _ (locked : ℕ → Bool) (deadline_ms now enqueued : ℕ) (ulid : ℕ → ℕ) (db : Db)
    (unique : HasUniqueKeys (λ (p : Payment). p.id) db.payments) where
  abbrev stuck_rows : List Payment
  stuck_rows = select_stuck locked deadline_ms now db

  abbrev chosen : Payment → Bool
  chosen p = is_stuck deadline_ms now p && not (locked p.id)

  stuck_rows-IsRow : All (IsRow (λ (p : Payment). p.id) db.payments) stuck_rows
  unfolding select_stuck
  stuck_rows-IsRow =
      All-take (IsRow (λ (p : Payment). p.id) db.payments) 100 (filter_by chosen db.payments) (
        All-filter_by (IsRow (λ (p : Payment). p.id) db.payments) chosen db.payments
          (HasUniqueKeys-All (λ (p : Payment). p.id) db.payments unique))

  stuck_rows-HasUniqueKeys : HasUniqueKeys (λ (p : Payment). p.id) stuck_rows
  unfolding select_stuck
  stuck_rows-HasUniqueKeys =
      take-HasUniqueKeys (λ (p : Payment). p.id) 100 (filter_by chosen db.payments)
        (filter_by-HasUniqueKeys (λ (p : Payment). p.id) chosen db.payments unique)

  chosen_stuck :
      (rows : List Payment)
      → All (λ r. chosen r ≡ true) rows
      → All (λ r. is_stuck deadline_ms now r ≡ true) rows
  chosen_stuck [] a = tt
  chosen_stuck (r ∷ rs) (h, a) = (ground arith, chosen_stuck rs a)

  stuck_rows-stuck : All (λ r. is_stuck deadline_ms now r ≡ true) stuck_rows
  unfolding select_stuck
  stuck_rows-stuck = chosen_stuck _ (
      All-take (λ r. chosen r ≡ true) 100 (filter_by chosen db.payments)
        (filter_by-All chosen db.payments))

  pub ids-AreProcessing : AreProcessing db.payments (processing_ids stuck_rows)
  ids-AreProcessing =
      let was = λ (p : Payment). status_eq p.status processing in
      rows-AreProcessing db.payments (filter_by was stuck_rows)
        (All-filter_by (IsRow (λ (p : Payment). p.id) db.payments) was stuck_rows stuck_rows-IsRow)
        (filter_by-All was stuck_rows)
        (filter_by-HasUniqueKeys (λ (p : Payment). p.id) was stuck_rows stuck_rows-HasUniqueKeys)

  -- Where no two payments share an id, a run of the reaper with new ulids succeeds. It adds one
  -- job for each payment that it finds stranded, and the worker will claim the payment of every
  -- one of these jobs.
  pub reap_once_redrives :
      AreNewUlids ulid db
      → IsReaped db
          (select_stuck locked deadline_ms now db)
          (reap_once locked deadline_ms now enqueued ulid db)
  unfolding reap_once
  reap_once_redrives new = record {
    after = brought_back now ulid (processing_ids stuck_rows) db;
    jobs = map (reap_job enqueued) stuck_rows;
    result = rw (unstrand_works now ulid (processing_ids stuck_rows) db new ids-AreProcessing) refl;
    effects = brought_back-Effects now ulid (processing_ids stuck_rows) db ids-AreProcessing;
    covered = covered_ids enqueued stuck_rows;
    driven =
        rows-AreDriven deadline_ms now enqueued (processing_ids stuck_rows) db
          (brought_back now ulid (processing_ids stuck_rows) db) stuck_rows stuck_rows-IsRow
          stuck_rows-stuck (processing_ids-Covers stuck_rows) refl;
  }
