-- ===== src/Relay/Cleanup/Upkeep.antt =====
-- A tick of apps/api/src/relay/outbox-cleanup.service.ts whose readings of the clock are all of one
-- day.
use mathlib.Core.List.{append_assoc, append-nil}
use payments_processor.Common.{
  ℕ, zero, suc, ◌+◌, ◌-◌, ◌*◌, ◌/◌, ◌≤◌, ◌<◌, ◌≡◌, ◌⊎◌, refl, sym, ◌∙◌, ap, some, List, [], ◌∷◌,
  ◌++◌, not, true, arith, All, filter_by, any, ltb, if◌then◌else◌, Bool-cases, inl, inr,
}
use payments_processor.Relay.Cleanup.Dropping.{
  is_old, drop_expired-filter_by, rows_of, since, since-rows_of,
}
use payments_processor.Relay.Cleanup.Ensuring.{
  IsDailyBound, IsDaily, covers_bound, covers, IsClear, homes, IsTable, added, all_added,
  create_partition-added, added-IsClear, added-IsTable, all_added-IsTable, all_added-homes,
}
use payments_processor.Relay.Cleanup.{
  day_ms, utc_day, Partition, ensured, create_partition, ensure_from, ensure_partitions, tick,
  Bound, range, default,
}
use payments_processor.Relay.Dates.Laws.{IsWritten}
use payments_processor.Shared.Money.{Text}

covers-is_old :
    (cutoff x : ℕ) (p : Partition)
    → IsDaily p
    → covers x p ≡ true
    → is_old cutoff p.bound ≡ ltb x cutoff
covers-is_old cutoff x p d c = covers_bound-is_old p.name p.rows p.bound d c
  where
    covers_bound-is_old :
        (name : Text) (rows : List ℕ) (b : Bound)
        → IsDailyBound name rows b
        → covers_bound x b ≡ true
        → is_old cutoff b ≡ ltb x cutoff
    covers_bound-is_old name rows (range from to) (e, f, k, l) c = ground arith
    covers_bound-is_old name rows default e c = absurd (ground arith)

-- The days of what is dropped are those before the cutoff.
homes-kept :
    (cutoff x : ℕ) (parts : List Partition)
    → All IsDaily parts
    → homes x (filter_by (λ p. not (is_old cutoff p.bound)) parts)
      ≡ (if ltb x cutoff then 0 else homes x parts)
homes-kept cutoff x [] daily = ground arith
homes-kept cutoff x (p ∷ parts) daily = elim (Bool-cases (covers x p)) [
  | inl covering ↦
      rw (covers-is_old cutoff x p daily.0 covering)
        (ground (arith, homes-kept cutoff x parts daily.1))
  | inr elsewhere ↦ ground (arith, homes-kept cutoff x parts daily.1)
]

kept-IsDaily :
    (cutoff : ℕ) (parts : List Partition)
    → All IsDaily parts
    → All IsDaily (filter_by (λ p. not (is_old cutoff p.bound)) parts)
kept-IsDaily cutoff [] daily = tt
kept-IsDaily cutoff (p ∷ parts) daily = elim (Bool-cases (is_old cutoff p.bound)) [
  | inl old ↦ rw old (kept-IsDaily cutoff parts daily.1)
  | inr fresh ↦ rw fresh ((daily.0, kept-IsDaily cutoff parts daily.1))
]

rows_of-append : (xs ys : List Partition) → rows_of (xs ++ ys) ≡ rows_of xs ++ rows_of ys
rows_of-append [] ys = refl
rows_of-append (p ∷ xs) ys =
    ap (λ r. p.rows ++ r) (rows_of-append xs ys)
    ∙ sym (append_assoc p.rows (rows_of xs) (rows_of ys))

-- A new partition is empty.
rows_of-all_added :
    (left day : ℕ) (parts : List Partition) → rows_of (all_added left day parts) ≡ rows_of parts
rows_of-all_added zero day parts = refl
rows_of-all_added (suc left) day parts =
    rows_of-all_added left (day + 1) (added day parts)
    ∙ elim (Bool-cases (any (covers day) parts)) [
      | inl there ↦ rw there
      | inr missing ↦ rw missing (rows_of-append parts _ ∙ append-nil (rows_of parts))
    ]

module _ (clock : ℕ → ℕ) (today : ℕ) (one_day : (k : ℕ) → clock k / day_ms ≡ today) where
  pub create_partition_now :
      (i : ℕ) (parts : List Partition)
      → IsWritten (today + i)
      → IsTable parts
      → All (IsClear (today + i)) parts
      → create_partition (utc_day (clock (2 * i)) i) (utc_day (clock (2 * i + 1)) (i + 1)) parts
        ≡ some (added (today + i) parts)
  unfolding utc_day
  create_partition_now i parts h t clear =
      let next : today + (i + 1) ≡ today + i + 1 = omega arith in
      rw (one_day (2 * i), one_day (2 * i + 1), next)
        (create_partition-added (today + i) parts h t.daily clear)

  ensure_from-all_added :
      (left i : ℕ) (parts : List Partition)
      → today + i + left ≤ 3652425
      → 36525 ≤ today
      → IsTable parts
      → ((x : ℕ) → today + i ≤ x → x < today + i + left → All (IsClear x) parts)
      → ensure_from clock left i parts ≡ ensured (all_added left (today + i) parts)
  unfolding ensure_from
  ensure_from-all_added zero i parts h k t clear = refl
  ensure_from-all_added (suc left) i parts h k t clear =
      let next : today + (i + 1) ≡ today + i + 1 = omega arith in
      rw
        (create_partition_now i parts (omega arith, omega arith) t
          (clear (today + i) (omega arith) (omega arith)))
        (ensure_from-all_added left (i + 1) (added (today + i) parts) (omega arith) k
            (added-IsTable (today + i) parts (omega arith, omega arith) t)
            (λ x lo hi. added-IsClear (today + i) parts x (clear x (omega arith) (omega arith)))
          ∙ ap (λ d. ensured (all_added left d (added (today + i) parts))) next)

  -- When the clock stays within one day, the partitions are daily ones with none for the same day,
  -- and the default partition has no row of the next days, no statement of the loop fails. Then
  -- each of the days from today to a week on has exactly one partition, every other day has those
  -- that it had, and the partitions are daily ones with none for the same day.
  pub ensure_partitions_covers :
      (parts : List Partition)
      → 36525 ≤ today
      → today + 8 ≤ 3652425
      → IsTable parts
      → ((x : ℕ) → today ≤ x → x < today + 8 → All (IsClear x) parts)
      → (more : List Partition) × (ensure_partitions clock parts ≡ ensured more)
        × IsTable more
        × ((x : ℕ) → today ≤ x → x ≤ today + 7 → homes x more ≡ 1)
        × ((x : ℕ) → (x < today) ⊎ (today + 7 < x) → homes x more ≡ homes x parts)
  unfolding ensure_partitions
  ensure_partitions_covers parts h k t clear = (
    all_added 8 (today + 0) parts,
    ensure_from-all_added 8 0 parts (omega arith) h t
        (λ x lo hi. clear x (omega arith) (omega arith)),
    all_added-IsTable 8 (today + 0) parts (omega arith) (omega arith) t,
    (λ x lo hi. ground (arith, all_added-homes 8 (today + 0) x parts (t.apart x))),
    (λ x out. ground (arith, all_added-homes 8 (today + 0) x parts (t.apart x))),
  )

  module _ (retention_days : ℕ) (parts : List Partition) (h : 36525 ≤ today)
      (k : today + 8 ≤ 3652425) (t : IsTable parts)
      (clear : (x : ℕ) → today ≤ x → x < today + 8 → All (IsClear x) parts) where
    pub tick-filter_by :
        tick retention_days clock parts
        ≡ filter_by
            (λ p. not (is_old (today - retention_days) p.bound))
            (all_added 8 (today + 0) parts)
    unfolding tick ensure_partitions
    tick-filter_by = rw (
      ensure_from-all_added 8 0 parts (omega arith) h t
          (λ x lo hi. clear x (omega arith) (omega arith)),
      drop_expired-filter_by retention_days (clock 16) (all_added 8 (today + 0) parts)
          (all_added-IsTable 8 (today + 0) parts (omega arith) (omega arith) t).daily,
      one_day 16,
    )

    homes-tick :
        (x : ℕ)
        → homes x (tick retention_days clock parts)
          ≡ (if ltb x (today - retention_days) then 0 else homes x (all_added 8 (today + 0) parts))
    homes-tick x = rw tick-filter_by (
        homes-kept (today - retention_days) x (all_added 8 (today + 0) parts)
          (all_added-IsTable 8 (today + 0) parts (omega arith) (omega arith) t).daily)

    tick-IsTable : IsTable (tick retention_days clock parts)
    tick-IsTable =
        let table = all_added-IsTable 8 (today + 0) parts (omega arith) (omega arith) t in
        record {
          daily = rw tick-filter_by (kept-IsDaily (today - retention_days) _ table.daily);
          apart = λ x. ground (arith, homes-tick x, table.apart x);
        }

    tick-since :
        since ((today - retention_days) * day_ms) (rows_of (tick retention_days clock parts))
        ≡ since ((today - retention_days) * day_ms) (rows_of parts)
    tick-since = rw tick-filter_by (
        since-rows_of (today - retention_days) (all_added 8 (today + 0) parts)
          (all_added-IsTable 8 (today + 0) parts (omega arith) (omega arith) t).daily
        ∙ ap (since ((today - retention_days) * day_ms)) (rows_of-all_added 8 (today + 0) parts))

    -- Where every reading of the clock falls on the same day, and that and the seven after it are in
    -- the years 100 to 9999, the
    -- partitions are daily ones with none for the same day, and no row of the default partition is of
    -- the eight days from that one on, a tick leaves a daily partition for each day from today to a week
    -- on, exactly one, and none for a day before the `retention_days` days before today; and no row
    -- created in those days, or since, is lost.
    pub tick_keeps :
        ((x : ℕ) → today ≤ x → x ≤ today + 7 → homes x (tick retention_days clock parts) ≡ 1)
        × ((x : ℕ) → x < today - retention_days → homes x (tick retention_days clock parts) ≡ 0)
        × (since ((today - retention_days) * day_ms) (rows_of (tick retention_days clock parts))
            ≡ since ((today - retention_days) * day_ms) (rows_of parts))
        × IsTable (tick retention_days clock parts)
    tick_keeps = (
      (λ x lo hi. ground (arith, homes-tick x, all_added-homes 8 (today + 0) x parts (t.apart x))),
      (λ x old. ground (arith, homes-tick x)),
      tick-since,
      tick-IsTable,
    )
