-- ===== src/Relay/Cleanup/Blocked.antt =====
-- A tick of apps/api/src/relay/outbox-cleanup.service.ts when rows of a day to come are in the
-- default partition already.
use payments_processor.Common.{
  ℕ, zero, suc, ◌+◌, ◌*◌, ◌/◌, ◌≤◌, ◌<◌, ◌≡◌, ◌∙◌, ap, inl, inr, Bool, true, false, none, List, [],
  ◌∷◌, ◌++◌, arith, All, any, same, All-map, any-ext, Bool-cases,
}
use payments_processor.Relay.Cleanup.Ensuring.{
  IsDaily, IsClear, covers, homes, IsTable, named-covers, any-homes, added, all_added, homes-added,
  added-IsClear, added-IsTable,
}
use payments_processor.Relay.Cleanup.Upkeep.{create_partition_now}
use payments_processor.Relay.Cleanup.{
  day_ms, utc_day, partition_name, Bound, range, default, Partition, is_within, conflicts,
  create_partition, broken, ensure_from, ensure_partitions, tick,
}
use payments_processor.Relay.Dates.Laws.{IsWritten}

abbrev spills_bound : ℕ → List ℕ → Bound → Bool
spills_bound day rows (range from to) = false
spills_bound day rows default = any (is_within day (day + 1)) rows

-- Whether the default partition holds a row of the day.
abbrev pub spills : ℕ → List Partition → Bool
spills day = any (λ p. spills_bound day p.rows p.bound)

any-append :
    {A : Type 0} (f : A → Bool) (xs ys : List A) → any f xs ≡ true → any f (xs ++ ys) ≡ true
any-append f [] ys h = absurd (ground arith)
any-append f (x ∷ xs) ys h = ground (arith, any-append f xs ys)

spills-added :
    (x day : ℕ) (parts : List Partition) → spills x parts ≡ true → spills x (added day parts) ≡ true
spills-added x day parts h = elim (Bool-cases (any (covers day) parts)) [
  | inl there ↦ rw there h
  | inr missing ↦ rw missing (any-append _ parts _ h)
]

any_mono :
    {A : Type 0} (f g : A → Bool)
    → ((x : A) → f x ≡ true → g x ≡ true)
    → (xs : List A) → any f xs ≡ true
    → any g xs ≡ true
any_mono f g m [] h = h
any_mono f g m (x ∷ xs) h = ground (arith, m x, any_mono f g m xs)

spills_bound-conflicts :
    (day : ℕ) (rows : List ℕ) (b : Bound)
    → spills_bound day rows b ≡ true
    → conflicts day (day + 1) b rows ≡ true
spills_bound-conflicts day rows (range from to) h = absurd (ground arith)
spills_bound-conflicts day rows default h = h

spills-conflicts :
    (day : ℕ) (parts : List Partition)
    → spills day parts ≡ true
    → any (λ p. conflicts day (day + 1) p.bound p.rows) parts ≡ true
spills-conflicts day = any_mono _ _ (λ p. spills_bound-conflicts day p.rows p.bound)

create_partition_blocked :
    (day : ℕ) (parts : List Partition)
    → IsWritten day
    → All IsDaily parts
    → homes day parts ≡ 0
    → spills day parts ≡ true
    → create_partition day (day + 1) parts ≡ none
unfolding create_partition
create_partition_blocked day parts h daily missing spilt = rw (
  any-ext (λ p. same p.name (partition_name day)) (covers day) parts
      (All-map (λ p d. named-covers day h p.name p.rows p.bound d) parts daily),
  any-homes day parts,
  missing,
  spills-conflicts day parts spilt,
)

module _ (clock : ℕ → ℕ) (today : ℕ) (one_day : (k : ℕ) → clock k / day_ms ≡ today) where
  create_partition_blocked_now :
      (i : ℕ) (parts : List Partition)
      → IsWritten (today + i)
      → All IsDaily parts
      → homes (today + i) parts ≡ 0
      → spills (today + i) parts ≡ true
      → create_partition (utc_day (clock (2 * i)) i) (utc_day (clock (2 * i + 1)) (i + 1)) parts
        ≡ none
  unfolding utc_day
  create_partition_blocked_now i parts h daily missing spilt =
      let next : today + (i + 1) ≡ today + i + 1 = omega arith in
      rw (one_day (2 * i), one_day (2 * i + 1), next)
        (create_partition_blocked (today + i) parts h daily missing spilt)

  ensure_from_blocked :
      (day before left i : ℕ) (parts : List Partition)
      → day ≡ today + i + before
      → before < left
      → today + i + left ≤ 3652425
      → 36525 ≤ today
      → IsTable parts
      → ((x : ℕ) → today + i ≤ x → x < today + i + before → All (IsClear x) parts)
      → homes day parts ≡ 0
      → spills day parts ≡ true
      → ensure_from clock left i parts ≡ broken (all_added before (today + i) parts)
  unfolding ensure_from
  ensure_from_blocked day before zero i parts e b h k t clear missing spilt = absurd (omega arith)
  ensure_from_blocked day zero (suc left) i parts e b h k t clear missing spilt =
      let here : today + i ≡ day = omega arith in
      rw (
        create_partition_blocked_now i parts (omega arith, omega arith) t.daily (rw here missing)
          (rw here spilt))
  ensure_from_blocked day (suc before) (suc left) i parts e b h k t clear missing spilt =
      let next : today + (i + 1) ≡ today + i + 1 = omega arith in
      rw
        (create_partition_now clock today one_day i parts (omega arith, omega arith) t
          (clear (today + i) (omega arith) (omega arith)))
        (ensure_from_blocked day before left (i + 1) (added (today + i) parts) (omega arith)
            (omega arith) (omega arith) k
            (added-IsTable (today + i) parts (omega arith, omega arith) t)
            (λ x lo hi. added-IsClear (today + i) parts x (clear x (omega arith) (omega arith)))
            (ground (arith, homes-added (today + i) day parts))
            (spills-added day (today + i) parts spilt)
          ∙ ap (λ d. broken (all_added before d (added (today + i) parts))) next)

  -- Within one day, on daily partitions: when the default partition holds a row of a day of the
  -- next week that has no partition, and none of the days from today up to that one, the tick
  -- gives the days up to that one their partitions, and ends: the days after it get none, and
  -- nothing is dropped, however old.
  pub tick_blocked :
      (retention_days before : ℕ) (parts : List Partition)
      → before ≤ 7
      → 36525 ≤ today
      → today + 8 ≤ 3652425
      → IsTable parts
      → ((x : ℕ) → today ≤ x → x < today + before → All (IsClear x) parts)
      → homes (today + before) parts ≡ 0
      → spills (today + before) parts ≡ true
      → tick retention_days clock parts ≡ all_added before today parts
  unfolding tick ensure_partitions
  tick_blocked retention_days before parts b h k t clear missing spilt =
      let start : today + 0 ≡ today = omega arith in
      rw
        (ensure_from_blocked (today + before) before 8 0 parts (omega arith) (omega arith)
          (omega arith) h t (λ x lo hi. clear x (omega arith) (omega arith)) missing spilt)
        (ap (λ d. all_added before d parts) start)
