-- ===== src/Relay/Cleanup/Ensuring.antt =====
-- `ensurePartitions` of apps/api/src/relay/outbox-cleanup.service.ts: the partitions there are for
-- each day, before and after.
use payments_processor.Common.{
  ℕ, zero, suc, ◌+◌, ◌≤◌, ◌≡◌, refl, sym, ◌∙◌, ap, inl, inr, Bool, true, false, ◌&&◌, none, some,
  List, [], ◌∷◌, ◌++◌, arith, All, any, filter_by, length, ltb, leb, ◌==◌, same, if◌then◌else◌,
  Bool-cases, same_refl, same_sound, any-ext, All-map, All-append, filter_by-append, length-append,
}
use payments_processor.Relay.Cleanup.Names.{match_name-partition_name, partition_name_inj}
use payments_processor.Relay.Cleanup.{
  partition_name, Bound, range, default, Partition, is_within, conflicts, new_partition,
  create_partition, match_name,
}
use payments_processor.Relay.Dates.Laws.{IsWritten}
use payments_processor.Shared.Money.{Text}

-- A range is one day's, under that day's name, with rows of that day; the default partition's name
-- is no day's.
abbrev pub IsDailyBound : Text → List ℕ → Bound → Type 0
IsDailyBound name rows (range from to) =
    (name ≡ partition_name from)
    × (to ≡ from + 1)
    × IsWritten from
    × All (λ created_at. is_within from to created_at ≡ true) rows
IsDailyBound name rows default = match_name name ≡ none

abbrev pub IsDaily : Partition → Type 0
IsDaily p = IsDailyBound p.name p.rows p.bound

abbrev pub covers_bound : ℕ → Bound → Bool
covers_bound day (range from to) = leb from day && ltb day to
covers_bound day default = false

abbrev pub covers : ℕ → Partition → Bool
covers day p = covers_bound day p.bound

-- How many ranges a day is in.
abbrev pub homes : ℕ → List Partition → ℕ
homes day parts = length (filter_by (covers day) parts)

-- No row of the default partition is of the day.
abbrev pub IsClearBound : ℕ → List ℕ → Bound → Type 0
IsClearBound day rows (range from to) = Unit
IsClearBound day rows default = any (is_within day (day + 1)) rows ≡ false

abbrev pub IsClear : ℕ → Partition → Type 0
IsClear day p = IsClearBound day p.rows p.bound

module _ (day : ℕ) (h : IsWritten day) where
  pub named-covers :
      (name : Text) (rows : List ℕ) (b : Bound)
      → IsDailyBound name rows b
      → same name (partition_name day) ≡ covers_bound day b
  named-covers name rows (range from to) (e, f, k, l) = elim (Bool-cases (from == day)) [
    | inl equal ↦
        let at : from ≡ day = ground arith in
        rw (e, at, same_refl (partition_name day)) (ground arith)
    | inr other ↦ elim (Bool-cases (same name (partition_name day))) [
      | inl named ↦
          let at : from ≡ day =
            partition_name_inj from day k h (sym e ∙ same_sound name (partition_name day) named) in
          absurd (ground arith)
      | inr unnamed ↦ rw unnamed (ground arith)
    ]
  ]
  named-covers name rows default d = elim (Bool-cases (same name (partition_name day))) [
    | inl named ↦
        let read = ap match_name (sym (same_sound name (partition_name day) named)) in
        absurd (ground (arith, read, match_name-partition_name day h))
    | inr unnamed ↦ unnamed
  ]

  conflicts-covers :
      (name : Text) (rows : List ℕ) (b : Bound)
      → IsDailyBound name rows b
      → IsClearBound day rows b
      → conflicts day (day + 1) b rows ≡ covers_bound day b
  conflicts-covers name rows (range from to) (e, f, k, l) clear = ground arith
  conflicts-covers name rows default d clear = clear

-- What a round of the loop makes of the partitions.
abbrev pub added : ℕ → List Partition → List Partition
added day parts =
    if any (covers day) parts then parts else parts ++ new_partition day (day + 1) ∷ []

conflicts_where_covered :
    (day : ℕ)
    → IsWritten day
    → (parts : List Partition) → All IsDaily parts
    → All (IsClear day) parts
    → All (λ p. conflicts day (day + 1) p.bound p.rows ≡ covers day p) parts
conflicts_where_covered day h [] daily clear = tt
conflicts_where_covered day h (p ∷ parts) daily clear = (
  conflicts-covers day h p.name p.rows p.bound daily.0 clear.0,
  conflicts_where_covered day h parts daily.1 clear.1,
)

pub create_partition-added :
    (day : ℕ) (parts : List Partition)
    → IsWritten day
    → All IsDaily parts
    → All (IsClear day) parts
    → create_partition day (day + 1) parts ≡ some (added day parts)
unfolding create_partition
create_partition-added day parts h daily clear =
    rw
      (
        any-ext (λ p. same p.name (partition_name day)) (covers day) parts
            (All-map (λ p d. named-covers day h p.name p.rows p.bound d) parts daily),
        any-ext (λ p. conflicts day (day + 1) p.bound p.rows) (covers day) parts
            (conflicts_where_covered day h parts daily clear),
      )
      (elim (Bool-cases (any (covers day) parts)) [
        | inl there ↦ rw there
        | inr missing ↦ rw missing
      ])

module _ (day : ℕ) (parts : List Partition) where
  pub added-IsDaily : IsWritten day → All IsDaily parts → All IsDaily (added day parts)
  added-IsDaily h daily = elim (Bool-cases (any (covers day) parts)) [
    | inl there ↦ rw there daily
    | inr missing ↦ rw missing (All-append IsDaily parts _ daily ((refl, refl, h, tt), tt))
  ]

  pub added-IsClear : (x : ℕ) → All (IsClear x) parts → All (IsClear x) (added day parts)
  added-IsClear x clear = elim (Bool-cases (any (covers day) parts)) [
    | inl there ↦ rw there clear
    | inr missing ↦ rw missing (All-append (IsClear x) parts _ clear (tt, tt))
  ]

pub any-homes :
    (day : ℕ) (parts : List Partition) → any (covers day) parts ≡ ltb 0 (homes day parts)
any-homes day [] = refl
any-homes day (p ∷ parts) = ground (arith, any-homes day parts)

-- A day without a partition gets one; nothing else changes.
pub homes-added :
    (day x : ℕ) (parts : List Partition)
    → homes x (added day parts) ≡ (if x == day && homes x parts == 0 then 1 else homes x parts)
homes-added day x parts = elim (Bool-cases (any (covers day) parts)) [
  | inl there ↦ rw there (elim (Bool-cases (x == day)) [
    | inl equal ↦ let at : x ≡ day = ground arith in rw at (ground (arith, any-homes day parts))
    | inr other ↦ ground arith
  ])
  | inr missing ↦
      let none_yet : homes day parts ≡ 0 = ground (arith, any-homes day parts) in
      rw
        (
          missing,
          filter_by-append (covers x) parts (new_partition day (day + 1) ∷ []),
          length-append,
        )
        (elim (Bool-cases (x == day)) [
          | inl equal ↦ let at : x ≡ day = ground arith in rw at (ground arith)
          | inr other ↦ ground arith
        ])
]

-- The partitions after a loop over `left` days from `day`.
abbrev pub all_added : ℕ → ℕ → List Partition → List Partition
all_added zero day parts = parts
all_added (suc left) day parts = all_added left (day + 1) (added day parts)

-- A table of daily partitions in which no day has two.
pub record IsTable (parts : List Partition) : Type 0 where
  pub daily : All IsDaily parts
  pub apart : (x : ℕ) → homes x parts ≤ 1

pub added-IsTable :
    (day : ℕ) (parts : List Partition) → IsWritten day → IsTable parts → IsTable (added day parts)
added-IsTable day parts h t = record {
  daily = added-IsDaily day parts h t.daily;
  apart = λ x. ground (arith, homes-added day x parts, t.apart x);
}

pub all_added-IsTable :
    (left day : ℕ) (parts : List Partition)
    → (day + left ≤ 3652425)
    → 36525 ≤ day
    → IsTable parts
    → IsTable (all_added left day parts)
all_added-IsTable zero day parts h k t = t
all_added-IsTable (suc left) day parts h k t =
    all_added-IsTable left (day + 1) (added day parts) (omega arith) (omega arith)
      (added-IsTable day parts (k, omega arith) t)

-- The days of the loop have a partition after it, and no day loses its own.
pub all_added-homes :
    (left day x : ℕ) (parts : List Partition)
    → homes x parts ≤ 1
    → homes x (all_added left day parts)
      ≡ (if leb day x && ltb x (day + left) then 1 else homes x parts)
all_added-homes zero day x parts h = ground arith
all_added-homes (suc left) day x parts h =
    rw
      (all_added-homes left (day + 1) x (added day parts) (ground (arith, homes-added day x parts)))
      (ground (arith, homes-added day x parts))
