-- ===== src/Relay/Cleanup/Dropping.antt =====
-- `dropExpired` of apps/api/src/relay/outbox-cleanup.service.ts: which partitions it leaves, and
-- which rows.
use mathlib.Core.List.{append_assoc}
use mathlib.Core.Path.{subst}
use payments_processor.Common.{
  ℕ, ◌-◌, ◌*◌, ◌/◌, ◌≤◌, ◌≡◌, refl, sym, ◌∙◌, ap, inl, inr, Bool, true, false, not, ◌&&◌, List, [],
  ◌∷◌, ◌++◌, map, arith, All, any, filter_by, leb, same, Bool-cases, same_refl, same_sound,
  filter_by-append,
}
use payments_processor.Relay.Cleanup.Ensuring.{IsDailyBound, IsDaily}
use payments_processor.Relay.Cleanup.Names.{day_of_match-partition_name}
use payments_processor.Relay.Cleanup.{
  day_ms, utc_day_ago, Bound, range, default, Partition, is_within, is_expired, drop_table,
  drop_each, drop_expired,
}
use payments_processor.Shared.Money.{Text}

module _ {A : Type 0} where
  filter_by-filter_by :
      (p q : A → Bool) (xs : List A) → filter_by p (filter_by q xs) ≡ filter_by (λ x. q x && p x) xs
  filter_by-filter_by p q [] = refl
  filter_by-filter_by p q (x ∷ xs) = ground (arith, filter_by-filter_by p q xs)

  filter_by-ext :
      (p q : A → Bool) (xs : List A) → All (λ x. p x ≡ q x) xs → filter_by p xs ≡ filter_by q xs
  filter_by-ext p q [] h = refl
  filter_by-ext p q (x ∷ xs) h = rw (h.0, filter_by-ext p q xs h.1)

  pointwise : {P : A → Type 0} → ((x : A) → P x) → (xs : List A) → All P xs
  pointwise f [] = tt
  pointwise f (x ∷ xs) = (f x, pointwise f xs)

  filter_by-true : (xs : List A) → filter_by (λ x. true) xs ≡ xs
  filter_by-true [] = refl
  filter_by-true (x ∷ xs) = ap (λ r. x ∷ r) (filter_by-true xs)

-- Whether one of the names is expired and the partition's.
abbrev named : ℕ → List Text → Partition → Bool
named cutoff names p = any (λ name. is_expired cutoff name && same p.name name) names

drop_each-filter_by :
    (cutoff : ℕ) (names : List Text) (parts : List Partition)
    → drop_each cutoff names parts ≡ filter_by (λ p. not (named cutoff names p)) parts
drop_each-filter_by cutoff [] parts = sym (filter_by-true parts)
drop_each-filter_by cutoff (name ∷ names) parts = elim (Bool-cases (is_expired cutoff name)) [
  | inl expired ↦ rw expired (
      drop_each-filter_by cutoff names (drop_table name parts)
      ∙ filter_by-filter_by (λ p. not (named cutoff names p)) (λ p. not (same p.name name)) parts
      ∙ filter_by-ext _ _ parts (pointwise (λ p. ground arith) parts))
  | inr fresh ↦ rw fresh (drop_each-filter_by cutoff names parts)
]

module _ (cutoff : ℕ) (p : Partition) where
  named_not : (names : List Text) → is_expired cutoff p.name ≡ false → named cutoff names p ≡ false
  named_not [] h = refl
  named_not (name ∷ names) h = elim (Bool-cases (same p.name name)) [
    | inl equal ↦
        let old : is_expired cutoff name ≡ false =
          ap (is_expired cutoff) (sym (same_sound p.name name equal)) ∙ h in
        rw old (named_not names h)
    | inr other ↦ ground (arith, named_not names h)
  ]

  named_own :
      (before names : List Text)
      → is_expired cutoff p.name ≡ true
      → named cutoff (before ++ p.name ∷ names) p ≡ true
  named_own [] names h = ground (arith, same_refl p.name)
  named_own (b ∷ before) names h = ground (arith, named_own before names h)

  named-is_expired :
      (before names : List Text)
      → named cutoff (before ++ p.name ∷ names) p ≡ is_expired cutoff p.name
  named-is_expired before names = elim (Bool-cases (is_expired cutoff p.name)) [
    | inl old ↦ named_own before names old ∙ sym old
    | inr fresh ↦ named_not (before ++ p.name ∷ names) fresh ∙ sym fresh
  ]

-- A range that ends before the cutoff's day, or on it: whole days before it.
abbrev pub is_old : ℕ → Bound → Bool
is_old cutoff (range from to) = leb to cutoff
is_old cutoff default = false

is_expired-is_old :
    (cutoff : ℕ) (name : Text) (rows : List ℕ) (b : Bound)
    → IsDailyBound name rows b
    → is_expired cutoff name ≡ is_old cutoff b
unfolding is_expired
is_expired-is_old cutoff name rows (range from to) (e, f, k, l) =
    rw (e, day_of_match-partition_name from k) (ground arith)
is_expired-is_old cutoff name rows default e = rw e

abbrev names_of : List Partition → List Text
names_of = map (λ p. p.name)

kept_each :
    (cutoff : ℕ) (before : List Text) (parts : List Partition)
    → All IsDaily parts
    → All (λ p. not (named cutoff (before ++ names_of parts) p) ≡ not (is_old cutoff p.bound)) parts
kept_each cutoff before [] daily = tt
kept_each cutoff before (p ∷ parts) daily = (
  ap not (
      named-is_expired cutoff p before (names_of parts)
      ∙ is_expired-is_old cutoff p.name p.rows p.bound daily.0),
  subst (λ names. All (λ q. not (named cutoff names q) ≡ not (is_old cutoff q.bound)) parts)
      (append_assoc before (p.name ∷ []) (names_of parts))
      (kept_each cutoff (before ++ p.name ∷ []) parts daily.1),
)

-- On daily partitions, `dropExpired` leaves exactly those that do not lie before the cutoff, in
-- their order: the default partition, and the ranges that end after the midnight that starts the day
-- `retention_days` before the one of the clock.
pub drop_expired-filter_by :
    (retention_days now : ℕ) (parts : List Partition)
    → All IsDaily parts
    → drop_expired retention_days now parts
      ≡ filter_by (λ p. not (is_old (now / day_ms - retention_days) p.bound)) parts
unfolding drop_expired utc_day_ago
drop_expired-filter_by retention_days now parts daily =
    drop_each-filter_by (now / day_ms - retention_days) (names_of parts) parts
    ∙ filter_by-ext _ _ parts (kept_each (now / day_ms - retention_days) [] parts daily)

-- The rows of all partitions.
abbrev pub rows_of : List Partition → List ℕ
rows_of [] = []
rows_of (p ∷ parts) = p.rows ++ rows_of parts

abbrev pub since : ℕ → List ℕ → List ℕ
since time = filter_by (leb time)

-- The rows of a range that lies before a day are older than it.
since_old :
    (cutoff from to : ℕ) (rows : List ℕ)
    → to ≤ cutoff
    → All (λ created_at. is_within from to created_at ≡ true) rows
    → since (cutoff * day_ms) rows ≡ []
since_old cutoff from to [] h k = refl
since_old cutoff from to (row ∷ rows) h k = ground (arith, since_old cutoff from to rows h k.1)

since_bound :
    (cutoff : ℕ) (name : Text) (rows : List ℕ) (b : Bound)
    → IsDailyBound name rows b
    → is_old cutoff b ≡ true
    → since (cutoff * day_ms) rows ≡ []
since_bound cutoff name rows (range from to) (e, f, k, l) old =
    since_old cutoff from to rows (ground arith) l
since_bound cutoff name rows default e old = absurd (ground arith)

pub since-rows_of :
    (cutoff : ℕ) (parts : List Partition)
    → All IsDaily parts
    → since (cutoff * day_ms) (rows_of (filter_by (λ p. not (is_old cutoff p.bound)) parts))
      ≡ since (cutoff * day_ms) (rows_of parts)
since-rows_of cutoff [] daily = refl
since-rows_of cutoff (p ∷ parts) daily = elim (Bool-cases (is_old cutoff p.bound)) [
  | inl old ↦ rw old (
      since-rows_of cutoff parts daily.1
      ∙ ap (λ r. r ++ since (cutoff * day_ms) (rows_of parts))
          (sym (since_bound cutoff p.name p.rows p.bound daily.0 old))
      ∙ sym (filter_by-append (leb (cutoff * day_ms)) p.rows _))
  | inr fresh ↦ rw fresh (
      filter_by-append (leb (cutoff * day_ms)) p.rows _
      ∙ ap (λ r. since (cutoff * day_ms) p.rows ++ r) (since-rows_of cutoff parts daily.1)
      ∙ sym (filter_by-append (leb (cutoff * day_ms)) p.rows _))
]

-- No row of the last `retention_days` days, or of today, is dropped.
pub drop_expired_keeps :
    (retention_days now : ℕ) (parts : List Partition)
    → All IsDaily parts
    → since
        ((now / day_ms - retention_days) * day_ms)
        (rows_of (drop_expired retention_days now parts))
      ≡ since ((now / day_ms - retention_days) * day_ms) (rows_of parts)
drop_expired_keeps retention_days now parts daily =
    rw (drop_expired-filter_by retention_days now parts daily)
      (since-rows_of (now / day_ms - retention_days) parts daily)
