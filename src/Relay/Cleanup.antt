-- ===== src/Relay/Cleanup.antt =====
-- The upkeep of the outbox's partitions, apps/api/src/relay/outbox-cleanup.service.ts. A partition
-- holds the rows created on the days that it is for; here a row is the time of its creation, in
-- milliseconds from the start of year 0. `config.relay.outboxRetentionDays` is an argument, and so
-- are the times that each call of `new Date()` reads.
pub mod Blocked
pub mod Dropping
pub mod Ensuring
pub mod Names
pub mod Running
mod Tests
pub mod Upkeep
use payments_processor.Common.{
  ℕ, zero, suc, ◌+◌, ◌-◌, ◌*◌, ◌/◌, ◌%◌, Bool, true, false, not, ◌&&◌, ◌||◌, Option, none, some,
  List, [], ◌∷◌, ◌++◌, ltb, leb, ◌==◌, if◌then◌else◌, length, take, drop, all, filter_by, map, any,
  same,
}
use payments_processor.Relay.Dates.{utc, to_iso_string}
use payments_processor.Shared.Money.{Text, is_digit, number}

abbrev pub ahead_days : ℕ
ahead_days = 7

abbrev pub day_ms : ℕ
day_ms = 86_400_000

-- utcDay: the day of a reading of the clock, moved by a number of days.
unfoldable pub utc_day : ℕ → ℕ → ℕ
utc_day now offset_days = now / day_ms + offset_days

-- utcDay of a negative offset. The clock is past year 0 by more than the retention.
unfoldable pub utc_day_ago : ℕ → ℕ → ℕ
utc_day_ago now days = now / day_ms - days

unfoldable pub iso_day : ℕ → Text
unfolding to_iso_string
iso_day day = take 10 (to_iso_string day)

-- 'outbox_p'
abbrev pub name_prefix : Text
name_prefix = b'o' ∷ b'u' ∷ b't' ∷ b'b' ∷ b'o' ∷ b'x' ∷ b'_' ∷ b'p' ∷ []

unfoldable pub partition_name : ℕ → Text
unfolding iso_day
partition_name day = name_prefix ++ filter_by (λ c. not (c == b'-')) (iso_day day)

-- FOR VALUES FROM one midnight TO another, or DEFAULT.
pub data Bound : Type 0 where
  range : ℕ → ℕ → Bound
  default : Bound

pub record Partition : Type 0 where
  pub name : Text
  pub bound : Bound
  pub rows : List ℕ

abbrev pub is_within : ℕ → ℕ → ℕ → Bool
is_within from to created_at = leb (from * day_ms) created_at && ltb created_at (to * day_ms)

-- Postgres refuses a range that meets another's, or that a row of the default partition is in.
abbrev pub conflicts : ℕ → ℕ → Bound → List ℕ → Bool
conflicts from to (range a b) rows = ltb from b && ltb a to
conflicts from to default rows = any (is_within from to) rows

abbrev pub new_partition : ℕ → ℕ → Partition
new_partition from to = record { name = partition_name from; bound = range from to; rows = [] }

-- CREATE TABLE IF NOT EXISTS ... PARTITION OF "outbox"
unfoldable pub create_partition : ℕ → ℕ → List Partition → Option (List Partition)
create_partition from to parts =
    if any (λ p. same p.name (partition_name from)) parts
    then some parts
    else if any (λ p. conflicts from to p.bound p.rows) parts
    then none
    else some (parts ++ new_partition from to ∷ [])

-- The partitions there are when a statement fails, which ends `ensurePartitions`, or at its end.
pub data Ensured : Type 0 where
  ensured : List Partition → Ensured
  broken : List Partition → Ensured

abbrev pub after_creating :
    List Partition → Option (List Partition) → (List Partition → Ensured) → Ensured
after_creating parts none rest = broken parts
after_creating parts (some more) rest = rest more

-- The rest of the loop from `i`, with `left` rounds to go. Both calls of `utcDay` read the clock.
unfoldable pub ensure_from : (ℕ → ℕ) → ℕ → ℕ → List Partition → Ensured
ensure_from clock zero i parts = ensured parts
ensure_from clock (suc left) i parts =
    let from = utc_day (clock (2 * i)) i in
    let to = utc_day (clock (2 * i + 1)) (i + 1) in
    after_creating parts (create_partition from to parts) (ensure_from clock left (i + 1))

unfoldable pub ensure_partitions : (ℕ → ℕ) → List Partition → Ensured
unfolding ensure_from
ensure_partitions clock parts = ensure_from clock (ahead_days + 1) 0 parts

-- What follows a text that starts with the given one.
unfoldable pub strip_prefix : Text → Text → Option Text
strip_prefix [] cs = some cs
strip_prefix (p ∷ ps) [] = none
strip_prefix (p ∷ ps) (c ∷ cs) = if p == c then strip_prefix ps cs else none

-- (\d{4})(\d{2})(\d{2})$
abbrev pub match_groups : Option Text → Option (Text × (Text × Text))
match_groups none = none
match_groups (some cs) =
    if length cs == 8 && all is_digit cs
    then some (take 4 cs, (take 2 (drop 4 cs), drop 6 cs))
    else none

-- /^outbox_p(\d{4})(\d{2})(\d{2})$/.exec(part.name)
unfoldable pub match_name : Text → Option (Text × (Text × Text))
unfolding strip_prefix
match_name name = match_groups (strip_prefix name_prefix name)

-- new Date(Date.UTC(Number(m[1]), Number(m[2]) - 1, Number(m[3])))
abbrev pub day_of_match : Option (Text × (Text × Text)) → Option ℕ
day_of_match none = none
day_of_match (some (y, (m, d))) = some (utc (number y) (number m) (number d))

abbrev pub is_before : ℕ → Option ℕ → Bool
is_before cutoff none = false
is_before cutoff (some day) = ltb day cutoff

-- day < cutoff, for a name that matches.
unfoldable pub is_expired : ℕ → Text → Bool
unfolding match_name
is_expired cutoff name = is_before cutoff (day_of_match (match_name name))

-- DROP TABLE IF EXISTS
abbrev pub drop_table : Text → List Partition → List Partition
drop_table name parts = filter_by (λ p. not (same p.name name)) parts

abbrev pub drop_each : ℕ → List Text → List Partition → List Partition
drop_each cutoff [] parts = parts
drop_each cutoff (name ∷ names) parts =
    drop_each cutoff names (if is_expired cutoff name then drop_table name parts else parts)

unfoldable pub drop_expired : ℕ → ℕ → List Partition → List Partition
drop_expired retention_days now parts =
    drop_each (utc_day_ago now retention_days) (map (λ p. p.name) parts) parts

abbrev pub after_ensuring : ℕ → ℕ → Ensured → List Partition
after_ensuring retention_days now (ensured parts) = drop_expired retention_days now parts
after_ensuring retention_days now (broken parts) = parts

-- An error is caught and left; `dropExpired` reads the clock after the 16 readings before it.
unfoldable pub tick : ℕ → (ℕ → ℕ) → List Partition → List Partition
tick retention_days clock parts =
    after_ensuring retention_days (clock 16) (ensure_partitions clock parts)

-- Where Postgres puts a new row: in the partition for its time, else in the default one.
abbrev pub is_home : ℕ → Bound → Bool
is_home created_at (range from to) = is_within from to created_at
is_home created_at default = false
