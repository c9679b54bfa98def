-- ===== src/Relay/Cleanup/Tests.antt =====
-- The laws of apps/api/src/relay/outbox-cleanup.service.ts at concrete inputs.
use payments_processor.Common.{
  ℕ, ◌+◌, ◌-◌, ◌*◌, ◌≤◌, ◌<◌, ◌≡◌, refl, some, List, [], ◌∷◌, arith, All,
}
use payments_processor.Relay.Cleanup.Blocked.{tick_blocked}
use payments_processor.Relay.Cleanup.Ensuring.{IsClear, homes, IsTable, all_added}
use payments_processor.Relay.Cleanup.Names.{day_of_match-partition_name}
use payments_processor.Relay.Cleanup.Running.Laws.{IsEmptyDefault, run-IsEmptyDefault}
use payments_processor.Relay.Cleanup.Running.{Event, ticks, inserts, run, Steady, ends, row, upkeep}
use payments_processor.Relay.Cleanup.Upkeep.{tick_keeps}
use payments_processor.Relay.Cleanup.{
  day_ms, default, Partition, new_partition, partition_name, match_name, day_of_match, strip_prefix,
  tick, iso_day,
}
use payments_processor.Relay.Dates.Laws.{IsDate, date_of-day_number, IsWritten}
use payments_processor.Relay.Dates.{
  date_of, day_number, find_year, find_month, days_in_year, days_in_month, is_leap, to_iso_string,
}

-- 2026-11-26
abbrev today : ℕ
today = 740_311

date_of-today :
    (date_of today).year * 10_000 + (date_of today).month * 100 + (date_of today).day ≡ 20_261_026
unfolding date_of find_year find_month days_in_year days_in_month is_leap
date_of-today = refl

-- outbox_p20261126
name_of_today :
    partition_name today
    ≡ b'o' ∷ b'u' ∷ b't' ∷ b'b' ∷ b'o' ∷ b'x' ∷ b'_' ∷ b'p' ∷ b'2' ∷ b'0' ∷ b'2' ∷ b'6' ∷ b'1'
      ∷ b'1' ∷ b'2' ∷ b'6' ∷ []
unfolding partition_name iso_day to_iso_string date_of find_year find_month days_in_year
name_of_today = unfold days_in_month is_leap in refl

date_of-day_number_example :
    IsDate (date_of today)
    × (day_number (date_of today).year (date_of today).month (date_of today).day ≡ today)
date_of-day_number_example = date_of-day_number today

today-IsWritten : IsWritten today
today-IsWritten = (omega arith, omega arith)

day_of_match-partition_name_example : day_of_match (match_name (partition_name today)) ≡ some today
day_of_match-partition_name_example = day_of_match-partition_name today today-IsWritten

-- 'outbox_default'
abbrev default_partition : List ℕ → Partition
default_partition rows = record {
  name =
      b'o' ∷ b'u' ∷ b't' ∷ b'b' ∷ b'o' ∷ b'x' ∷ b'_' ∷ b'd' ∷ b'e' ∷ b'f' ∷ b'a' ∷ b'u' ∷ b'l'
      ∷ b't' ∷ [];
  bound = default;
  rows = rows;
}

-- A partition of three weeks ago, and one of today with a row.
abbrev table : List Partition
table =
    default_partition []
    ∷ new_partition (today - 21) (today - 21 + 1)
    ∷ record (new_partition today (today + 1)) { rows = (today * day_ms + 5) ∷ [] }
    ∷ []

table-IsTable : IsTable table
unfolding match_name strip_prefix
table-IsTable = record {
  daily = (
    refl,
    ((refl, refl, (omega arith, omega arith), tt), ((refl, refl, today-IsWritten, (refl, tt)), tt)),
  );
  apart = λ x. ground arith;
}

abbrev clock : ℕ → ℕ
clock k = today * day_ms + 1000

tick_keeps_example : homes (today + 7) (tick 7 clock table) ≡ 1
tick_keeps_example =
    (tick_keeps clock today (λ k. refl) 7 table (omega arith) (omega arith) table-IsTable
        (λ x lo hi. (refl, (tt, (tt, tt))))).0
      (today + 7) (omega arith) (omega arith)

-- A row of tomorrow is in the default partition.
abbrev spilt_table : List Partition
spilt_table =
    default_partition (((today + 1) * day_ms + 5) ∷ [])
    ∷ new_partition (today - 21) (today - 21 + 1)
    ∷ []

spilt_table-IsTable : IsTable spilt_table
unfolding match_name strip_prefix
spilt_table-IsTable = record {
  daily = (refl, ((refl, refl, (omega arith, omega arith), tt), tt));
  apart = λ x. ground arith;
}

nothing_spilt : (x : ℕ) → today ≤ x → x < today + 1 → All (IsClear x) spilt_table
nothing_spilt x lo hi = (ground arith, (tt, tt))

tick_blocked_example : tick 7 clock spilt_table ≡ all_added 1 today spilt_table
tick_blocked_example =
    tick_blocked clock today (λ k. refl) 7 1 spilt_table (omega arith) (omega arith) (omega arith)
      spilt_table-IsTable nothing_spilt refl refl

-- A row of today, a tick a week on, and a row of the week after that.
abbrev later_clock : ℕ → ℕ
later_clock k = (today + 7) * day_ms + 1000

abbrev three_events : List Event
three_events =
    inserts (today * day_ms + 2000) ∷ ticks later_clock ∷ inserts ((today + 14) * day_ms + 7) ∷ []

three_events-Steady : Steady today three_events
three_events-Steady = row (today * day_ms + 2000) (omega arith) (omega arith) (
    upkeep later_clock (today + 7) (λ k. refl) (omega arith) (omega arith)
      (row ((today + 14) * day_ms + 7) (omega arith) (omega arith) ends))

run-IsEmptyDefault_example :
    IsTable (run 7 three_events (tick 7 clock table))
    × All IsEmptyDefault (run 7 three_events (tick 7 clock table))
run-IsEmptyDefault_example =
    run-IsEmptyDefault 7 clock today three_events table (λ k. refl) (omega arith) (omega arith)
      table-IsTable (refl, (tt, (tt, tt))) three_events-Steady
