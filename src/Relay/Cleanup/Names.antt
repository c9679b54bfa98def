-- ===== src/Relay/Cleanup/Names.antt =====
-- The names of the partitions of apps/api/src/relay/outbox-cleanup.service.ts: writing the day into
-- one, and reading it back.
use payments_processor.Common.{ℕ, ◌+◌, ◌≤◌, ◌≡◌, sym, ◌∙◌, ap, some, ◌++◌, arith}
use payments_processor.Relay.Cleanup.{
  iso_day, name_prefix, partition_name, strip_prefix, match_name, day_of_match,
}
use payments_processor.Relay.Dates.Laws.{date_of-day_number, IsWritten, date_of-year, utc-date_of}
use payments_processor.Relay.Dates.Texts.{
  fixed-IsDigits, number-fixed_four, number-fixed_two, filter_by_dashes,
}
use payments_processor.Relay.Dates.{date_of, days_in_month, fixed, iso_year, to_iso_string}

-- The name of a day's partition is its year, month and day in eight digits.
pub partition_name-fixed :
    (n : ℕ)
    → IsWritten n
    → partition_name n
      ≡ name_prefix
        ++ fixed 4 (date_of n).year
        ++ fixed 2 ((date_of n).month + 1)
        ++ fixed 2 (date_of n).day
unfolding partition_name iso_day to_iso_string
partition_name-fixed n h =
    let four : iso_year (date_of n).year ≡ fixed 4 (date_of n).year =
      ground (arith, date_of-year n h) in
    rw four (
      ap (λ r. name_prefix ++ r)
        (filter_by_dashes (fixed 4 (date_of n).year) (fixed 2 ((date_of n).month + 1))
          (fixed 2 (date_of n).day) (fixed-IsDigits 4 (date_of n).year)
          (fixed-IsDigits 2 ((date_of n).month + 1)) (fixed-IsDigits 2 (date_of n).day)))

-- The name of a day's partition matches, and the groups are the parts of the date.
pub match_name-partition_name :
    (n : ℕ)
    → IsWritten n
    → match_name (partition_name n)
      ≡ some (fixed 4 (date_of n).year, (fixed 2 ((date_of n).month + 1), fixed 2 (date_of n).day))
unfolding match_name strip_prefix
match_name-partition_name n h = rw (partition_name-fixed n h) (ground arith)

days_in_month-le : (y m : ℕ) → days_in_month y m ≤ 31
unfolding days_in_month
days_in_month-le y m = ground arith

-- The name that is written for a day of the years 100 to 9999 is read as that day.
pub day_of_match-partition_name :
    (n : ℕ) → IsWritten n → day_of_match (match_name (partition_name n)) ≡ some n
day_of_match-partition_name n h =
    let t = (date_of-day_number n).0 in
    rw
      (
        match_name-partition_name n h,
        number-fixed_four (date_of n).year (omega (arith, date_of-year n h)),
        number-fixed_two ((date_of n).month + 1) (omega (arith, t.month_in)),
        number-fixed_two (date_of n).day
            (omega (arith, t.day_in, days_in_month-le (date_of n).year (date_of n).month)),
      )
      (ap some (utc-date_of n h))

pub partition_name_inj :
    (a b : ℕ) → IsWritten a → IsWritten b → partition_name a ≡ partition_name b → a ≡ b
partition_name_inj a b h k e =
    let read : some a ≡ some b =
      sym (day_of_match-partition_name a h)
      ∙ ap (λ name. day_of_match (match_name name)) e
      ∙ day_of_match-partition_name b k in
    cc
