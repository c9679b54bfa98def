-- ===== src/Relay/Dates/Laws.antt =====
-- The day numbers of apps/api/src/relay/outbox-cleanup.service.ts: years and months as blocks of
-- days, and the walks over them.
use payments_processor.Common.{
  ℕ, zero, suc, ◌+◌, ◌-◌, ◌*◌, ◌/◌, ◌%◌, ◌≤◌, ◌<◌, ◌≡◌, refl, sym, ◌∙◌, inl, inr, arith, ltb, leb,
  if◌then◌else◌, Bool-cases,
}
use mathlib.Core.Path.{subst}
use payments_processor.Relay.Dates.{
  Date, is_leap, days_in_month, days_in_year, days_before_year, days_before_month, find_year,
  find_month, date_of, day_number, utc,
}

pub record IsDate (t : Date) : Type 0 where
  pub month_in : t.month < 12
  pub day_in : (1 ≤ t.day) × (t.day ≤ days_in_month t.year t.month)

days_before_year-suc : (y : ℕ) → days_before_year (suc y) ≡ days_before_year y + days_in_year y
unfolding days_before_year days_in_year is_leap
days_before_year-suc y = ground arith

year_zero : days_before_year 0 ≡ 0
unfolding days_before_year
year_zero = refl

twelve_months : (y : ℕ) → days_before_month y 12 ≡ days_in_year y
unfolding days_in_month days_in_year
twelve_months y = ground arith

days_in_year-le : (y : ℕ) → 365 ≤ days_in_year y
unfolding days_in_year is_leap
days_in_year-le y = ground arith

-- What the walk over the years finds: the year and the day within it.
record IsYearOf (n : ℕ) (found : ℕ × ℕ) : Type 0 where
  inside : found.1 < days_in_year found.0
  sums : days_before_year found.0 + found.1 ≡ n

find_year-IsYearOf :
    (fuel y n : ℕ) → n < 365 * fuel → IsYearOf (days_before_year y + n) (find_year fuel y n)
unfolding find_year
find_year-IsYearOf zero y n h = absurd (omega (arith, h))
find_year-IsYearOf (suc fuel) y n h = elim (Bool-cases (ltb n (days_in_year y))) [
  | inl here ↦ record { inside = ground arith; sums = ground arith }
  | inr later ↦
      let rest =
        find_year-IsYearOf fuel (y + 1) (n - days_in_year y) (ground (arith, days_in_year-le y)) in
      record {
        inside = ground (arith, rest.inside);
        sums = ground (arith, rest.sums, days_before_year-suc y);
      }
]

module _ (y : ℕ) where
  -- What the walk over the months finds.
  record IsMonthOf (n : ℕ) (t : Date) : Type 0 where
    year_is : t.year ≡ y
    is_date : IsDate t
    sums : days_before_month y t.month + t.day ≡ n + 1

  find_month-IsMonthOf :
      (fuel m n : ℕ)
      → m + fuel ≡ 11
      → days_before_month y m + n < days_in_year y
      → IsMonthOf (days_before_month y m + n) (find_month fuel y m n)
  unfolding find_month
  find_month-IsMonthOf zero m n h k =
      let last : m ≡ 11 = omega arith in
      record {
        year_is = refl;
        is_date = record {
          month_in = omega arith;
          day_in =
              subst (λ j. (1 ≤ n + 1) × (n + 1 ≤ days_in_month y j)) (sym last)
                (omega (arith, twelve_months y, rw last at k));
        };
        sums = omega arith;
      }
  find_month-IsMonthOf (suc fuel) m n h k = elim (Bool-cases (ltb n (days_in_month y m))) [
    | inl here ↦ record {
      year_is = ground arith;
      is_date = record { month_in = ground arith; day_in = ground arith };
      sums = ground arith;
    }
    | inr later ↦
        let before : days_before_month y (suc m) + (n - days_in_month y m)
            ≡ days_before_month y m + n =
          ground arith in
        rw later (
          subst (λ total. IsMonthOf total (find_month fuel y (suc m) (n - days_in_month y m)))
            before
            (find_month-IsMonthOf fuel (suc m) (n - days_in_month y m) (omega arith) (rw before k)))
  ]

-- The date of every day is a date of the calendar, and has that day's number: the walks end.
pub date_of-day_number :
    (n : ℕ)
    → IsDate (date_of n) × (day_number (date_of n).year (date_of n).month (date_of n).day ≡ n)
unfolding date_of
date_of-day_number n =
    let at_year = find_year-IsYearOf (n / 365 + 1) 0 n (omega arith) in
    let t =
      find_month-IsMonthOf (find_year (n / 365 + 1) 0 n).0 11 0 (find_year (n / 365 + 1) 0 n).1
        (omega arith) (omega (arith, at_year.inside)) in
    (t.is_date, rw t.year_is (omega (arith, t.sums, at_year.sums, year_zero)))

-- The days of the years from 100 to 9999: those years are written with four digits, and Date.UTC
-- leaves them as they are.
abbrev pub IsWritten : ℕ → Type 0
IsWritten n = (36525 ≤ n) × (n < 3652425)

pub date_of-year : (n : ℕ) → IsWritten n → (100 ≤ (date_of n).year) × ((date_of n).year ≤ 9999)
unfolding date_of days_before_year
date_of-year n h =
    let at_year = find_year-IsYearOf (n / 365 + 1) 0 n (omega arith) in
    let y = (find_year (n / 365 + 1) 0 n).0 in
    let t =
      find_month-IsMonthOf y 11 0 (find_year (n / 365 + 1) 0 n).1 (omega arith)
        (omega (arith, at_year.inside)) in
    rw t.year_is (omega (arith, at_year.sums, at_year.inside, days_before_year-suc y))

utc_written : (y m d : ℕ) → 100 ≤ y → m < 12 → utc y (m + 1) d ≡ day_number y m d
unfolding utc
utc_written y m d h k =
    let full : (if leb y 99 then 1900 + y else y) ≡ y = ground arith in
    let year_of : (y * 12 + (m + 1) - 1) / 12 ≡ y = omega arith in
    let month_of : (y * 12 + (m + 1) - 1) % 12 ≡ m = omega arith in rw (full, year_of, month_of)

-- Date.UTC of the parts of a date is the number of its day.
pub utc-date_of :
    (n : ℕ) → IsWritten n → utc (date_of n).year ((date_of n).month + 1) (date_of n).day ≡ n
utc-date_of n h =
    utc_written _ _ _ (date_of-year n h).0 (date_of-day_number n).0.month_in
    ∙ (date_of-day_number n).1
