-- ===== src/Relay/Dates.antt =====
-- The dates that apps/api/src/relay/outbox-cleanup.service.ts computes with, as the language has
-- them: a day is its number, counted from the first of January of year 0, and months count from 0.
pub mod Laws
pub mod Texts
use payments_processor.Common.{
  ℕ, zero, suc, ◌+◌, ◌-◌, ◌*◌, ◌/◌, ◌%◌, Bool, true, false, not, ◌||◌, ◌∷◌, [], ◌++◌, ltb, leb,
  ◌==◌, if◌then◌else◌,
}
use payments_processor.Shared.Money.{Text}

pub record Date : Type 0 where
  pub year : ℕ
  pub month : ℕ
  pub day : ℕ

unfoldable pub is_leap : ℕ → Bool
is_leap y = if not (y % 4 == 0) then false else if not (y % 100 == 0) then true else y % 400 == 0

unfoldable pub days_in_month : ℕ → ℕ → ℕ
unfolding is_leap
days_in_month y m =
    if m == 1
    then (if is_leap y then 29 else 28)
    else if m == 3 || m == 5 || m == 8 || m == 10
    then 30
    else 31

unfoldable pub days_in_year : ℕ → ℕ
unfolding is_leap
days_in_year y = if is_leap y then 366 else 365

unfoldable pub days_before_year : ℕ → ℕ
days_before_year y = 365 * y + (y + 3) / 4 - (y + 99) / 100 + (y + 399) / 400

abbrev pub days_before_month : ℕ → ℕ → ℕ
days_before_month y zero = 0
days_before_month y (suc m) = days_before_month y m + days_in_month y m

-- The year of the day `n` days after the start of year `y`, and the day within it.
unfoldable pub find_year : ℕ → ℕ → ℕ → ℕ × ℕ
find_year zero y n = (y, n)
find_year (suc fuel) y n =
    let later = find_year fuel (y + 1) (n - days_in_year y) in
    if ltb n (days_in_year y) then (y, n) else later

-- The date of the day `n` days after the start of month `m`.
unfoldable pub find_month : ℕ → ℕ → ℕ → ℕ → Date
find_month zero y m n = record { year = y; month = m; day = n + 1 }
find_month (suc fuel) y m n =
    let later = find_month fuel y (suc m) (n - days_in_month y m) in
    if ltb n (days_in_month y m) then record { year = y; month = m; day = n + 1 } else later

-- getUTCFullYear, getUTCMonth and getUTCDate; a year has at least 365 days.
unfoldable pub date_of : ℕ → Date
date_of n = let (y, k) = find_year (n / 365 + 1) 0 n in find_month 11 y 0 k

abbrev pub day_number : ℕ → ℕ → ℕ → ℕ
day_number y m d = days_before_year y + days_before_month y m + d - 1

-- Date.UTC of a year, a month counted from 1, less 1, and a day: years up to 99 are those of the
-- twentieth century, and months and days outside their range carry over.
unfoldable pub utc : ℕ → ℕ → ℕ → ℕ
utc y month d =
    let full = if leb y 99 then 1900 + y else y in
    let months = full * 12 + month - 1 in day_number (months / 12) (months % 12) d

-- The last `width` decimal digits.
abbrev pub fixed : ℕ → ℕ → Text
fixed zero n = []
fixed (suc width) n = fixed width (n / 10) ++ (b'0' + n % 10) ∷ []

abbrev pub iso_year : ℕ → Text
iso_year y = if leb y 9999 then fixed 4 y else b'+' ∷ fixed 6 y

abbrev pub midnight : Text
midnight =
    b'T' ∷ b'0' ∷ b'0' ∷ b':' ∷ b'0' ∷ b'0' ∷ b':' ∷ b'0' ∷ b'0' ∷ b'.' ∷ b'0' ∷ b'0' ∷ b'0' ∷ b'Z'
    ∷ []

-- toISOString of a day's midnight.
unfoldable pub to_iso_string : ℕ → Text
to_iso_string n =
    let t = date_of n in
    iso_year t.year ++ b'-' ∷ fixed 2 (t.month + 1) ++ b'-' ∷ fixed 2 t.day ++ midnight
