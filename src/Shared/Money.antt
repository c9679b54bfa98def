-- ===== src/Shared/Money.antt =====
-- Amounts of money, packages/shared/src/index.ts: decimal text to whole cents and back. A text
-- is the list of its UTF-16 code units.
pub mod Digits
pub mod Laws
pub mod Printing
use payments_processor.Common.{
  ℕ, zero, suc, ◌+◌, ◌-◌, ◌*◌, ◌/◌, ◌%◌, Bool, true, false, ◌&&◌, Option, none, some, List, [], ◌∷◌,
  ◌++◌, ltb, leb, ◌==◌, if◌then◌else◌, length, is_empty,
}

abbrev pub Text : Type 0
Text = List ℕ

-- Number.MAX_SAFE_INTEGER, 2 ** 53 - 1.
abbrev pub max_safe_integer : ℕ
max_safe_integer = 9_007_199_254_740_991

pub data AmountError : Type 0 where
  too_long invalid_format unsafe : AmountError

pub data Amount : Type 0 where
  units : ℕ → Amount
  throws : AmountError → Amount

-- `\d`, which is ASCII only.
abbrev pub is_digit : ℕ → Bool
is_digit c = leb b'0' c && leb c b'9'

-- The greedy `\d+` from the start of the text: the digits and the rest.
unfoldable pub span_digits : Text → Text × Text
span_digits [] = ([], [])
span_digits (c ∷ cs) =
    let (ds, rest) = span_digits cs in if is_digit c then (c ∷ ds, rest) else ([], c ∷ cs)

-- `(?:\.(\d{1,2}))?$`: what may follow the dollars. The inner option is the group of the cents.
unfoldable pub match_cents : Text → Option (Option Text)
match_cents [] = some none
match_cents (p ∷ []) = none
match_cents (p ∷ c ∷ []) = if p == b'.' && is_digit c then some (some (c ∷ [])) else none
match_cents (p ∷ c ∷ d ∷ []) =
    if p == b'.' && is_digit c && is_digit d then some (some (c ∷ d ∷ [])) else none
match_cents (p ∷ c ∷ d ∷ e ∷ cs) = none

abbrev pub with_dollars : Text → Option (Option Text) → Option (Text × Option Text)
with_dollars ds none = none
with_dollars ds (some cents) = if is_empty ds then none else some (ds, cents)

-- amount.match(/^(\d+)(?:\.(\d{1,2}))?$/)
unfoldable pub match_amount : Text → Option (Text × Option Text)
unfolding span_digits match_cents
match_amount amount = let (ds, rest) = span_digits amount in with_dollars ds (match_cents rest)

-- `Number` of a text of digits, exactly; see `conv_amount_to_units` for the rounding.
unfoldable pub number_from : ℕ → Text → ℕ
number_from acc [] = acc
number_from acc (c ∷ cs) = number_from (acc * 10 + (c - b'0')) cs

unfoldable pub number : Text → ℕ
unfolding number_from
number cs = number_from 0 cs

-- (cents ?? '').padEnd(2, '0')
unfoldable pub pad_cents : Option Text → Text
pad_cents none = b'0' ∷ b'0' ∷ []
pad_cents (some []) = b'0' ∷ b'0' ∷ []
pad_cents (some (c ∷ [])) = c ∷ b'0' ∷ []
pad_cents (some (c ∷ d ∷ cs)) = c ∷ d ∷ cs

abbrev pub check_safe : ℕ → Amount
check_safe res = if leb res max_safe_integer then units res else throws unsafe

abbrev pub of_match : Option (Text × Option Text) → Amount
of_match none = throws invalid_format
of_match (some (dollars, cents)) = check_safe (number dollars * 100 + number (pad_cents cents))

-- The doubles of the source are exact up to 2 ** 53, and rounding is monotone, so its test of
-- `res` fails exactly when the exact value is above the safe range.
unfoldable pub conv_amount_to_units : Text → Amount
conv_amount_to_units amount =
    if ltb 20 (length amount) then throws too_long else of_match (match_amount amount)

-- An integer: `negsuc n` is -(n + 1).
pub data ℤ : Type 0 where
  pos : ℕ → ℤ
  negsuc : ℕ → ℤ

-- Math.abs
abbrev pub abs : ℤ → ℕ
abs (pos n) = n
abs (negsuc n) = suc n

-- The decimal digits of a number, most significant first, with room for `fuel` of them.
unfoldable pub decimal : ℕ → ℕ → Text
decimal zero n = []
decimal (suc fuel) n =
    let more = decimal fuel (n / 10) ++ (b'0' + n % 10) ∷ [] in
    if ltb n 10 then (b'0' + n) ∷ [] else more

-- `toString` of a whole number below 10 ** 21, which has at most 21 digits.
unfoldable pub to_text : ℕ → Text
unfolding decimal
to_text n = decimal 21 n

-- rem.toString().padStart(2, '0')
unfoldable pub pad_start : Text → Text
pad_start [] = b'0' ∷ b'0' ∷ []
pad_start (c ∷ []) = b'0' ∷ c ∷ []
pad_start (c ∷ d ∷ cs) = c ∷ d ∷ cs

-- The argument is an integer, so the test of `Number.isInteger` passes.
unfoldable pub conv_units_to_amount : ℤ → Text
unfolding to_text pad_start
conv_units_to_amount cents =
    let val = abs cents in to_text (val / 100) ++ b'.' ∷ pad_start (to_text (val % 100))
