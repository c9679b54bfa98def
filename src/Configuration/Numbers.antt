-- ===== src/Configuration/Numbers.antt =====
-- `Number` of a text, for apps/api/src/config.ts. A number is exact here, while the language rounds
-- it to a double, so that the two may differ only in how a number compares with a bound that is less
-- than a rounding away.
use Prim.Native.Char.{code}
use Prim.Native.String.{[] as end, ◌∷◌ as ◌then◌}
use payments_processor.Common.{
  ℕ, ◌+◌, ◌-◌, ◌*◌, ◌^◌, Bool, true, false, ◌&&◌, ◌||◌, Option, none, some, [], ◌∷◌, ◌++◌, String,
  ltb, leb, ◌==◌, if◌then◌else◌, length, is_empty, same,
}
use payments_processor.Common.Trimming.{trim}
use payments_processor.Shared.Money.{Text, span_digits, number}

-- The code units of a text without surrogates.
abbrev pub codes : String → Text
codes end = []
codes (c then s) = code c ∷ codes s

-- Not a number, an infinity, or a fraction with its sign.
pub data Num : Type 0 where
  nan : Num
  infinity : (is_negative : Bool) → Num
  fraction : (is_negative : Bool) → (top bottom : ℕ) → Num

abbrev pub of_nat : ℕ → Num
of_nat n = fraction false n 1

abbrev pub is_finite : Num → Bool
is_finite (fraction s n d) = true
is_finite _ = false

-- From here on a number rounds to infinity: halfway from the largest double to 2 ** 1024.
abbrev too_large : ℕ
too_large = 2 ^ 1024 - 2 ^ 970

abbrev rounded : Bool → ℕ → ℕ → Num
rounded s n d = if ltb n (too_large * d) then fraction s n d else infinity s

-- A number in digits, with its sign, the digits of its fraction and its exponent with the sign.
abbrev scaled : Bool → Text → Text → Bool × ℕ → Num
scaled s ds fs (true, e) = rounded s (number (ds ++ fs)) (10 ^ (length fs + e))
scaled s ds fs (false, e) = rounded s (number (ds ++ fs) * 10 ^ e) (10 ^ length fs)

abbrev exponent_digits : Bool → Text × Text → Option (Bool × ℕ)
exponent_digits s ([], rest) = none
exponent_digits s (d ∷ ds, []) = some (s, number (d ∷ ds))
exponent_digits s (d ∷ ds, c ∷ rest) = none

-- After an e: a sign or none, and digits to the end.
unfoldable pub signed_exponent : Text → Option (Bool × ℕ)
signed_exponent [] = none
signed_exponent (c ∷ cs) =
    if c == b'-'
    then exponent_digits true (span_digits cs)
    else if c == b'+'
    then exponent_digits false (span_digits cs)
    else exponent_digits false (span_digits (c ∷ cs))

unfoldable pub exponent : Text → Option (Bool × ℕ)
exponent [] = some (false, 0)
exponent (c ∷ cs) = if c == b'e' || c == b'E' then signed_exponent cs else none

abbrev or_nan : Bool → Text → Text → Option (Bool × ℕ) → Num
or_nan s ds fs none = nan
or_nan s ds fs (some e) = if is_empty ds && is_empty fs then nan else scaled s ds fs e

abbrev with_fraction : Bool → Text → Text × Text → Num
with_fraction s ds (fs, rest) = or_nan s ds fs (exponent rest)

-- What follows the digits before the point.
unfoldable pub after_digits : Bool → Text × Text → Num
after_digits s (ds, []) = or_nan s ds [] (some (false, 0))
after_digits s (ds, c ∷ rest) =
    if c == b'.'
    then with_fraction s ds (span_digits rest)
    else or_nan s ds [] (exponent (c ∷ rest))

abbrev infinity_text : Text
infinity_text = b'I' ∷ b'n' ∷ b'f' ∷ b'i' ∷ b'n' ∷ b'i' ∷ b't' ∷ b'y' ∷ []

abbrev unsigned : Bool → Text → Num
unsigned s cs = if same cs infinity_text then infinity s else after_digits s (span_digits cs)

-- A digit of a base.
abbrev radix_digit : ℕ → Option ℕ
radix_digit c =
    if leb b'0' c && leb c b'9'
    then some (c - b'0')
    else if leb b'a' c && leb c b'f'
    then some (c - b'a' + 10)
    else if leb b'A' c && leb c b'F'
    then some (c - b'A' + 10)
    else none

abbrev digit_below : ℕ → Option ℕ → Bool
digit_below base none = false
digit_below base (some d) = ltb d base

abbrev digit_value : Option ℕ → ℕ
digit_value none = 0
digit_value (some d) = d

unfoldable pub radix_from : ℕ → ℕ → Text → Num
radix_from base acc [] = rounded false acc 1
radix_from base acc (c ∷ cs) =
    let rest = radix_from base (acc * base + digit_value (radix_digit c)) cs in
    if digit_below base (radix_digit c) then rest else nan

abbrev radix : ℕ → Text → Num
radix base [] = nan
radix base (c ∷ cs) = radix_from base 0 (c ∷ cs)

-- The number of a text without spaces around it.
unfoldable pub number_of_trimmed : Text → Num
number_of_trimmed [] = of_nat 0
number_of_trimmed (c ∷ []) = unsigned false (c ∷ [])
number_of_trimmed (c ∷ d ∷ cs) =
    if c == b'0' && (d == b'x' || d == b'X')
    then radix 16 cs
    else if c == b'0' && (d == b'o' || d == b'O')
    then radix 8 cs
    else if c == b'0' && (d == b'b' || d == b'B')
    then radix 2 cs
    else if c == b'-'
    then unsigned true (d ∷ cs)
    else if c == b'+'
    then unsigned false (d ∷ cs)
    else unsigned false (c ∷ d ∷ cs)

unfoldable pub to_number : String → Num
to_number raw = number_of_trimmed (codes (trim raw))

-- n < min and n > max, for a finite number.
abbrev pub is_below : Num → ℕ → Bool
is_below (fraction true n d) min = ltb 0 n || ltb 0 min
is_below (fraction false n d) min = ltb n (min * d)
is_below _ min = false

abbrev pub is_above : Num → ℕ → Bool
is_above (fraction true n d) max = false
is_above (fraction false n d) max = ltb (max * d) n
is_above _ max = false
