-- ===== src/Relay/Dates/Texts.antt =====
-- Numbers in a fixed number of digits, as the texts of days have them.
use payments_processor.Common.{
  ℕ, zero, suc, ◌/◌, ◌<◌, ◌≡◌, refl, ◌∙◌, ap, Bool, not, [], ◌∷◌, ◌++◌, arith, filter_by, ◌==◌,
  filter_by-append,
}
use payments_processor.Relay.Dates.{fixed}
use payments_processor.Shared.Money.Digits.{IsDigits, IsDigits-append}
use payments_processor.Shared.Money.{Text, number_from, number}

pub fixed-IsDigits : (width n : ℕ) → IsDigits (fixed width n)
fixed-IsDigits zero n = tt
fixed-IsDigits (suc width) n =
    IsDigits-append (fixed width (n / 10)) _ (fixed-IsDigits width (n / 10)) (ground arith)

-- Four digits and two digits hold the numbers that they are for.
pub number-fixed_four : (n : ℕ) → n < 10000 → number (fixed 4 n) ≡ n
unfolding number number_from
number-fixed_four n h = omega arith

pub number-fixed_two : (n : ℕ) → n < 100 → number (fixed 2 n) ≡ n
unfolding number number_from
number-fixed_two n h = omega arith

abbrev pub is_kept : ℕ → Bool
is_kept c = not (c == b'-')

pub filter_by_digits : (cs : Text) → IsDigits cs → filter_by is_kept cs ≡ cs
filter_by_digits [] h = refl
filter_by_digits (c ∷ cs) h = ground (arith, filter_by_digits cs h.1)

-- What is left of a date's text without the dashes.
pub filter_by_dashes :
    (xs ys zs : Text)
    → IsDigits xs
    → IsDigits ys
    → IsDigits zs
    → filter_by is_kept (xs ++ (b'-' ∷ (ys ++ (b'-' ∷ zs)))) ≡ xs ++ (ys ++ zs)
filter_by_dashes xs ys zs h k l =
    filter_by-append is_kept xs (b'-' ∷ (ys ++ (b'-' ∷ zs)))
    ∙ rw (filter_by_digits xs h) (
        ap (λ r. xs ++ r)
          (filter_by-append is_kept ys (b'-' ∷ zs)
            ∙ rw (filter_by_digits ys k, filter_by_digits zs l)))
