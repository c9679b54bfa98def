-- ===== src/Shared/Money/Printing.antt =====
-- Writing amounts, packages/shared/src/index.ts.
use payments_processor.Common.{
  ℕ, suc, ◌+◌, ◌/◌, ◌%◌, ◌^◌, ◌≤◌, ◌<◌, ◌≡◌, refl, ap, ◌∷◌, ◌++◌, arith, length, length-append,
}
use payments_processor.Shared.Money.{
  number, to_text, pad_start, units, max_safe_integer, conv_amount_to_units, conv_units_to_amount,
  pos, negsuc, decimal,
}
use payments_processor.Shared.Money.Digits.{
  number-decimal, decimal-IsDigits, length-decimal, decimal-ne-nil, pad_start-to_text,
}
use payments_processor.Shared.Money.Laws.{Denotes, hundredths, conv_complete}

number-to_text : (n : ℕ) → n < 10 ^ 21 → number (to_text n) ≡ n
unfolding to_text
number-to_text n h = number-decimal 21 n h

written : (n : ℕ) → n ≤ max_safe_integer → Denotes (conv_units_to_amount (pos n)) n
unfolding conv_units_to_amount
written n h =
    let r : ℕ = n % 100 in
    hundredths (to_text (n / 100)) (b'0' + n % 100 / 10) (b'0' + n % 100 % 10)
      (unfold to_text in decimal-IsDigits 21 (n / 100))
      (unfold to_text in decimal-ne-nil 20 (n / 100)) (ground arith) (ground arith)
      (ap (λ t. to_text (n / 100) ++ b'.' ∷ t) (pad_start-to_text (n % 100) (omega arith)))
      (omega (arith, number-to_text (n / 100) (omega arith)))

short_enough : (n : ℕ) → n ≤ max_safe_integer → length (conv_units_to_amount (pos n)) ≤ 20
unfolding conv_units_to_amount to_text
short_enough n h =
    rw (length-append (decimal 21 (n / 100)) (b'.' ∷ pad_start (to_text (n % 100)))) (
      omega (
        arith,
        length-decimal 21 13 (n / 100) (omega arith),
        ap length (pad_start-to_text (n % 100) (omega arith)),
      ))

-- Writing a safe number of cents and reading the text gives the number back.
pub conv_amount_to_units-conv_units_to_amount :
    (n : ℕ) → n ≤ max_safe_integer → conv_amount_to_units (conv_units_to_amount (pos n)) ≡ units n
conv_amount_to_units-conv_units_to_amount n h = conv_complete _ n (written n h) (short_enough n h) h

-- A negative number of cents is written without its sign, like the positive number of the same
-- size.
pub conv_units_to_amount_drops_sign :
    (n : ℕ) → conv_units_to_amount (negsuc n) ≡ conv_units_to_amount (pos (suc n))
unfolding conv_units_to_amount
conv_units_to_amount_drops_sign n = refl
