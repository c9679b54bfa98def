-- ===== src/Shared/Tests.antt =====
-- Runs of the functions of packages/shared/src/index.ts, and the laws at concrete inputs.
use payments_processor.Common.{◌≡◌, ◌↔◌, ◌≤◌, refl, [], ◌∷◌, length, arith}
use payments_processor.Shared.Money.{
  Text, pos, units, throws, invalid_format, match_amount, number, pad_cents, max_safe_integer,
  conv_amount_to_units, conv_units_to_amount,
}
use payments_processor.Shared.Money.Laws.{Denotes, conv_amount_to_units_iff}
use payments_processor.Shared.Money.Printing.{conv_amount_to_units-conv_units_to_amount}

abbrev ten_fifty : Text
ten_fifty = b'1' ∷ b'0' ∷ b'.' ∷ b'5' ∷ []

conv_tests :
    (conv_amount_to_units ten_fifty ≡ units 1050)
    × (conv_amount_to_units (b'.' ∷ b'5' ∷ []) ≡ throws invalid_format)
    × (conv_units_to_amount (pos 1050) ≡ b'1' ∷ b'0' ∷ b'.' ∷ b'5' ∷ b'0' ∷ [])
unfolding conv_amount_to_units match_amount number pad_cents conv_units_to_amount
conv_tests = (refl, refl, refl)

conv_amount_to_units_iff_example :
    (conv_amount_to_units ten_fifty ≡ units 1050)
    ↔ (Denotes ten_fifty 1050 × (length ten_fifty ≤ 20) × (1050 ≤ max_safe_integer))
conv_amount_to_units_iff_example = conv_amount_to_units_iff ten_fifty 1050

safe : 1050 ≤ max_safe_integer
safe = omega arith

conv_amount_to_units-conv_units_to_amount_example :
    conv_amount_to_units (conv_units_to_amount (pos 1050)) ≡ units 1050
conv_amount_to_units-conv_units_to_amount_example =
    conv_amount_to_units-conv_units_to_amount 1050 safe
