-- ===== src/Shared/Money/Digits.antt =====
-- Digits and numbers: what `number` reads, `to_text` writes and `span_digits` cuts off, for the
-- amounts of packages/shared/src/index.ts.
use payments_processor.Common.{
  ◌∙◌, ℕ, zero, suc, ◌+◌, ◌-◌, ◌*◌, ◌/◌, ◌%◌, ◌^◌, ◌≤◌, ◌<◌, ◌≡◌, ◌≢◌, inl, inr, refl, ap, true,
  false, [], ◌∷◌, ◌++◌, arith, length, All, ltb, Bool-cases, length-append,
}
use payments_processor.Shared.Money.{
  Text, is_digit, span_digits, number_from, number, decimal, to_text, pad_start,
}
use native.Mathlib.Nat.{pow-suc}

abbrev pub IsDigit : ℕ → Type 0
IsDigit c = is_digit c ≡ true

abbrev pub IsDigits : Text → Type 0
IsDigits = All IsDigit

pub IsDigits-append : (xs ys : Text) → IsDigits xs → IsDigits ys → IsDigits (xs ++ ys)
IsDigits-append [] ys h k = k
IsDigits-append (x ∷ xs) ys h k = (h.0, IsDigits-append xs ys h.1 k)

number_from-append :
    (acc : ℕ) (xs : Text) (d : ℕ)
    → number_from acc (xs ++ d ∷ []) ≡ number_from acc xs * 10 + (d - b'0')
unfolding number_from
number_from-append acc [] d = refl
number_from-append acc (x ∷ xs) d = number_from-append (acc * 10 + (x - b'0')) xs d

pub number-append : (xs : Text) (d : ℕ) → number (xs ++ d ∷ []) ≡ number xs * 10 + (d - b'0')
unfolding number
number-append xs d = number_from-append 0 xs d

pub decimal_small : (f n : ℕ) → n < 10 → decimal (suc f) n ≡ (b'0' + n) ∷ []
unfolding decimal
decimal_small f n h = ground arith

pub decimal_large :
    (f n : ℕ) → 10 ≤ n → decimal (suc f) n ≡ decimal f (n / 10) ++ (b'0' + n % 10) ∷ []
unfolding decimal
decimal_large f n h = ground arith

number_digit : (n : ℕ) → n < 10 → number ((b'0' + n) ∷ []) ≡ n
unfolding number
number_digit n h = omega arith

-- With room for the digits, reading what was written gives the number back.
pub number-decimal : (f n : ℕ) → n < 10 ^ f → number (decimal f n) ≡ n
number-decimal zero n h = unfold number decimal number_from in (let e : n ≡ 0 = omega arith in rw e)
number-decimal (suc f) n h = elim (Bool-cases (ltb n 10)) [
  | inl small ↦ rw (decimal_small f n (ground arith)) (number_digit n (ground arith))
  | inr large ↦
      let room : n < 10 ^ f * 10 = rw pow-suc at h in
      rw (decimal_large f n (ground arith))
        (rw number-append (omega (arith, number-decimal f (n / 10) (omega arith))))
]

pub decimal-IsDigits : (f n : ℕ) → IsDigits (decimal f n)
decimal-IsDigits zero n = unfold decimal in tt
decimal-IsDigits (suc f) n = elim (Bool-cases (ltb n 10)) [
  | inl small ↦ rw (decimal_small f n (ground arith)) (ground arith)
  | inr large ↦
      rw (decimal_large f n (ground arith))
        (IsDigits-append (decimal f (n / 10)) _ (decimal-IsDigits f (n / 10)) (ground arith))
]

-- A number below 10 ^ (k + 1) is written with at most k + 1 digits.
pub length-decimal : (f k n : ℕ) → n < 10 ^ suc k → length (decimal f n) ≤ suc k
length-decimal zero k n h = unfold decimal in (omega arith)
length-decimal (suc f) zero n h =
    let few : n < 10 = omega arith in rw (decimal_small f n few) (omega arith)
length-decimal (suc f) (suc k) n h = elim (Bool-cases (ltb n 10)) [
  | inl small ↦ rw (decimal_small f n (ground arith)) (omega arith)
  | inr large ↦
      let room : n < 10 ^ suc k * 10 = rw pow-suc at h in
      rw (decimal_large f n (ground arith))
        (rw length-append (omega (arith, length-decimal f k (n / 10) (omega arith))))
]

append-ne-nil : (xs : Text) (d : ℕ) → xs ++ d ∷ [] ≢ []
append-ne-nil [] d = cc
append-ne-nil (x ∷ xs) d = cc

pub decimal-ne-nil : (f n : ℕ) → decimal (suc f) n ≢ []
decimal-ne-nil f n = elim (Bool-cases (ltb n 10)) [
  | inl small ↦ rw (decimal_small f n (ground arith)) (cc)
  | inr large ↦ rw (decimal_large f n (ground arith)) (append-ne-nil (decimal f (n / 10)) _)
]

two_digits : (r : ℕ) → 10 ≤ r → r < 100 → to_text r ≡ (b'0' + r / 10) ∷ (b'0' + r % 10) ∷ []
unfolding to_text
two_digits r h k =
    decimal_large 20 r h
    ∙ ap (λ xs. xs ++ (b'0' + r % 10) ∷ []) (decimal_small 19 (r / 10) (omega arith))

one_digit : (r : ℕ) → r < 10 → to_text r ≡ (b'0' + r) ∷ []
unfolding to_text
one_digit r h = decimal_small 20 r h

-- The cents, always in two digits.
pub pad_start-to_text :
    (r : ℕ) → r < 100 → pad_start (to_text r) ≡ (b'0' + r / 10) ∷ (b'0' + r % 10) ∷ []
unfolding pad_start
pad_start-to_text r h = elim (Bool-cases (ltb r 10)) [
  | inl small ↦ rw (one_digit r (ground arith)) (ground arith)
  | inr large ↦ rw (two_digits r (ground arith) h)
]

-- The longest run of digits, when something else follows it.
pub span_digits-append :
    (ds : Text) (p : ℕ) (rest : Text)
    → IsDigits ds
    → is_digit p ≡ false
    → span_digits (ds ++ p ∷ rest) ≡ (ds, p ∷ rest)
unfolding span_digits
span_digits-append [] p rest h e = ground arith
span_digits-append (d ∷ ds) p rest h e = ground (arith, span_digits-append ds p rest h.1 e)

pub span_digits_all : (ds : Text) → IsDigits ds → span_digits ds ≡ (ds, [])
unfolding span_digits
span_digits_all [] h = refl
span_digits_all (d ∷ ds) h = ground (arith, span_digits_all ds h.1)

pub span_digits_sound :
    (s : Text) → IsDigits (span_digits s).0 × (s ≡ (span_digits s).0 ++ (span_digits s).1)
unfolding span_digits
span_digits_sound [] = (tt, refl)
span_digits_sound (c ∷ cs) = ground (arith, span_digits_sound cs)
