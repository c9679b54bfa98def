-- ===== src/Shared/Money/Laws.antt =====
-- Reading amounts, packages/shared/src/index.ts.
use payments_processor.Common.{
  ◌∙◌, ℕ, ◌+◌, ◌-◌, ◌*◌, ◌≤◌, ◌≡◌, ◌≢◌, ◌↔◌, inl, inr, refl, sym, ap, Option, none, some, [], ◌∷◌,
  ◌++◌, arith, length, Option-cases,
}
use mathlib.Core.List.{append-nil}
use payments_processor.Shared.Money.{
  Text, span_digits, match_cents, match_amount, number, pad_cents, units, max_safe_integer,
  with_dollars, check_safe, conv_amount_to_units,
}
use payments_processor.Shared.Money.Digits.{
  IsDigit, IsDigits, span_digits-append, span_digits_all, span_digits_sound,
}

number_two : (c d : ℕ) → number (c ∷ d ∷ []) ≡ (c - b'0') * 10 + (d - b'0')
unfolding number
number_two c d = omega arith

-- What an amount in decimal notation stands for, in cents.
pub data Denotes (s : Text) (n : ℕ) : Type 0 where
  whole : (ds : Text) → IsDigits ds → ds ≢ [] → s ≡ ds → n ≡ 100 * number ds → Denotes s n
  tenths :
      (ds : Text) (c : ℕ)
      → IsDigits ds
      → ds ≢ []
      → IsDigit c
      → s ≡ ds ++ b'.' ∷ c ∷ []
      → n ≡ 100 * number ds + 10 * (c - b'0')
      → Denotes s n
  hundredths :
      (ds : Text) (c d : ℕ)
      → IsDigits ds
      → ds ≢ []
      → IsDigit c
      → IsDigit d
      → s ≡ ds ++ b'.' ∷ c ∷ d ∷ []
      → n ≡ 100 * number ds + 10 * (c - b'0') + (d - b'0')
      → Denotes s n

with_dollars_cons :
    (ds : Text) (o : Option Text) → ds ≢ [] → with_dollars ds (some o) ≡ some (ds, o)
with_dollars_cons [] o h = absurd (h refl)
with_dollars_cons (d ∷ ds) o h = refl

match_cents_one : (c : ℕ) → IsDigit c → match_cents (b'.' ∷ c ∷ []) ≡ some (some (c ∷ []))
unfolding match_cents
match_cents_one c h = ground arith

match_cents_two :
    (c d : ℕ) → IsDigit c → IsDigit d → match_cents (b'.' ∷ c ∷ d ∷ []) ≡ some (some (c ∷ d ∷ []))
unfolding match_cents
match_cents_two c d h k = ground arith

match_whole : (ds : Text) → IsDigits ds → ds ≢ [] → match_amount ds ≡ some (ds, none)
unfolding match_amount
match_whole ds h ne = rw (span_digits_all ds h) (with_dollars_cons ds none ne)

match_tenths :
    (ds : Text) (c : ℕ)
    → IsDigits ds
    → ds ≢ []
    → IsDigit c
    → match_amount (ds ++ b'.' ∷ c ∷ []) ≡ some (ds, some (c ∷ []))
unfolding match_amount
match_tenths ds c h ne k =
    rw (span_digits-append ds b'.' (c ∷ []) h refl)
      (ap (with_dollars ds) (match_cents_one c k) ∙ with_dollars_cons ds (some (c ∷ [])) ne)

match_hundredths :
    (ds : Text) (c d : ℕ)
    → IsDigits ds
    → ds ≢ []
    → IsDigit c
    → IsDigit d
    → match_amount (ds ++ b'.' ∷ c ∷ d ∷ []) ≡ some (ds, some (c ∷ d ∷ []))
unfolding match_amount
match_hundredths ds c d h ne k l =
    rw (span_digits-append ds b'.' (c ∷ d ∷ []) h refl)
      (ap (with_dollars ds) (match_cents_two c d k l) ∙ with_dollars_cons ds (some (c ∷ d ∷ [])) ne)

cents_none : number (pad_cents none) ≡ 0
unfolding pad_cents number
cents_none = refl

cents_one : (c : ℕ) → number (pad_cents (some (c ∷ []))) ≡ (c - b'0') * 10
unfolding pad_cents
cents_one c = rw number_two (omega arith)

cents_two : (c d : ℕ) → number (pad_cents (some (c ∷ d ∷ []))) ≡ (c - b'0') * 10 + (d - b'0')
unfolding pad_cents
cents_two c d = number_two c d

conv_of_match :
    (s ds : Text) (o : Option Text)
    → length s ≤ 20
    → match_amount s ≡ some (ds, o)
    → conv_amount_to_units s ≡ check_safe (number ds * 100 + number (pad_cents o))
unfolding conv_amount_to_units
conv_of_match s ds o h e = ground arith

check_safe_units : (m n : ℕ) → m ≡ n → n ≤ max_safe_integer → check_safe m ≡ units n
check_safe_units m n e h = ground arith

pub conv_complete :
    (s : Text) (n : ℕ)
    → Denotes s n
    → length s ≤ 20
    → n ≤ max_safe_integer
    → conv_amount_to_units s ≡ units n
conv_complete s n (whole ds hd ne es en) h k =
    conv_of_match s ds none h (rw es (match_whole ds hd ne))
    ∙ check_safe_units _ n (omega (arith, cents_none)) k
conv_complete s n (tenths ds c hd ne hc es en) h k =
    conv_of_match s ds (some (c ∷ [])) h (rw es (match_tenths ds c hd ne hc))
    ∙ check_safe_units _ n (omega (arith, cents_one c)) k
conv_complete s n (hundredths ds c d hd ne hc he es en) h k =
    conv_of_match s ds (some (c ∷ d ∷ [])) h (rw es (match_hundredths ds c d hd ne hc he))
    ∙ check_safe_units _ n (omega (arith, cents_two c d)) k

-- What a text that matches the pattern looks like behind the dollars.
data Cents (rest : Text) (o : Option Text) : Type 0 where
  without : rest ≡ [] → o ≡ none → Cents rest o
  one : (c : ℕ) → IsDigit c → rest ≡ b'.' ∷ c ∷ [] → o ≡ some (c ∷ []) → Cents rest o
  two :
      (c d : ℕ)
      → IsDigit c
      → IsDigit d
      → rest ≡ b'.' ∷ c ∷ d ∷ []
      → o ≡ some (c ∷ d ∷ [])
      → Cents rest o

match_cents_sound : (rest : Text) (o : Option Text) → match_cents rest ≡ some o → Cents rest o
unfolding match_cents
match_cents_sound [] o e = without refl (ground arith)
match_cents_sound (p ∷ []) o e = cc
match_cents_sound (p ∷ c ∷ []) o e = one c (ground arith) (ground arith) (ground arith)
match_cents_sound (p ∷ c ∷ d ∷ []) o e =
    two c d (ground arith) (ground arith) (ground arith) (ground arith)
match_cents_sound (p ∷ c ∷ d ∷ x ∷ xs) o e = cc

with_dollars_sound :
    (ds ds' : Text) (m : Option (Option Text)) (o : Option Text)
    → with_dollars ds m ≡ some (ds', o)
    → (ds ≡ ds') × (ds ≢ []) × (m ≡ some o)
with_dollars_sound [] ds' none o e = cc
with_dollars_sound [] ds' (some c) o e = cc
with_dollars_sound (d ∷ ds) ds' none o e = cc
with_dollars_sound (d ∷ ds) ds' (some c) o e = (ground arith, (λ h. cc), ground arith)

Matched : Text → Text → Option Text → Type 0
Matched s ds o = (rest : Text) × IsDigits ds × (ds ≢ []) × (s ≡ ds ++ rest) × Cents rest o

match_sound : (s ds : Text) (o : Option Text) → match_amount s ≡ some (ds, o) → Matched s ds o
unfolding Matched match_amount
match_sound s ds o e =
    let (same, ne, cents) = with_dollars_sound (span_digits s).0 ds _ o e in
    let (digits, split) = span_digits_sound s in
    (
      (span_digits s).1,
      rw same at digits,
      rw same at ne,
      rw same at split,
      match_cents_sound _ o cents,
    )

Denotes-Matched :
    (s ds : Text) (o : Option Text) (n : ℕ)
    → Matched s ds o
    → number ds * 100 + number (pad_cents o) ≡ n
    → Denotes s n
unfolding Matched
Denotes-Matched s ds o n (rest, hd, ne, es, without er eo) en =
    whole ds hd ne (es ∙ rw er (append-nil ds))
      (omega (arith, cents_none, ap (λ x. number (pad_cents x)) eo))
Denotes-Matched s ds o n (rest, hd, ne, es, one c hc er eo) en =
    tenths ds c hd ne hc (es ∙ rw er)
      (omega (arith, cents_one c, ap (λ x. number (pad_cents x)) eo))
Denotes-Matched s ds o n (rest, hd, ne, es, two c d hc he er eo) en =
    hundredths ds c d hd ne hc he (es ∙ rw er)
      (omega (arith, cents_two c d, ap (λ x. number (pad_cents x)) eo))

check_safe_sound : (m n : ℕ) → check_safe m ≡ units n → (m ≡ n) × (n ≤ max_safe_integer)
check_safe_sound m n e = ground arith

conv_short : (s : Text) (n : ℕ) → conv_amount_to_units s ≡ units n → length s ≤ 20
unfolding conv_amount_to_units
conv_short s n e = ground arith

conv_unmatched : (s : Text) (n : ℕ) → match_amount s ≡ none → conv_amount_to_units s ≢ units n
unfolding conv_amount_to_units
conv_unmatched s n m e = ground arith

conv_sound :
    (s : Text) (n : ℕ)
    → conv_amount_to_units s ≡ units n
    → Denotes s n × (length s ≤ 20) × (n ≤ max_safe_integer)
conv_sound s n e = elim (Option-cases (match_amount s)) [
  | inl missed ↦ absurd (conv_unmatched s n missed e)
  | inr ((ds, o), m) ↦
      let short = conv_short s n e in
      let (en, safe) = check_safe_sound _ n (sym (conv_of_match s ds o short m) ∙ e) in
      (Denotes-Matched s ds o n (match_sound s ds o m) en, short, safe)
]

-- A text is read as a number of cents exactly when it has at most 20 characters, is a decimal
-- numeral with no more than two decimals for that number, and the number is a safe integer.
pub conv_amount_to_units_iff :
    (s : Text) (n : ℕ)
    → (conv_amount_to_units s ≡ units n) ↔ (Denotes s n × (length s ≤ 20) × (n ≤ max_safe_integer))
conv_amount_to_units_iff s n = (conv_sound s n, λ h. conv_complete s n h.0 h.1 h.2)
