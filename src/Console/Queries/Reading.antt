-- ===== src/Console/Queries/Reading.antt =====
-- How a query that apps/web/src/lib/api.ts sends reads by the definition of a form's encoding
-- (application/x-www-form-urlencoded), which is that of URLSearchParams. The bytes are those of ASCII.
use payments_processor.Common.{
  ℕ, ◌+◌, ◌-◌, ◌*◌, ◌/◌, ◌%◌, ◌<◌, ◌≡◌, refl, arith, inl, inr, Bool-cases, Bool, true, ◌&&◌, ◌||◌,
  Option, none, some, List, [], ◌∷◌, ◌++◌, All, leb, ◌==◌, if◌then◌else◌,
}
use payments_processor.Console.Queries.{is_plain, upper_hex, encode}
use payments_processor.Shared.Money.{Text}

abbrev hex_value : ℕ → ℕ
hex_value c = if leb c b'9' then c - b'0' else if leb c b'F' then c - b'A' + 10 else c - b'a' + 10

abbrev is_hex : ℕ → Bool
is_hex c = leb b'0' c && leb c b'9' || leb b'A' c && leb c b'F' || leb b'a' c && leb c b'f'

-- A text in a form's encoding.
unfoldable pub decode : Text → Text
decode [] = []
decode (c ∷ []) = if c == b'+' then 32 ∷ [] else c ∷ []
decode (c ∷ d ∷ []) = let rest = decode (d ∷ []) in if c == b'+' then 32 ∷ rest else c ∷ rest
decode (c ∷ d ∷ e ∷ cs) =
    let escaped = (hex_value d * 16 + hex_value e) ∷ decode cs in
    let rest = decode (d ∷ e ∷ cs) in
    if c == b'%' && is_hex d && is_hex e then escaped else if c == b'+' then 32 ∷ rest else c ∷ rest

-- What follows the first '?' of a path.
unfoldable pub query_of : Text → Text
query_of [] = []
query_of (c ∷ cs) = let rest = query_of cs in if c == b'?' then cs else rest

-- The fields of a query, each with the text before its first '=' and the one after.
pub data Field : Type 0 where
  field : Text → Option Text → Field

abbrev prefixed : ℕ → List Field → List Field
prefixed c [] = field (c ∷ []) none ∷ []
prefixed c (field k v ∷ fs) = field (c ∷ k) v ∷ fs

abbrev after_equals : Text → Option Text → Text
after_equals k none = k
after_equals k (some v) = k ++ (b'=' ∷ v)

abbrev valued : List Field → List Field
valued [] = field [] (some []) ∷ []
valued (field k v ∷ fs) = field [] (some (after_equals k v)) ∷ fs

unfoldable pub fields : Text → List Field
fields [] = field [] none ∷ []
fields (c ∷ cs) =
    let rest = fields cs in
    if c == b'&' then field [] none ∷ rest else if c == b'=' then valued rest else prefixed c rest

-- The pair of a field that is not empty.
abbrev pair_of : Option Text → Text → List (Text × Text)
pair_of (some v) k = (decode k, decode v) ∷ []
pair_of none [] = []
pair_of none (c ∷ cs) = (decode (c ∷ cs), []) ∷ []

abbrev pub pairs : List Field → List (Text × Text)
pairs [] = []
pairs (field k v ∷ fs) = pair_of v k ++ pairs fs

abbrev pub parse_query : Text → List (Text × Text)
parse_query text = pairs (fields text)

abbrev pub IsAscii : Text → Type 0
IsAscii = All (λ c. c < 128)

decode_plain : (c : ℕ) (cs : Text) → is_plain c ≡ true → decode (c ∷ cs) ≡ c ∷ decode cs
unfolding decode
decode_plain c [] h = ground arith
decode_plain c (d ∷ []) h = ground arith
decode_plain c (d ∷ e ∷ cs) h = ground arith

decode_plus : (cs : Text) → decode (b'+' ∷ cs) ≡ 32 ∷ decode cs
unfolding decode
decode_plus [] = refl
decode_plus (d ∷ []) = refl
decode_plus (d ∷ e ∷ cs) = refl

decode_escape :
    (c : ℕ) (cs : Text)
    → c < 256
    → decode (b'%' ∷ upper_hex (c / 16) ∷ upper_hex (c % 16) ∷ cs) ≡ c ∷ decode cs
unfolding decode
decode_escape c cs h =
    let high : hex_value (upper_hex (c / 16)) ≡ c / 16 = ground arith in
    let low : hex_value (upper_hex (c % 16)) ≡ c % 16 = ground arith in
    let whole : c / 16 * 16 + c % 16 ≡ c = omega arith in
    let hex_high : is_hex (upper_hex (c / 16)) ≡ true = ground arith in
    let hex_low : is_hex (upper_hex (c % 16)) ≡ true = ground arith in
    rw (hex_high, hex_low, high, low, whole)

pub decode-encode : (cs : Text) → IsAscii cs → decode (encode cs) ≡ cs
unfolding encode
decode-encode [] h = unfold decode in refl
decode-encode (c ∷ cs) h = elim (Bool-cases (is_plain c)) [
  | inl plain ↦ rw (plain, decode_plain c (encode cs) plain, decode-encode cs h.1)
  | inr special ↦ elim (Bool-cases (c == 32)) [
    | inl space ↦
        let is_space : c ≡ 32 = ground arith in
        rw (special, space, decode_plus, decode-encode cs h.1, is_space)
    | inr other ↦
        rw (special, other, decode_escape c (encode cs) (ground arith), decode-encode cs h.1)
  ]
]
