-- ===== src/Console/Queries/Laws.antt =====
-- What the API reads of the paths that apps/web/src/lib/api.ts makes.
use payments_processor.Common.{
  ℕ, ◌≡◌, refl, arith, inl, inr, Bool-cases, false, none, some, List, [], ◌∷◌, ◌++◌, All, ◌==◌,
}
use mathlib.Core.List.{append_assoc}
use payments_processor.Console.Queries.Reading.{
  Field, field, query_of, fields, pairs, parse_query, IsAscii, decode-encode,
}
use payments_processor.Console.Queries.{encode, is_plain, query_string, suffix}
use payments_processor.Shared.Money.{Text}

-- Neither of the two characters that cut a query into fields.
abbrev IsBare : ℕ → Type 0
IsBare c = ((c == b'&') ≡ false) × ((c == b'=') ≡ false)

encode-IsBare : (cs : Text) → All IsBare (encode cs)
unfolding encode
encode-IsBare [] = tt
encode-IsBare (c ∷ cs) = elim (Bool-cases (is_plain c)) [
  | inl plain ↦ rw plain ((ground arith, ground arith), encode-IsBare cs)
  | inr special ↦ elim (Bool-cases (c == 32)) [
    | inl space ↦ rw (special, space) ((refl, refl), encode-IsBare cs)
    | inr other ↦
        rw (special, other)
          (
            (refl, refl),
            ((ground arith, ground arith), ((ground arith, ground arith), encode-IsBare cs)),
          )
  ]
]

fields_bare : (xs : Text) → All IsBare xs → fields xs ≡ field xs none ∷ []
unfolding fields
fields_bare [] h = refl
fields_bare (x ∷ xs) h = rw (h.0.0, h.0.1, fields_bare xs h.1)

-- A value and what follows it: the end, or another field.
fields_value :
    (v rest : Text) → All IsBare v → fields (v ++ (b'&' ∷ rest)) ≡ field v none ∷ fields rest
unfolding fields
fields_value [] rest h = refl
fields_value (x ∷ xs) rest h = rw (h.0.0, h.0.1, fields_value xs rest h.1)

fields_name :
    (k rest : Text) (v : Text) (fs : List Field)
    → All IsBare k
    → fields rest ≡ field v none ∷ fs
    → fields (k ++ (b'=' ∷ rest)) ≡ field k (some v) ∷ fs
unfolding fields
fields_name [] rest v fs h e = rw e
fields_name (x ∷ xs) rest v fs h e = rw (h.0.0, h.0.1, fields_name xs rest v fs h.1 e)

abbrev pub IsAsciiPair : Text × Text → Type 0
IsAsciiPair (name, value) = IsAscii name × IsAscii value

pairs-query_string :
    (name value : Text) (ps : List (Text × Text))
    → All IsAsciiPair ((name, value) ∷ ps)
    → pairs (fields (query_string ((name, value) ∷ ps))) ≡ (name, value) ∷ ps
unfolding query_string
pairs-query_string name value [] h = rw (
  fields_name (encode name) (encode value) (encode value) [] (encode-IsBare name)
      (fields_bare (encode value) (encode-IsBare value)),
  decode-encode name h.0.0,
  decode-encode value h.0.1,
)
pairs-query_string name value ((n, v) ∷ ps) h =
    let rest = query_string ((n, v) ∷ ps) in
    rw (
      append_assoc (encode name) (b'=' ∷ encode value) (b'&' ∷ rest),
      fields_name (encode name) (encode value ++ (b'&' ∷ rest)) (encode value) (fields rest)
          (encode-IsBare name) (fields_value (encode value) rest (encode-IsBare value)),
      decode-encode name h.0.0,
      decode-encode value h.0.1,
      pairs-query_string n v ps h.1,
    )

pub parse_query-query_string :
    (ps : List (Text × Text)) → All IsAsciiPair ps → parse_query (query_string ps) ≡ ps
parse_query-query_string [] h = unfold query_string fields in refl
parse_query-query_string ((name, value) ∷ ps) h = pairs-query_string name value ps h

abbrev pub IsPath : Text → Type 0
IsPath = All (λ c. (c == b'?') ≡ false)

pub query_of_path : (path query : Text) → IsPath path → query_of (path ++ suffix query) ≡ query
unfolding query_of
query_of_path [] [] h = refl
query_of_path [] (c ∷ cs) h = refl
query_of_path (x ∷ xs) query h = rw (h.0, query_of_path xs query h.1)
