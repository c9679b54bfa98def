-- ===== src/Console/Queries/Sent.antt =====
-- What the API's validation makes of a query with the fields that apps/web/src/lib/api.ts sets.
use payments_processor.Common.{
  ◌≤◌, ℕ, ◌≡◌, ◌∙◌, refl, arith, inl, inr, Bool-cases, Bool, true, false, ◌&&◌, Option, none, some,
  List, [], ◌∷◌, ◌++◌, All, All-append, same_refl, leb, ◌==◌, same, if◌then◌else◌,
}
use payments_processor.Console.Queries.Reading.{query_of, parse_query, IsAscii}
use payments_processor.Console.Queries.{
  Params, status_name, cursor_name, limit_name, search_params, query_string, list_path, param,
  list_query, keys_ok, set_text, set_number, check_status, limit_of, with_limit,
}
use payments_processor.Shared.Money.Digits.{IsDigits, decimal-IsDigits}
use payments_processor.Console.Queries.Laws.{
  IsAsciiPair, IsPath, parse_query-query_string, query_of_path,
}
use payments_processor.Shared.Money.{max_safe_integer, Text, to_text, decimal}

-- What the API reads of a value that the client sets: nothing of an empty one.
abbrev sent : Option Text → Option Text
sent none = none
sent (some []) = none
sent (some (c ∷ cs)) = some (c ∷ cs)

abbrev sent_number : Option ℕ → Option Text
sent_number none = none
sent_number (some n) = if n == 0 then none else some (to_text n)

param_other :
    (name key : Text) (v : Option Text) (ps : List (Text × Text))
    → same key name ≡ false
    → param name (set_text key v ++ ps) ≡ param name ps
unfolding param
param_other name key none ps h = refl
param_other name key (some []) ps h = refl
param_other name key (some (c ∷ cs)) ps h = rw h

param_number_other :
    (name key : Text) (n : Option ℕ) → same key name ≡ false → param name (set_number key n) ≡ none
unfolding param
param_number_other name key none h = refl
param_number_other name key (some n) h = ground (arith, h)

param_text :
    (name : Text) (v : Option Text) (ps : List (Text × Text))
    → param name ps ≡ none
    → param name (set_text name v ++ ps) ≡ sent v
unfolding param
param_text name none ps h = h
param_text name (some []) ps h = h
param_text name (some (c ∷ cs)) ps h = rw (same_refl name)

param_number : (name : Text) (n : Option ℕ) → param name (set_number name n) ≡ sent_number n
unfolding param
param_number name none = refl
param_number name (some n) = elim (Bool-cases (n == 0)) [
  | inl missing ↦ rw missing
  | inr present ↦ rw (present, same_refl name)
]

-- The `limit` that the API takes, by what the client was asked for.
abbrev taken_limit : Option ℕ → ℕ
taken_limit none = 20
taken_limit (some n) = if n == 0 then 20 else n

abbrev IsLimit : Option ℕ → Type 0
IsLimit none = Unit
IsLimit (some n) = n ≤ max_safe_integer

-- class-transformer, that is `Number`, makes a safe integer of its own text.
abbrev pub ReadsNumbers : (Text → Option ℕ) → Type 0
ReadsNumbers whole = (n : ℕ) → n ≤ max_safe_integer → whole (to_text n) ≡ some n

limit_of-sent_number :
    (whole : Text → Option ℕ) (l : Option ℕ)
    → ReadsNumbers whole
    → IsLimit l
    → limit_of whole (sent_number l)
      ≡ (if leb (taken_limit l) 100 then some (taken_limit l) else none)
limit_of-sent_number whole none reads h = refl
limit_of-sent_number whole (some n) reads h = elim (Bool-cases (n == 0)) [
  | inl missing ↦ rw missing
  | inr present ↦ rw (present, reads n h) (ground arith)
]

abbrev IsAsciiOption : Option Text → Type 0
IsAsciiOption none = Unit
IsAsciiOption (some v) = IsAscii v

abbrev pub IsSendable : Params → Type 0
IsSendable p = IsAsciiOption p.status × (IsAsciiOption p.cursor × IsLimit p.limit)

text-IsAsciiPair :
    (name : Text) (v : Option Text)
    → IsAscii name
    → IsAsciiOption v
    → All IsAsciiPair (set_text name v)
text-IsAsciiPair name none h k = tt
text-IsAsciiPair name (some []) h k = tt
text-IsAsciiPair name (some (c ∷ cs)) h k = ((h, k), tt)

digits-IsAscii : (ds : Text) → IsDigits ds → IsAscii ds
digits-IsAscii [] h = tt
digits-IsAscii (d ∷ ds) h = (ground arith, digits-IsAscii ds h.1)

number-IsAsciiPair :
    (name : Text) (n : Option ℕ) → IsAscii name → All IsAsciiPair (set_number name n)
number-IsAsciiPair name none h = tt
number-IsAsciiPair name (some n) h = elim (Bool-cases (n == 0)) [
  | inl missing ↦ rw missing tt
  | inr present ↦
      rw present ((h, unfold to_text in digits-IsAscii (decimal 21 n) (decimal-IsDigits 21 n)), tt)
]

search_params-IsAsciiPair : (p : Params) → IsSendable p → All IsAsciiPair (search_params p)
unfolding search_params
search_params-IsAsciiPair p h =
    All-append IsAsciiPair (set_text status_name p.status) _
      (text-IsAsciiPair status_name p.status (ground arith) h.0)
      (All-append IsAsciiPair (set_text cursor_name p.cursor) _
        (text-IsAsciiPair cursor_name p.cursor (ground arith) h.1.0)
        (number-IsAsciiPair limit_name p.limit (ground arith)))

param-search_params :
    (p : Params)
    → (param status_name (search_params p) ≡ sent p.status)
      × ((param cursor_name (search_params p) ≡ sent p.cursor)
          × (param limit_name (search_params p) ≡ sent_number p.limit))
unfolding search_params same
param-search_params p = (
  param_text status_name p.status _ (
      param_other status_name cursor_name p.cursor _ refl
      ∙ param_number_other status_name limit_name p.limit refl),
  (
    param_other cursor_name status_name p.status _ refl
        ∙ param_text cursor_name p.cursor _
            (param_number_other cursor_name limit_name p.limit refl),
    param_other limit_name status_name p.status _ refl
        ∙ (param_other limit_name cursor_name p.cursor _ refl ∙ param_number limit_name p.limit),
  ),
)

data AtMostOne (name : Text) : List (Text × Text) → Type 0 where
  unset : AtMostOne name []
  set_once : (v : Text) → AtMostOne name ((name, v) ∷ [])

text-AtMostOne : (name : Text) (v : Option Text) → AtMostOne name (set_text name v)
text-AtMostOne name none = unset
text-AtMostOne name (some []) = unset
text-AtMostOne name (some (c ∷ cs)) = set_once (c ∷ cs)

number-AtMostOne : (name : Text) (n : Option ℕ) → AtMostOne name (set_number name n)
number-AtMostOne name none = unset
number-AtMostOne name (some n) = elim (Bool-cases (n == 0)) [
  | inl missing ↦ rw missing unset
  | inr present ↦ rw present (set_once (to_text n))
]

keys_ok_parts :
    (a b c : List (Text × Text))
    → AtMostOne status_name a
    → AtMostOne cursor_name b
    → AtMostOne limit_name c
    → keys_ok (a ++ (b ++ c)) ≡ true
unfolding keys_ok same
keys_ok_parts _ _ _ unset unset unset = refl
keys_ok_parts _ _ _ unset unset (set_once z) = refl
keys_ok_parts _ _ _ unset (set_once y) unset = refl
keys_ok_parts _ _ _ unset (set_once y) (set_once z) = refl
keys_ok_parts _ _ _ (set_once x) unset unset = refl
keys_ok_parts _ _ _ (set_once x) unset (set_once z) = refl
keys_ok_parts _ _ _ (set_once x) (set_once y) unset = refl
keys_ok_parts _ _ _ (set_once x) (set_once y) (set_once z) = refl

with_limit_of :
    (ok small : Bool) (status cursor : Option Text) (limit : ℕ)
    → with_limit ok status cursor (if small then some limit else none) ≡ (
        if ok && small
        then some (record { status = status; cursor = cursor; limit = limit })
        else none)
with_limit_of true true status cursor limit = refl
with_limit_of true false status cursor limit = refl
with_limit_of false true status cursor limit = refl
with_limit_of false false status cursor limit = refl

-- Where class-transformer makes each safe integer of its own text: for a path without '?' and
-- arguments whose texts are ASCII and whose limit is a safe integer, the API reads from the path that the client makes exactly the client's arguments: the status and
-- the cursor where they are not empty, and the limit, or 20 where it is missing or 0. It refuses
-- the query exactly where the status is not one that it allows or the limit is above 100.
pub list_query-list_path :
    (whole : Text → Option ℕ) (statuses : List Text) (path : Text) (p : Params)
    → ReadsNumbers whole
    → IsPath path
    → IsSendable p
    → list_query whole statuses (parse_query (query_of (list_path path p))) ≡ (
        if check_status statuses (sent p.status) && leb (taken_limit p.limit) 100
        then some
            (record { status = sent p.status; cursor = sent p.cursor; limit = taken_limit p.limit })
        else none)
unfolding list_path list_query
list_query-list_path whole statuses path p reads h k =
    let read = param-search_params p in
    let ok : keys_ok (search_params p) ≡ true =
      unfold search_params in
      keys_ok_parts _ _ _ (text-AtMostOne status_name p.status)
        (text-AtMostOne cursor_name p.cursor) (number-AtMostOne limit_name p.limit) in
    rw
      (
        query_of_path path (query_string (search_params p)) h,
        parse_query-query_string (search_params p) (search_params-IsAsciiPair p k),
        ok,
        read.0,
        read.1.0,
        read.1.1,
        limit_of-sent_number whole p.limit reads k.1.1,
      )
      (with_limit_of (check_status statuses (sent p.status)) (leb (taken_limit p.limit) 100)
        (sent p.status) (sent p.cursor) (taken_limit p.limit))
