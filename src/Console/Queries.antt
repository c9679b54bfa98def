-- ===== src/Console/Queries.antt =====
-- The queries of the listings: what `listPayments` and `listDeliveries` of apps/web/src/lib/api.ts put
-- into the path, and what apps/api/src/payments/dto/list-payments.query.dto.ts and its like for
-- deliveries make of it. A text is its code units, which are those of ASCII.
pub mod Laws
pub mod Reading
pub mod Sent
use payments_processor.Common.{
  ℕ, zero, suc, ◌+◌, ◌-◌, ◌/◌, ◌%◌, Bool, true, false, ◌&&◌, ◌||◌, Option, none, some, List, [],
  ◌∷◌, ◌++◌, ltb, leb, ◌==◌, same, is_empty, not, if◌then◌else◌, any,
}
use payments_processor.Shared.Money.{Text, to_text}

-- The argument of `listPayments` and of `listDeliveries`.
pub record Params : Type 0 where
  pub status : Option Text
  pub cursor : Option Text
  pub limit : Option ℕ

abbrev pub status_name : Text
status_name = b's' ∷ b't' ∷ b'a' ∷ b't' ∷ b'u' ∷ b's' ∷ []

abbrev pub cursor_name : Text
cursor_name = b'c' ∷ b'u' ∷ b'r' ∷ b's' ∷ b'o' ∷ b'r' ∷ []

abbrev pub limit_name : Text
limit_name = b'l' ∷ b'i' ∷ b'm' ∷ b'i' ∷ b't' ∷ []

-- A value that is set where it is truthy.
abbrev set_text : Text → Option Text → List (Text × Text)
set_text name none = []
set_text name (some value) = if is_empty value then [] else (name, value) ∷ []

abbrev set_number : Text → Option ℕ → List (Text × Text)
set_number name none = []
set_number name (some n) = if n == 0 then [] else (name, to_text n) ∷ []

-- The URLSearchParams, in the order in which they are set.
unfoldable pub search_params : Params → List (Text × Text)
search_params p =
    set_text status_name p.status
    ++ (set_text cursor_name p.cursor ++ set_number limit_name p.limit)

-- A character that stands for itself in a form's encoding.
abbrev pub is_plain : ℕ → Bool
is_plain c =
    leb b'0' c && leb c b'9'
    || leb b'A' c && leb c b'Z'
    || leb b'a' c && leb c b'z'
    || c == b'*'
    || c == b'-'
    || c == b'.'
    || c == b'_'

abbrev pub upper_hex : ℕ → ℕ
upper_hex n = if ltb n 10 then b'0' + n else b'A' + (n - 10)

unfoldable pub encode : Text → Text
encode [] = []
encode (c ∷ cs) =
    let rest = encode cs in
    if is_plain c
    then c ∷ rest
    else if c == 32
    then b'+' ∷ rest
    else b'%' ∷ upper_hex (c / 16) ∷ upper_hex (c % 16) ∷ rest

abbrev encode_pair : Text × Text → Text
encode_pair (name, value) = encode name ++ (b'=' ∷ encode value)

-- `toString` of the URLSearchParams.
unfoldable pub query_string : List (Text × Text) → Text
query_string [] = []
query_string (p ∷ []) = encode_pair p
query_string (p ∷ q ∷ ps) = encode_pair p ++ (b'&' ∷ query_string (q ∷ ps))

-- qs.toString() ? `?${qs}` : ''
abbrev suffix : Text → Text
suffix [] = []
suffix (c ∷ cs) = b'?' ∷ c ∷ cs

unfoldable pub list_path : (path : Text) → Params → Text
list_path path p = path ++ suffix (query_string (search_params p))

-- The query as the API's classes have it: `none` is a query that their validation refuses.
pub record ListQuery : Type 0 where
  pub status : Option Text
  pub cursor : Option Text
  pub limit : ℕ

unfoldable pub param : Text → List (Text × Text) → Option Text
param name [] = none
param name ((key, value) ∷ ps) =
    let rest = param name ps in if same key name then some value else rest

abbrev pub is_known : Text → Bool
is_known key = same key status_name || same key cursor_name || same key limit_name

-- forbidNonWhitelisted, and no name twice: the value of such a name is an array, which no check of
-- the classes lets through.
unfoldable pub keys_ok : List (Text × Text) → Bool
keys_ok [] = true
keys_ok ((key, value) ∷ ps) = is_known key && not (any (λ q. same q.0 key) ps) && keys_ok ps

-- @IsOptional() @IsIn(...)
abbrev check_status : List Text → Option Text → Bool
check_status allowed none = true
check_status allowed (some status) = any (λ s. same s status) allowed

abbrev in_range : Option ℕ → Option ℕ
in_range none = none
in_range (some n) = if leb 1 n && leb n 100 then some n else none

-- @Type(() => Number) @IsInt() @Min(1) @Max(100), with 20 where it is missing. What class-transformer
-- makes of a text is `whole`, or `none` where that is no whole number from 0 on.
abbrev limit_of : (whole : Text → Option ℕ) → Option Text → Option ℕ
limit_of whole none = some 20
limit_of whole (some text) = in_range (whole text)

abbrev with_limit : Bool → Option Text → Option Text → Option ℕ → Option ListQuery
with_limit ok status cursor none = none
with_limit ok status cursor (some limit) =
    if ok then some (record { status = status; cursor = cursor; limit = limit }) else none

unfoldable pub list_query :
    (whole : Text → Option ℕ) (statuses : List Text) → List (Text × Text) → Option ListQuery
list_query whole statuses ps =
    with_limit (keys_ok ps && check_status statuses (param status_name ps)) (param status_name ps)
      (param cursor_name ps) (limit_of whole (param limit_name ps))
