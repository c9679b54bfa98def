-- ===== src/Configuration.antt =====
-- How apps/api/src/config.ts reads a setting from the environment. Settings has the settings that it
-- reads, Providers what is selected by one of them.
pub mod Bounds
pub mod Groups
pub mod Laws
pub mod Numbers
pub mod Providers
pub mod Required
pub mod Settings
mod Tests
use Prim.Native.Char.{Char, code}
use Prim.Native.String.{[] as end, ◌∷◌ as ◌then◌}
use text.Mathlib.Text.{find?}
use payments_processor.Common.Trimming.{trim}
use payments_processor.Common.{
  ℕ, Bool, true, false, not, ◌&&◌, ◌||◌, Option, none, some, List, [], ◌∷◌, ◌++◌, String, str_eq,
  ◌==◌, any, filter_by, map, is_some, if◌then◌else◌,
}
use payments_processor.Configuration.Numbers.{Num, of_nat, is_finite, to_number, is_below, is_above}

-- `process.env`
abbrev pub Environment : Type 0
Environment = String → Option String

-- What is pushed to `problems`, as the parts of its text.
pub data Trouble : Type 0 where
  missing : (name : String) → Trouble
  invalid : (name value : String) → List String → Trouble
  not_a_number : (name raw : String) → Trouble
  below_min : (name : String) → Num → (min : ℕ) → Trouble
  above_max : (name : String) → Num → (max : ℕ) → Trouble
  not_a_boolean : (name raw : String) → Trouble

-- A value that was read, and what was pushed while it was.
abbrev pub Checked : Type 0 → Type 0
Checked A = A × List Trouble

abbrev pub is_one_of : List String → String → Bool
is_one_of allowed value = any (λ s. str_eq s value) allowed

-- !opts.oneOf.includes(value), where there are such options.
abbrev pub check_allowed : Option (List String) → String → String → List Trouble
check_allowed none name value = []
check_allowed (some allowed) name value =
    if is_one_of allowed value then [] else invalid name value allowed ∷ []

abbrev pub is_text : String → Option String → Bool
is_text text none = false
is_text text (some value) = str_eq value text

unfoldable pub is_production : Environment → Bool
is_production environment = is_text "production" (environment "NODE_ENV")

-- fallback.includes('localhost')
abbrev pub is_local : String → Bool
is_local fallback = is_some (find? fallback "localhost")

abbrev env_value :
    (name fallback : String) → Option (List String) → Bool → Option String → Checked String
env_value name fallback one_of required none =
    if required
    then (fallback, missing name ∷ [])
    else (fallback, check_allowed one_of name fallback)
env_value name fallback one_of required (some raw) = (raw, check_allowed one_of name raw)

-- `env`; no call of it gives `required`.
unfoldable pub env : (name fallback : String) → Option (List String) → Environment → Checked String
env name fallback one_of environment =
    env_value name fallback one_of (is_production environment && is_local fallback)
      (environment name)

abbrev pub check_min : String → Num → Option ℕ → List Trouble
check_min name n none = []
check_min name n (some min) = if is_below n min then below_min name n min ∷ [] else []

abbrev pub check_max : String → Num → Option ℕ → List Trouble
check_max name n none = []
check_max name n (some max) = if is_above n max then above_max name n max ∷ [] else []

abbrev checked_num : (name raw : String) → (fallback : ℕ) → (min max : Option ℕ) → Num → Checked Num
checked_num name raw fallback min max n =
    if is_finite n
    then (n, check_min name n min ++ check_max name n max)
    else (of_nat fallback, not_a_number name raw ∷ [])

abbrev num_value : String → ℕ → (min max : Option ℕ) → Option String → Checked Num
num_value name fallback min max none = (of_nat fallback, [])
num_value name fallback min max (some raw) = checked_num name raw fallback min max (to_number raw)

-- `num`
unfoldable pub num :
    (name : String) → (fallback : ℕ) → (min max : Option ℕ) → Environment → Checked Num
num name fallback min max environment = num_value name fallback min max (environment name)

abbrev bool_value : String → Bool → Option String → Checked Bool
bool_value name fallback none = (fallback, [])
bool_value name fallback (some raw) =
    if str_eq raw "true" || str_eq raw "1"
    then (true, [])
    else if str_eq raw "false" || str_eq raw "0"
    then (false, [])
    else (fallback, not_a_boolean name raw ∷ [])

-- `bool`, which no setting uses.
unfoldable pub bool : (name : String) → (fallback : Bool) → Environment → Checked Bool
bool name fallback environment = bool_value name fallback (environment name)

abbrev pub bank_adapters : List String
bank_adapters = "simulated" ∷ []

abbrev cons_first : Char → List String → List String
cons_first c [] = (c then end) ∷ []
cons_first c (s ∷ rest) = (c then s) ∷ rest

-- .split(',')
abbrev pub split_commas : String → List String
split_commas end = end ∷ []
split_commas (c then s) =
    let rest = split_commas s in if code c == b',' then end ∷ rest else cons_first c rest

-- .split(',').map((s) => s.trim()).filter(Boolean)
unfoldable pub origins_of : String → List String
unfolding trim
origins_of s = filter_by (λ o. not (str_eq o "")) (map trim (split_commas s))
