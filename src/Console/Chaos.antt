-- ===== src/Console/Chaos.antt =====
-- The page of apps/web/src/app/chaos/page.tsx that sets how the simulated bank behaves. Its numbers
-- are whole ones from 0 on, of any size.
pub mod Laws
use payments_processor.Common.{
  ℕ, Bool, true, false, not, ◌||◌, Option, none, some, String, ◌==◌, if◌then◌else◌,
}
use payments_processor.Database.{
  BankMode, BankConfig, Db, always_authorize, always_decline, always_error, fail_n_then_authorize,
}
use payments_processor.Bank.ConfigSync.{UpdateBankConfigDto, is_in_limits, get, update}
use payments_processor.Console.Client.{Message, said, Called, returns, throws}

pub record ChaosPage : Type 0 where
  pub config : Option BankConfig
  pub mode : BankMode
  pub latency_ms : ℕ
  pub fail_n : ℕ
  pub applying : Bool
  pub error : Option Message
  pub initialized : Bool

abbrev pub initial_page : ChaosPage
initial_page = record {
  config = none;
  mode = always_authorize;
  latency_ms = 200;
  fail_n = 2;
  applying = false;
  error = none;
  initialized = false;
}

abbrev seeded : BankConfig → ChaosPage → ChaosPage
seeded c s = record s {
  mode = c.mode;
  latency_ms = c.latency_ms;
  fail_n = c.fail_n;
  initialized = true;
}

abbrev seed_once : Bool → BankConfig → ChaosPage → ChaosPage
seed_once true c s = s
seed_once false c s = seeded c s

-- `refresh`, with what `getBankConfig` gave.
unfoldable pub refresh : Called BankConfig → ChaosPage → ChaosPage
refresh (returns c) s = record (seed_once s.initialized c (record s { config = some c })) {
  error = none;
}
refresh (throws message) s = record s { error = some message }

-- What the user does to the form.
pub data Edit : Type 0 where
  set_mode : BankMode → Edit
  set_latency_ms : ℕ → Edit
  set_fail_n : ℕ → Edit

abbrev pub edit : Edit → ChaosPage → ChaosPage
edit (set_mode m) s = record s { mode = m }
edit (set_latency_ms n) s = record s { latency_ms = n }
edit (set_fail_n n) s = record s { fail_n = n }

-- `apply` up to its `await`, the body that it sends, and `apply` from there on.
unfoldable pub begin_apply : ChaosPage → ChaosPage
begin_apply s = record s { applying = true; error = none }

abbrev pub patch_of : ChaosPage → UpdateBankConfigDto
patch_of s = record { mode = some s.mode; latency_ms = some s.latency_ms; fail_n = some s.fail_n }

unfoldable pub end_apply : Called BankConfig → ChaosPage → ChaosPage
end_apply (returns c) s = record s { config = some c; applying = false }
end_apply (throws message) s = record s { error = some message; applying = false }

abbrev pub mode_eq : BankMode → BankMode → Bool
mode_eq always_authorize always_authorize = true
mode_eq always_decline always_decline = true
mode_eq always_error always_error = true
mode_eq fail_n_then_authorize fail_n_then_authorize = true
mode_eq _ _ = false

abbrev differs : Option BankConfig → ChaosPage → Bool
differs none s = false
differs (some c) s =
    not (mode_eq c.mode s.mode) || not (c.latency_ms == s.latency_ms) || not (c.fail_n == s.fail_n)

unfoldable pub dirty : ChaosPage → Bool
dirty s = differs s.config s

-- A row as the API's answer. Without a row the API answers with no body, which is not JSON.
abbrev pub called : Option BankConfig → Called BankConfig
called none = throws (said "Unexpected end of JSON input")
called (some row) = returns row

-- A poll of the page, and a click on the button that applies the form, when the API is reached. The
-- filter of errors gives a body that is refused the detail `Validation Error`.
unfoldable pub poll : Db → ChaosPage → ChaosPage
unfolding refresh
poll db s = refresh (called (get db)) s

unfoldable pub apply : (now : ℕ) → ChaosPage → Db → ChaosPage × Db
unfolding begin_apply end_apply
apply now s db =
    let (row, db') = update now (patch_of s) db in
    if is_in_limits (patch_of s)
    then (end_apply (called row) (begin_apply s), db')
    else (end_apply (throws (said "Validation Error")) (begin_apply s), db)
