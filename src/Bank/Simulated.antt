-- ===== src/Bank/Simulated.antt =====
-- apps/api/src/bank/simulated-bank.adapter.ts. `authorize` waits for the latency and then runs
-- without another wait, so the part after the wait is one step.
pub mod Laws
use payments_processor.Common.{
  ℕ, ◌+◌, Bool, true, false, Option, none, some, List, [], ◌∷◌, ◌++◌, String, ltb, ◌==◌,
  if◌then◌else◌,
}
use payments_processor.Database.{
  BankRef, of_key, BankMode, always_authorize, always_decline, always_error, fail_n_then_authorize,
}
use payments_processor.Bank.{BankAuthorizeRequest, BankOutcome, authorized, declined, error}

pub record SimulatedBankAdapter : Type 0 where
  pub mode : BankMode
  pub fail_count : ℕ
  pub fail_n : ℕ
  pub latency_ms : ℕ
  pub store : List (ℕ × BankOutcome)
  pub charges : ℕ

unfoldable pub new_bank : SimulatedBankAdapter
new_bank = record {
  mode = always_authorize;
  fail_count = 0;
  fail_n = 2;
  latency_ms = 200;
  store = [];
  charges = 0;
}

-- `Map.prototype.get`, with `none` where `has` says no.
abbrev pub lookup : ℕ → List (ℕ × BankOutcome) → Option BankOutcome
lookup k [] = none
lookup k ((j, o) ∷ m) = if j == k then some o else lookup k m

-- The lines that count the charge and keep the outcome under its key, which is new.
abbrev charge : ℕ → SimulatedBankAdapter → BankOutcome × SimulatedBankAdapter
charge key b =
    let outcome = authorized (of_key key) in
    (outcome, record b { charges = b.charges + 1; store = b.store ++ (key, outcome) ∷ [] })

-- The `switch` on the mode.
abbrev evaluate : BankMode → ℕ → SimulatedBankAdapter → BankOutcome × SimulatedBankAdapter
evaluate always_authorize key b = charge key b
evaluate always_decline key b = (declined "insufficient_funds", b)
evaluate always_error key b = (error true "bank_unavailable", b)
evaluate fail_n_then_authorize key b =
    if ltb b.fail_count b.fail_n
    then (error true "bank_unavailable", record b { fail_count = b.fail_count + 1 })
    else charge key (record b { fail_count = 0 })

abbrev cached : Option BankOutcome → ℕ → SimulatedBankAdapter → BankOutcome × SimulatedBankAdapter
cached (some o) key b = (o, b)
cached none key b = evaluate b.mode key b

unfoldable pub authorize :
    BankAuthorizeRequest → SimulatedBankAdapter → BankOutcome × SimulatedBankAdapter
authorize req b = cached (lookup req.idempotency_key b.store) req.idempotency_key b

abbrev with_mode : Option BankMode → SimulatedBankAdapter → SimulatedBankAdapter
with_mode none b = b
with_mode (some m) b = record b { mode = m; fail_count = 0 }

abbrev with_fail_n : Option ℕ → SimulatedBankAdapter → SimulatedBankAdapter
with_fail_n none b = b
with_fail_n (some n) b = record b { fail_n = n }

abbrev with_latency : Option ℕ → SimulatedBankAdapter → SimulatedBankAdapter
with_latency none b = b
with_latency (some n) b = record b { latency_ms = n }

unfoldable pub set_config :
    (mode : Option BankMode) (fail_n latency_ms : Option ℕ)
    → SimulatedBankAdapter
    → SimulatedBankAdapter
set_config mode fail_n latency_ms b =
    with_latency latency_ms (with_fail_n fail_n (with_mode mode b))
