-- ===== src/Bank/Breaker.antt =====
-- apps/api/src/bank/circuit-breaker.ts. `new Date()` is an argument of the methods that read it.
pub mod Laws
use payments_processor.Common.{ℕ, ◌+◌, Bool, true, false, List, [], ◌∷◌, leb, if◌then◌else◌}

pub data CircuitState : Type 0 where
  closed open_circuit half_open : CircuitState

pub record CircuitBreaker : Type 0 where
  pub state : CircuitState
  pub opened_at : ℕ
  pub failures : ℕ

unfoldable pub new_breaker : ℕ → CircuitBreaker
new_breaker now = record { state = closed; opened_at = now; failures = 0 }

abbrev allow_in : CircuitState → ℕ → ℕ → CircuitBreaker → Bool × CircuitBreaker
allow_in closed open_ms now b = (true, b)
allow_in open_circuit open_ms now b =
    if leb (b.opened_at + open_ms) now then (true, record b { state = half_open }) else (false, b)
allow_in half_open open_ms now b = (false, b)

-- `allow`: whether the call may be made, and the breaker after it.
unfoldable pub allow : ℕ → ℕ → CircuitBreaker → Bool × CircuitBreaker
allow open_ms now b = allow_in b.state open_ms now b

abbrev fail_in : CircuitState → ℕ → ℕ → CircuitBreaker → CircuitBreaker
fail_in half_open threshold now b = record b { state = open_circuit; opened_at = now }
fail_in _ threshold now b =
    if leb threshold b.failures then record b { state = open_circuit; opened_at = now } else b

-- `record`
unfoldable pub record_outcome : ℕ → Bool → ℕ → CircuitBreaker → CircuitBreaker
record_outcome threshold true now b = record b { state = closed; failures = 0 }
record_outcome threshold false now b =
    fail_in b.state threshold now (record b { failures = b.failures + 1 })
