-- ===== src/Bank/Breaker/Laws.antt =====
-- What the circuit breaker of apps/api/src/bank/circuit-breaker.ts promises over any sequence of
-- calls.
use payments_processor.Common.{
  ℕ, ◌+◌, ◌≤◌, ◌<◌, ◌≡◌, ◌↔◌, Bool, true, false, List, [], ◌∷◌, arith, All,
}
use payments_processor.Bank.Breaker.{
  closed, open_circuit, half_open, CircuitBreaker, new_breaker, allow, record_outcome,
}

-- A call of one of the two methods, with the time at which it is made.
pub data BreakerCall : Type 0 where
  allow_at : ℕ → BreakerCall
  record_at : Bool → ℕ → BreakerCall

module _ (threshold open_ms : ℕ) where
  abbrev pub perform : BreakerCall → CircuitBreaker → CircuitBreaker
  perform (allow_at now) b = (allow open_ms now b).1
  perform (record_at success now) b = record_outcome threshold success now b

  abbrev pub perform_all : List BreakerCall → CircuitBreaker → CircuitBreaker
  perform_all [] b = b
  perform_all (c ∷ cs) b = perform_all cs (perform c b)

-- The number of failures reported since the last success, on top of `n` before the calls.
abbrev pub streak : ℕ → List BreakerCall → ℕ
streak n [] = n
streak n (allow_at now ∷ cs) = streak n cs
streak n (record_at true now ∷ cs) = streak 0 cs
streak n (record_at false now ∷ cs) = streak (n + 1) cs

-- The counter holds the streak, and the circuit is closed exactly below the threshold.
abbrev pub Tracks : ℕ → ℕ → CircuitBreaker → Type 0
Tracks threshold n b = (b.failures ≡ n) × ((b.state ≡ closed) ↔ (n < threshold))

allow-Tracks :
    (threshold open_ms now n : ℕ) (b : CircuitBreaker)
    → Tracks threshold n b
    → Tracks threshold n (allow open_ms now b).1
unfolding allow
allow-Tracks threshold open_ms now n b h = ground arith

record_outcome-Tracks :
    (threshold now n : ℕ) (b : CircuitBreaker)
    → Tracks threshold n b
    → Tracks threshold (n + 1) (record_outcome threshold false now b)
unfolding record_outcome
record_outcome-Tracks threshold now n b h = ground arith

perform_all-Tracks :
    (threshold open_ms n : ℕ) (cs : List BreakerCall) (b : CircuitBreaker)
    → 0 < threshold
    → Tracks threshold n b
    → Tracks threshold (streak n cs) (perform_all threshold open_ms cs b)
perform_all-Tracks threshold open_ms n [] b pos h = h
perform_all-Tracks threshold open_ms n (allow_at now ∷ cs) b pos h =
    perform_all-Tracks threshold open_ms n cs _ pos (allow-Tracks threshold open_ms now n b h)
perform_all-Tracks threshold open_ms n (record_at true now ∷ cs) b pos h =
    perform_all-Tracks threshold open_ms 0 cs _ pos (unfold record_outcome in (ground arith))
perform_all-Tracks threshold open_ms n (record_at false now ∷ cs) b pos h =
    perform_all-Tracks threshold open_ms (n + 1) cs _ pos
      (record_outcome-Tracks threshold now n b h)

-- After any calls on a new breaker the circuit is closed exactly if fewer than `threshold`
-- failures have been reported since the last success.
pub closed_iff :
    (threshold open_ms start : ℕ) (cs : List BreakerCall)
    → 0 < threshold
    → ((perform_all threshold open_ms cs (new_breaker start)).state ≡ closed)
      ↔ (streak 0 cs < threshold)
closed_iff threshold open_ms start cs pos =
    (perform_all-Tracks threshold open_ms 0 cs (new_breaker start) pos
      (unfold new_breaker in (ground arith))).1

abbrev pub Refuses : ℕ → List ℕ → CircuitBreaker → Type 0
Refuses open_ms [] b = Unit
Refuses open_ms (now ∷ ts) b = (allow open_ms now b ≡ (false, b)) × Refuses open_ms ts b

Refuses-open :
    (open_ms : ℕ) (ts : List ℕ) (b : CircuitBreaker)
    → b.state ≡ open_circuit
    → All (λ now. now < b.opened_at + open_ms) ts
    → Refuses open_ms ts b
unfolding allow
Refuses-open open_ms [] b h early = tt
Refuses-open open_ms (now ∷ ts) b h (e, early) = (ground arith, Refuses-open open_ms ts b h early)

Refuses-half_open :
    (open_ms : ℕ) (ts : List ℕ) (b : CircuitBreaker) → b.state ≡ half_open → Refuses open_ms ts b
unfolding allow
Refuses-half_open open_ms [] b h = tt
Refuses-half_open open_ms (now ∷ ts) b h = (ground arith, Refuses-half_open open_ms ts b h)

-- An open breaker Refuses every call that comes before its cooldown has passed and stays as it
-- is; the first call after the cooldown is let through, and every further one is refused, at
-- whatever time, until an outcome is recorded.
pub cooldown :
    (open_ms now : ℕ) (early later : List ℕ) (b : CircuitBreaker)
    → b.state ≡ open_circuit
    → All (λ t. t < b.opened_at + open_ms) early
    → b.opened_at + open_ms ≤ now
    → Refuses open_ms early b
      × ((allow open_ms now b).0 ≡ true)
      × Refuses open_ms later (allow open_ms now b).1
cooldown open_ms now early later b h before after = (
  Refuses-open open_ms early b h before,
  unfold allow in (ground arith),
  Refuses-half_open open_ms later _ (unfold allow in (ground arith)),
)
