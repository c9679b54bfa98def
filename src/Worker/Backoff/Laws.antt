-- ===== src/Worker/Backoff/Laws.antt =====
-- How long the worker waits before a retry, apps/api/src/worker/backoff.ts.
use payments_processor.Common.{ℕ, suc, ◌+◌, ◌-◌, ◌*◌, ◌^◌, ◌≤◌, ◌<◌, min, ◌≡◌, some, arith}
use payments_processor.Worker.Backoff.{millisecond, exponential, compute_backoff_ms}
use native.Mathlib.Nat.{pow-suc}

exponential-le-cap : (base cap attempt : ℕ) → exponential base cap attempt ≤ cap
unfolding exponential
exponential-le-cap base cap attempt = omega arith

-- What is added to the half is at most the other half.
jitter-le : (r e : ℕ) → r < 2 ^ 53 → r * e ≤ 2 ^ 53 * e
jitter-le r e h = grind arith

-- The delay before a retry is defined for every attempt from 1 on. It is never longer than the
-- cap, and never shorter than half of the base doubled at each attempt, or than half of the cap
-- where that is less.
pub compute_backoff_ms_bounds :
    (base cap random attempt : ℕ)
    → random < 2 ^ 53
    → 1 ≤ attempt
    → (d : ℕ) × (compute_backoff_ms base cap random attempt ≡ some d)
      × (d ≤ cap * millisecond)
      × (min (base * 2 ^ (attempt - 1)) cap * 2 ^ 53 ≤ d)
unfolding compute_backoff_ms
compute_backoff_ms_bounds base cap random attempt h one =
    let e = exponential base cap attempt in
    (
      e * 2 ^ 53 + random * e,
      ground arith,
      omega (arith, jitter-le random e h, exponential-le-cap base cap attempt),
      unfold exponential in (omega arith),
    )

delay_eq :
    (base cap random n d : ℕ)
    → compute_backoff_ms base cap random (suc n) ≡ some d
    → d ≡ exponential base cap (suc n) * 2 ^ 53 + random * exponential base cap (suc n)
unfolding compute_backoff_ms
delay_eq base cap random n d e = ground arith

exponential_below :
    (base cap n : ℕ) → base * 2 ^ n ≤ cap → exponential base cap (suc n) ≡ base * 2 ^ n
unfolding exponential
exponential_below base cap n h = let same : suc n - 1 ≡ n = omega arith in rw same (omega arith)

double : (base n : ℕ) → base * 2 ^ suc n ≡ base * 2 ^ n * 2
double base n = rw pow-suc (omega arith)

-- Below the cap the delays grow with the attempts whatever the random numbers are: the delay before
-- the next attempt is at least as long as the delay before this one.
pub compute_backoff_ms_grows :
    (base cap random random' n d d' : ℕ)
    → random < 2 ^ 53
    → base * 2 ^ suc n ≤ cap
    → compute_backoff_ms base cap random (suc n) ≡ some d
    → compute_backoff_ms base cap random' (suc (suc n)) ≡ some d'
    → d ≤ d'
compute_backoff_ms_grows base cap random random' n d d' h under e e' =
    let now = exponential_below base cap n (omega (arith, double base n)) in
    let after = exponential_below base cap (suc n) under in
    let x : ℕ = exponential base cap (suc n) in
    let y : ℕ = exponential base cap (suc (suc n)) in
    omega (
      arith,
      delay_eq base cap random n d e,
      delay_eq base cap random' (suc n) d' e',
      jitter-le random x h,
      now,
      after,
      double base n,
    )
