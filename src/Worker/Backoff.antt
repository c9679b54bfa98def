-- ===== src/Worker/Backoff.antt =====
-- apps/api/src/worker/backoff.ts. `Math.random()` is r / 2 ^ 53 for an argument r below 2 ^ 53, and
-- a delay is in units of 2 ^ -54 ms, in which the result is a whole number.
pub mod Laws
use payments_processor.Common.{ℕ, ◌+◌, ◌-◌, ◌*◌, ◌^◌, min, Option, none, some, ltb, if◌then◌else◌}

-- One millisecond.
abbrev pub millisecond : ℕ
millisecond = 2 ^ 54

-- `exp` of the source: the doubled base, capped.
unfoldable pub exponential : (base cap attempt : ℕ) → ℕ
exponential base cap attempt = min (base * 2 ^ (attempt - 1)) cap

-- exp / 2 + Math.random() * (exp / 2); `none` is the error for an attempt below 1.
unfoldable pub compute_backoff_ms : (base cap random attempt : ℕ) → Option ℕ
compute_backoff_ms base cap random attempt =
    let exp = exponential base cap attempt in
    if ltb attempt 1 then none else some (exp * 2 ^ 53 + random * exp)
