-- ===== src/Configuration/Laws.antt =====
-- What a configuration that apps/api/src/config.ts loads without an error is like.
use payments_processor.Common.{
  ℕ, ◌≡◌, refl, arith, inl, inr, Bool-cases, Option-cases, Bool, true, not, ◌&&◌, Option, none,
  some, List, [], ◌∷◌, ◌++◌, String,
}
use payments_processor.Configuration.Numbers.{Num, of_nat, is_finite, is_below, is_above, to_number}
use payments_processor.Configuration.Settings.{Config, read_config, loaded, or_throw, load}
use payments_processor.Configuration.{
  Environment, Trouble, check_min, check_max, is_local, is_one_of, is_production, env, num,
}

pub append-eq-nil : {A : Type 0} (xs ys : List A) → xs ++ ys ≡ [] → (xs ≡ []) × (ys ≡ [])
append-eq-nil [] ys h = (refl, h)
append-eq-nil (x ∷ xs) ys h = cc

abbrev within_min : Option ℕ → Num → Bool
within_min none n = true
within_min (some min) n = not (is_below n min)

abbrev within_max : Option ℕ → Num → Bool
within_max none n = true
within_max (some max) n = not (is_above n max)

-- A finite number within the bounds that there are.
abbrev pub IsWithin : (min max : Option ℕ) → Num → Type 0
IsWithin min max n = (is_finite n ≡ true) × (within_min min n ≡ true) × (within_max max n ≡ true)

check_min_quiet :
    (name : String) (n : Num) (min : Option ℕ) → check_min name n min ≡ [] → within_min min n ≡ true
check_min_quiet name n none h = refl
check_min_quiet name n (some min) h = ground arith

check_max_quiet :
    (name : String) (n : Num) (max : Option ℕ) → check_max name n max ≡ [] → within_max max n ≡ true
check_max_quiet name n none h = refl
check_max_quiet name n (some max) h = ground arith

pub num-IsWithin :
    (name : String) (fallback : ℕ) (min max : Option ℕ) (e : Environment)
    → IsWithin min max (of_nat fallback)
    → (num name fallback min max e).1 ≡ []
    → IsWithin min max (num name fallback min max e).0
unfolding num
num-IsWithin name fallback min max e h quiet = elim (Option-cases (e name)) [
  | inl unset ↦ rw unset h
  | inr (raw, set) ↦ elim (Bool-cases (is_finite (to_number raw))) [
    | inl finite ↦
        let (low, high) =
          append-eq-nil (check_min name (to_number raw) min) (check_max name (to_number raw) max)
            (rw (set, finite) at quiet) in
        rw (set, finite)
          (
            finite,
            check_min_quiet name (to_number raw) min low,
            check_max_quiet name (to_number raw) max high,
          )
    | inr strange ↦ absurd (ground (arith, rw (set, strange) at quiet))
  ]
]

-- Without a problem in production, a setting whose fallback is local was given.
pub env_given :
    (name fallback : String) (allowed : Option (List String)) (e : Environment)
    → is_production e ≡ true
    → is_local fallback ≡ true
    → (env name fallback allowed e).1 ≡ []
    → e name ≡ some (env name fallback allowed e).0
unfolding env
env_given name fallback allowed e production local quiet = elim (Option-cases (e name)) [
  | inl unset ↦ absurd (ground (arith, rw (unset, production, local) at quiet))
  | inr (raw, set) ↦ rw set
]

pub env_allowed :
    (name fallback : String) (allowed : List String) (e : Environment)
    → is_one_of allowed fallback ≡ true
    → (env name fallback (some allowed) e).1 ≡ []
    → is_one_of allowed (env name fallback (some allowed) e).0 ≡ true
unfolding env
env_allowed name fallback allowed e h quiet = elim (Option-cases (e name)) [
  | inl unset ↦ elim (Bool-cases (is_production e && is_local fallback)) [
    | inl required ↦ rw (unset, required) h
    | inr free ↦ rw (unset, free) h
  ]
  | inr (raw, set) ↦ elim (Bool-cases (is_one_of allowed raw)) [
    | inl fine ↦ rw set fine
    | inr wrong ↦ absurd (ground (arith, rw (set, wrong) at quiet))
  ]
]

pub load-read_config :
    (e : Environment) (c : Config)
    → load e ≡ loaded c
    → ((read_config e).0 ≡ c) × ((read_config e).1 ≡ [])
unfolding load
load-read_config e c h = or_throw-loaded (read_config e).0 (read_config e).1 c h
  where
    or_throw-loaded :
        (d : Config) (ts : List Trouble) (c : Config)
        → or_throw (d, ts) ≡ loaded c
        → (d ≡ c) × (ts ≡ [])
    or_throw-loaded d [] c h = (cc, refl)
    or_throw-loaded d (t ∷ ts) c h = absurd (cc)
