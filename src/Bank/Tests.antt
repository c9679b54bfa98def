-- ===== src/Bank/Tests.antt =====
-- The laws of apps/api/src/bank at concrete inputs.
use payments_processor.Common.{
  ◌≡◌, ◌↔◌, ◌≤◌, ◌<◌, ◌+◌, refl, true, false, none, some, List, [], ◌∷◌, All, arith,
}
use payments_processor.Database.{of_key, always_decline}
use payments_processor.Bank.{BankAuthorizeRequest, authorized}
use payments_processor.Bank.Breaker.{closed, open_circuit, CircuitBreaker, new_breaker, allow}
use payments_processor.Bank.Breaker.Laws.{
  BreakerCall, record_at, streak, Refuses, closed_iff, cooldown, perform_all as breaker_after,
}
use payments_processor.Bank.Simulated.{new_bank, authorize}
use payments_processor.Bank.Simulated.Laws.{
  BankCall, authorize_call, set_config_call, IsSettled, charges_once, authorize-again,
  perform_all as bank_after,
}

threshold_positive : 0 < 2
threshold_positive = omega arith

abbrev two_failures : List BreakerCall
two_failures = record_at false 5 ∷ record_at false 9 ∷ []

closed_iff_example :
    ((breaker_after 2 1000 two_failures (new_breaker 0)).state ≡ closed)
    ↔ (streak 0 two_failures < 2)
closed_iff_example = closed_iff 2 1000 0 two_failures threshold_positive

abbrev tripped : CircuitBreaker
tripped = record { state = open_circuit; opened_at = 9; failures = 2 }

early_calls : All (λ t. t < 9 + 1000) (10 ∷ 500 ∷ [])
early_calls = (omega arith, (omega arith, tt))

late_call : 9 + 1000 ≤ 1200
late_call = omega arith

cooldown_example :
    Refuses 1000 (10 ∷ 500 ∷ []) tripped
    × ((allow 1000 1200 tripped).0 ≡ true)
    × Refuses 1000 (1201 ∷ []) (allow 1000 1200 tripped).1
cooldown_example = cooldown 1000 1200 (10 ∷ 500 ∷ []) (1201 ∷ []) tripped refl early_calls late_call

abbrev request : BankAuthorizeRequest
request = record { payment_id = 7; amount_cents = 1050; currency = "USD"; idempotency_key = 7 }

abbrev some_calls : List BankCall
some_calls =
    authorize_call request
    ∷ set_config_call (some always_decline) none none
    ∷ authorize_call request
    ∷ []

charges_once_example : IsSettled (bank_after some_calls new_bank)
charges_once_example = charges_once some_calls

first_answer : (authorize request new_bank).0 ≡ authorized (of_key 7)
unfolding authorize new_bank
first_answer = refl

authorize-again_example :
    authorize request (bank_after some_calls (authorize request new_bank).1)
    ≡ (authorized (of_key 7), bank_after some_calls (authorize request new_bank).1)
authorize-again_example =
    authorize-again request request (of_key 7) some_calls new_bank first_answer refl
