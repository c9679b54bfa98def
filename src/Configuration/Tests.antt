-- ===== src/Configuration/Tests.antt =====
-- The laws of apps/api/src/config.ts at concrete inputs.
use payments_processor.Common.{
  ◌≡◌, refl, true, false, some, none, [], ◌∷◌, str_eq, same, if◌then◌else◌,
}
use payments_processor.Common.Trimming.{trim}
use payments_processor.Shared.Money.{span_digits, number, number_from}
use payments_processor.Configuration.Bounds.{load-InBounds}
use payments_processor.Configuration.Groups.{
  NetworkInBounds, WorkerInBounds, BankInBounds, RelayInBounds, WebhooksInBounds,
}
use payments_processor.Configuration.Numbers.{
  nan, infinity, fraction, of_nat, to_number, number_of_trimmed, after_digits, exponent,
  signed_exponent, radix_from,
}
use payments_processor.Configuration.Required.{load_production}
use payments_processor.Configuration.Settings.{
  Config, loaded, throws, load, read_config, read_network, read_worker, read_bank, read_relay,
  read_webhooks,
}
use payments_processor.Configuration.{
  Environment, missing, not_a_number, below_min, env, num, is_production, origins_of,
}

abbrev production : Environment
production name =
    if str_eq name "NODE_ENV"
    then some "production"
    else if str_eq name "DATABASE_URL"
    then some "postgres://db/payments"
    else if str_eq name "REDIS_URL"
    then some "redis://cache:6379"
    else if str_eq name "CORS_ORIGIN"
    then some "https://a.test, ,https://b.test"
    else if str_eq name "BANK_BREAKER_THRESHOLD"
    then some " 3 "
    else none

abbrev production_config : Config
production_config = (read_config production).0

loads : load production ≡ loaded production_config
unfolding load read_config read_network read_worker read_bank read_relay read_webhooks env num same
loads =
    unfold is_production to_number number_of_trimmed trim after_digits span_digits number in
    unfold number_from origins_of in refl

load-InBounds_example :
    NetworkInBounds production_config.network
    × WorkerInBounds production_config.worker
    × BankInBounds production_config.bank
    × RelayInBounds production_config.relay
    × WebhooksInBounds production_config.webhooks
load-InBounds_example = load-InBounds production production_config loads

in_production : is_production production ≡ true
unfolding is_production
in_production = refl

load_production_example : production "REDIS_URL" ≡ some production_config.network.redis_url
load_production_example = (load_production production production_config loads in_production).1

-- Without the three addresses, and with a number that is none and one that is too small.
abbrev broken : Environment
broken name =
    if str_eq name "NODE_ENV"
    then some "production"
    else if str_eq name "PORT"
    then some ""
    else if str_eq name "WORKER_MAX_RETRIES"
    then some "five"
    else none

refused :
    load broken
    ≡ throws (
        missing "DATABASE_URL"
        ∷ missing "REDIS_URL"
        ∷ below_min "PORT" (of_nat 0) 1
        ∷ missing "CORS_ORIGIN"
        ∷ not_a_number "WORKER_MAX_RETRIES" "five"
        ∷ [])
unfolding load read_config read_network read_worker read_bank read_relay read_webhooks env num same
refused =
    unfold is_production to_number number_of_trimmed trim after_digits span_digits in
    unfold exponent number number_from in refl

numbers :
    (to_number "1.50e1" ≡ fraction false 1500 100)
    × (to_number " 0x1F " ≡ of_nat 31)
    × (to_number "-Infinity" ≡ infinity true)
    × (to_number "1e400" ≡ infinity false)
    × (to_number "1." ≡ of_nat 1)
    × (to_number "1e" ≡ nan)
unfolding to_number number_of_trimmed trim after_digits span_digits exponent signed_exponent number
    same
numbers = unfold number_from radix_from in (refl, refl, refl, refl, refl, refl)
