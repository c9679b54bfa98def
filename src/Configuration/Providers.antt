-- ===== src/Configuration/Providers.antt =====
-- apps/api/src/common/provider-registry.ts, and the registry of apps/api/src/bank/bank.module.ts.
use payments_processor.Common.{List, [], ◌∷◌, String, str_eq, map, if◌then◌else◌}

-- What Nest takes for a token.
pub data Provider (Impl : Type 0) : Type 0 where
  provider : Impl → Provider Impl
  not_registered : (key : String) → (known : List String) → Provider Impl

module _ {Impl : Type 0} where
  abbrev select_from : List String → String → List (String × Impl) → Provider Impl
  select_from known key [] = not_registered key known
  select_from known key ((name, impl) ∷ rest) =
      let other = select_from known key rest in if str_eq name key then provider impl else other

  -- `selectProvider`, for a registry without the properties that every object inherits.
  unfoldable pub select_provider : List (String × Impl) → String → Provider Impl
  select_provider registry key = select_from (map (λ r. r.0) registry) key registry

pub data BankImpl : Type 0 where
  simulated_bank : BankImpl

abbrev pub bank_registry : List (String × BankImpl)
bank_registry = ("simulated", simulated_bank) ∷ []
