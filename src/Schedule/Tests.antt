-- ===== src/Schedule/Tests.antt =====
-- The loop of apps/api/src/bank/bank-config-sync.service.ts at a run whose first poll fails.
use payments_processor.Common.{◌≡◌, refl, inl, inr, ◌⊎◌, Option, some, none, List, [], ◌∷◌}
use payments_processor.Bank.ConfigSync.{BankConfigSync, sync_once}
use payments_processor.Bank.Simulated.{new_bank}
use payments_processor.Database.{Db, always_decline}
use payments_processor.Schedule.{
  Outcome, returned, thrown, Service, Event, fires, ends, new_service, on_module_init,
  on_application_shutdown, handle, handle_all,
}
use payments_processor.Schedule.Laws.{
  IsWaiting, IsTicking, IsAlive, ran, inputs_of, Run, IsStopped, IsRearmed, handle_all-IsAlive,
  on_application_shutdown_cases,
}

abbrev no_rows : Db
no_rows = record {
  payments = [];
  payment_events = [];
  idempotency_keys = [];
  outbox = [];
  webhook_endpoints = [];
  webhook_deliveries = [];
  bank_config = [];
}

abbrev configured : Db
configured = record no_rows {
  bank_config =
      record {
        id = "singleton";
        mode = always_decline;
        latency_ms = 0;
        fail_n = 2;
        updated_at = 100;
      }
      ∷ [];
}

abbrev outcome_of : Option BankConfigSync → BankConfigSync → Outcome BankConfigSync
outcome_of none s = thrown s
outcome_of (some s') s = returned s'

abbrev syncing : Db → BankConfigSync → Outcome BankConfigSync
syncing db s = outcome_of (sync_once db s) s

abbrev started : Service BankConfigSync
started = on_module_init (new_service (record { last_applied_at = none; bank = new_bank }))

abbrev some_events : List (Event Db)
some_events = fires 0 ∷ ends no_rows ∷ fires 1 ∷ ends configured ∷ fires 2 ∷ []

started-IsAlive : IsAlive started
started-IsAlive = inl (0, (refl, (refl, refl)))

abbrev in_third_tick : Service BankConfigSync
in_third_tick = record {
  state = ran syncing (no_rows ∷ configured ∷ []) started.state;
  timer = some 2;
  pending = [];
  next_timer = 3;
  ticks = 1;
}

handle_all-IsAlive_example :
    IsAlive in_third_tick
    × ((in_third_tick.state ≡ ran syncing (inputs_of some_events) started.state)
        × ((is : List Db) → Run syncing is in_third_tick))
handle_all-IsAlive_example =
    handle_all-IsAlive syncing some_events started in_third_tick started-IsAlive
      (tt, (tt, (tt, (tt, (tt, tt))))) (unfold handle_all handle in refl)

on_application_shutdown_cases_example :
    (IsWaiting in_third_tick × IsStopped syncing (on_application_shutdown in_third_tick))
    ⊎ (IsTicking in_third_tick × IsRearmed syncing (on_application_shutdown in_third_tick))
on_application_shutdown_cases_example =
    on_application_shutdown_cases syncing in_third_tick (inr (refl, refl))
