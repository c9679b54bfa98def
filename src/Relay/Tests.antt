-- ===== src/Relay/Tests.antt =====
-- The laws of apps/api/src/relay at concrete inputs.
use payments_processor.Common.{
  List, sort_asc, insert_asc, ℕ, ◌+◌, ◌*◌, ◌≤◌, ◌≡◌, refl, Bool, true, false, inl, some, none, [],
  ◌∷◌, map, length, arith,
}
use payments_processor.Common.Table.{HasUniqueKeys}
use payments_processor.Shared.Status.{processing}
use payments_processor.Database.{Payment, Outbox, JobData, submission, payment_submitted, Db}
use payments_processor.Relay.Poll.{published_job}
use payments_processor.Relay.Poll.Laws.{queue_of, polls, polls-drain}
use payments_processor.Relay.Publishing.Laws.{IsDrained, publishing_drains}
use payments_processor.Relay.Publishing.{Poll, commits, rolls_back, Published, publishing}
use payments_processor.Schedule.Laws.{IsAlive, inputs_of}
use payments_processor.Schedule.{Service, Event, new_service, on_module_init, handle_all}
use payments_processor.Relay.Reaper.{select_stuck, reap_once}
use payments_processor.Relay.Reaper.Unstranding.{AreNewUlids}
use payments_processor.Relay.Reaper.Laws.{IsReaped, reap_once_redrives}

abbrev job : JobData
job = record { payment_id = 1; amount_cents = 1050; currency = "USD"; correlation_id = none }

abbrev unpublished : (id created_at : ℕ) → Outbox
unpublished id created_at = record {
  id = id;
  aggregate_type = "payment";
  aggregate_id = 1;
  event_type = payment_submitted;
  payload = submission job "acc_a" "acc_b" "cust_1";
  published_at = none;
  webhook_dispatched_at = none;
  created_at = created_at;
}

abbrev stranded : Payment
stranded = record {
  id = 1;
  customer_id = "cust_1";
  source_account = "acc_a";
  destination_account = "acc_b";
  amount_cents = 1050;
  currency = "USD";
  reference = none;
  status = processing;
  version = 1;
  attempt_count = 0;
  last_error_code = none;
  created_at = 1000;
  updated_at = 2000;
}

abbrev two_waiting : Db
two_waiting = record {
  payments = stranded ∷ [];
  payment_events = [];
  idempotency_keys = [];
  outbox = unpublished 8 200 ∷ unpublished 9 100 ∷ [];
  webhook_endpoints = [];
  webhook_deliveries = [];
  bank_config = [];
}

abbrev nothing_locked : ℕ → Bool
nothing_locked _ = false

abbrev poll_times : List ℕ
poll_times = 5000 ∷ []

outbox_unique : HasUniqueKeys (λ (o : Outbox). o.id) two_waiting.outbox
outbox_unique = (refl, (refl, tt))

enough_polls : length (queue_of nothing_locked two_waiting) ≤ 100 * length poll_times
unfolding queue_of
enough_polls = unfold sort_asc insert_asc in (omega arith)

polls-drain_example :
    ((polls nothing_locked poll_times two_waiting).1
      ≡ map published_job (queue_of nothing_locked two_waiting))
    × (queue_of nothing_locked (polls nothing_locked poll_times two_waiting).0 ≡ [])
polls-drain_example = polls-drain nothing_locked poll_times two_waiting outbox_unique enough_polls

-- The first poll is rolled back after the queue has taken both jobs.
abbrev bad_start : List Poll
bad_start = rolls_back (λ _. true) 4000 ∷ commits 5000 ∷ []

abbrev relay_started : Service Published
relay_started = on_module_init (new_service (two_waiting, []))

relay_started-IsAlive : IsAlive relay_started
relay_started-IsAlive = inl (0, (refl, (refl, refl)))

publishing_drains_example :
    (es : List (Event Poll)) × ((s' : Service Published) × ((inputs_of es ≡ bad_start)
        × ((handle_all (publishing nothing_locked) es relay_started ≡ some s')
            × IsDrained nothing_locked (two_waiting, []) s'.state)))
publishing_drains_example =
    publishing_drains nothing_locked bad_start relay_started relay_started-IsAlive outbox_unique
      enough_polls

payments_unique : HasUniqueKeys (λ (p : Payment). p.id) two_waiting.payments
payments_unique = (refl, tt)

abbrev next_ulid : ℕ → ℕ
next_ulid id = id + 100

next_ulid-AreNewUlids : AreNewUlids next_ulid two_waiting
next_ulid-AreNewUlids = record { fresh = λ id. refl; distinct = λ i j ne. ground arith }

reap_once_redrives_example :
    IsReaped two_waiting
      (select_stuck nothing_locked 60_000 100_000 two_waiting)
      (reap_once nothing_locked 60_000 100_000 100_001 next_ulid two_waiting)
reap_once_redrives_example =
    reap_once_redrives nothing_locked 60_000 100_000 100_001 next_ulid two_waiting payments_unique
      next_ulid-AreNewUlids
