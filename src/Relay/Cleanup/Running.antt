-- ===== src/Relay/Cleanup/Running.antt =====
-- The outbox of apps/api/src/relay/outbox-cleanup.service.ts over time: what Postgres does with a new
-- row, and the relay's ticks among the inserts of the services.
pub mod Laws
use payments_processor.Common.{
  ℕ, zero, suc, ◌+◌, ◌-◌, ◌*◌, ◌/◌, ◌≤◌, ◌<◌, ◌≡◌, refl, sym, ◌∙◌, ap, inl, inr, Bool, true, false,
  not, ◌&&◌, ◌||◌, List, [], ◌∷◌, ◌++◌, arith, All, All-append, All-map, any, filter_by, length,
  ltb, leb, if◌then◌else◌, Bool-cases,
}
use payments_processor.Relay.Cleanup.Ensuring.{
  IsDailyBound, IsDaily, covers_bound, covers, homes, IsClear, IsClearBound, IsTable, added,
  all_added, added-IsClear, homes-added, any-homes,
}
use payments_processor.Relay.Cleanup.Upkeep.{tick-filter_by, tick_keeps}
use payments_processor.Relay.Cleanup.{
  day_ms, Bound, range, default, Partition, is_within, is_home, tick,
}
use payments_processor.Shared.Money.{Text}

abbrev pub is_default : Bound → Bool
is_default (range from to) = false
is_default default = true

-- The row goes to the first partition that passes.
abbrev pub put : (Bound → Bool) → ℕ → List Partition → List Partition
put to time [] = []
put to time (p ∷ parts) =
    let later = p ∷ put to time parts in
    if to p.bound then record p { rows = p.rows ++ time ∷ [] } ∷ parts else later

-- Postgres puts a new row into the range for its time, and into the default partition where there
-- is none.
unfoldable pub insert_row : ℕ → List Partition → List Partition
insert_row time parts =
    if any (λ p. is_home time p.bound) parts
    then put (is_home time) time parts
    else put is_default time parts

-- A tick with its readings of the clock, or the insert of a row.
pub data Event : Type 0 where
  ticks : (ℕ → ℕ) → Event
  inserts : ℕ → Event

unfoldable pub happens : ℕ → Event → List Partition → List Partition
happens retention_days (ticks clock) parts = tick retention_days clock parts
happens retention_days (inserts time) parts = insert_row time parts

unfoldable pub run : ℕ → List Event → List Partition → List Partition
run retention_days [] parts = parts
run retention_days (e ∷ es) parts = run retention_days es (happens retention_days e parts)

-- From a tick on a day, rows are inserted on the days from that one to a week on, and the next tick
-- is at any later time, but stays within one day of the calendar.
pub data Steady : ℕ → List Event → Type 0 where
  ends : {day : ℕ} → Steady day []
  row :
      {day : ℕ} (time : ℕ) {es : List Event}
      → day ≤ time / day_ms
      → time / day_ms ≤ day + 7
      → Steady day es
      → Steady day (inserts time ∷ es)
  upkeep :
      {day : ℕ} (clock : ℕ → ℕ) (today : ℕ) {es : List Event}
      → ((k : ℕ) → clock k / day_ms ≡ today)
      → day ≤ today
      → today + 8 ≤ 3_652_425
      → Steady today es
      → Steady day (ticks clock ∷ es)
