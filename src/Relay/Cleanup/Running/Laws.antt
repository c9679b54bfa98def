-- ===== src/Relay/Cleanup/Running/Laws.antt =====
-- The partitions of apps/api/src/relay/outbox-cleanup.service.ts while the relay ticks and rows are
-- inserted.
use payments_processor.Common.{
  ℕ, zero, suc, ◌+◌, ◌/◌, ◌≤◌, ◌<◌, ◌≡◌, refl, ◌∙◌, inl, inr, Bool, true, List, [], ◌∷◌, ◌++◌,
  arith, All, All-append, All-map, any, filter_by, Bool-cases,
}
use payments_processor.Relay.Cleanup.Ensuring.{
  IsDailyBound, IsDaily, covers_bound, covers, homes, IsClear, IsClearBound, IsTable, added,
  all_added, any-homes,
}
use payments_processor.Relay.Cleanup.Upkeep.{tick-filter_by, tick_keeps}
use payments_processor.Relay.Cleanup.{
  day_ms, Bound, range, default, Partition, is_within, is_home, tick,
}
use payments_processor.Shared.Money.{Text}
use payments_processor.Relay.Cleanup.Running.{
  put, insert_row, Event, run, happens, Steady, row, upkeep,
}

abbrev IsEmptyBound : List ℕ → Bound → Type 0
IsEmptyBound rows (range from to) = Unit
IsEmptyBound rows default = rows ≡ []

-- The default partition has no rows.
abbrev pub IsEmptyDefault : Partition → Type 0
IsEmptyDefault p = IsEmptyBound p.rows p.bound

record Holds (day : ℕ) (parts : List Partition) : Type 0 where
  table : IsTable parts
  empty : All IsEmptyDefault parts
  ahead : (x : ℕ) → day ≤ x → x ≤ day + 7 → homes x parts ≡ 1

is_home-covers_bound : (time : ℕ) (b : Bound) → is_home time b ≡ covers_bound (time / day_ms) b
is_home-covers_bound time (range from to) = ground arith
is_home-covers_bound time default = refl

any-is_home :
    (time : ℕ) (parts : List Partition)
    → any (λ p. is_home time p.bound) parts ≡ any (covers (time / day_ms)) parts
any-is_home time [] = refl
any-is_home time (p ∷ parts) = rw (is_home-covers_bound time p.bound, any-is_home time parts)

homes-put :
    (to : Bound → Bool) (time x : ℕ) (parts : List Partition)
    → homes x (put to time parts) ≡ homes x parts
homes-put to time x [] = refl
homes-put to time x (p ∷ parts) = elim (Bool-cases (to p.bound)) [
  | inl here ↦ rw here (ground arith)
  | inr later ↦ rw later (ground (arith, homes-put to time x parts))
]

IsDailyBound-append :
    (name : Text) (rows : List ℕ) (time : ℕ) (b : Bound)
    → is_home time b ≡ true
    → IsDailyBound name rows b
    → IsDailyBound name (rows ++ time ∷ []) b
IsDailyBound-append name rows time (range from to) home (e, f, k, l) =
    (e, f, k, All-append (λ t. is_within from to t ≡ true) rows _ l (home, tt))
IsDailyBound-append name rows time default home d = d

IsEmptyBound-append :
    (rows : List ℕ) (time : ℕ) (b : Bound)
    → is_home time b ≡ true
    → IsEmptyBound (rows ++ time ∷ []) b
IsEmptyBound-append rows time (range from to) home = tt
IsEmptyBound-append rows time default home = absurd (ground arith)

put-IsDaily :
    (time : ℕ) (parts : List Partition)
    → All IsDaily parts
    → All IsDaily (put (is_home time) time parts)
put-IsDaily time [] daily = tt
put-IsDaily time (p ∷ parts) daily = elim (Bool-cases (is_home time p.bound)) [
  | inl here ↦ rw here (IsDailyBound-append p.name p.rows time p.bound here daily.0, daily.1)
  | inr later ↦ rw later (daily.0, put-IsDaily time parts daily.1)
]

put-IsEmptyDefault :
    (time : ℕ) (parts : List Partition)
    → All IsEmptyDefault parts
    → All IsEmptyDefault (put (is_home time) time parts)
put-IsEmptyDefault time [] empty = tt
put-IsEmptyDefault time (p ∷ parts) empty = elim (Bool-cases (is_home time p.bound)) [
  | inl here ↦ rw here (IsEmptyBound-append p.rows time p.bound here, empty.1)
  | inr later ↦ rw later (empty.0, put-IsEmptyDefault time parts empty.1)
]

insert_row-Holds :
    (day time : ℕ) (parts : List Partition)
    → day ≤ time / day_ms
    → time / day_ms ≤ day + 7
    → Holds day parts
    → Holds day (insert_row time parts)
unfolding insert_row
insert_row-Holds day time parts lo hi h =
    let found : any (λ p. is_home time p.bound) parts ≡ true =
      any-is_home time parts
      ∙ ground (arith, any-homes (time / day_ms) parts, h.ahead (time / day_ms) lo hi) in
    rw found (record {
      table = record {
        daily = put-IsDaily time parts h.table.daily;
        apart = λ x. rw (homes-put (is_home time) time x parts) (h.table.apart x);
      };
      empty = put-IsEmptyDefault time parts h.empty;
      ahead = λ x lo hi. homes-put (is_home time) time x parts ∙ h.ahead x lo hi;
    })

IsEmptyBound-IsClear :
    (x : ℕ) (rows : List ℕ) (b : Bound) → IsEmptyBound rows b → IsClearBound x rows b
IsEmptyBound-IsClear x rows (range from to) e = tt
IsEmptyBound-IsClear x rows default e = rw e

IsEmptyDefault-IsClear :
    (x : ℕ) (parts : List Partition) → All IsEmptyDefault parts → All (IsClear x) parts
IsEmptyDefault-IsClear x = All-map (λ p e. IsEmptyBound-IsClear x p.rows p.bound e)

all_added-IsEmptyDefault :
    (left day : ℕ) (parts : List Partition)
    → All IsEmptyDefault parts
    → All IsEmptyDefault (all_added left day parts)
all_added-IsEmptyDefault zero day parts empty = empty
all_added-IsEmptyDefault (suc left) day parts empty =
    all_added-IsEmptyDefault left (day + 1) (added day parts)
      (elim (Bool-cases (any (covers day) parts)) [
        | inl there ↦ rw there empty
        | inr missing ↦ rw missing (All-append IsEmptyDefault parts _ empty (tt, tt))
      ])

filter_by-All :
    {A : Type 0} (P : A → Type 0) (p : A → Bool) (xs : List A) → All P xs → All P (filter_by p xs)
filter_by-All P p [] h = tt
filter_by-All P p (x ∷ xs) h = elim (Bool-cases (p x)) [
  | inl kept ↦ rw kept (h.0, filter_by-All P p xs h.1)
  | inr dropped ↦ rw dropped (filter_by-All P p xs h.1)
]

tick-Holds :
    (retention_days : ℕ) (clock : ℕ → ℕ) (today : ℕ) (parts : List Partition)
    → ((k : ℕ) → clock k / day_ms ≡ today)
    → 36_525 ≤ today
    → today + 8 ≤ 3_652_425
    → IsTable parts
    → All IsEmptyDefault parts
    → Holds today (tick retention_days clock parts)
tick-Holds retention_days clock today parts one_day h k t empty =
    let clear : (x : ℕ) → today ≤ x → x < today + 8 → All (IsClear x) parts =
      λ x lo hi. IsEmptyDefault-IsClear x parts empty in
    let (near, _, _, table) = tick_keeps clock today one_day retention_days parts h k t clear in
    record {
      table = table;
      empty =
          rw (tick-filter_by clock today one_day retention_days parts h k t clear)
            (filter_by-All IsEmptyDefault _ _ (all_added-IsEmptyDefault 8 (today + 0) parts empty));
      ahead = near;
    }

run-Holds :
    (retention_days day : ℕ) (es : List Event) (parts : List Partition)
    → 36_525 ≤ day
    → Steady day es
    → Holds day parts
    → IsTable (run retention_days es parts) × All IsEmptyDefault (run retention_days es parts)
unfolding run happens
run-Holds retention_days day [] parts first s h = (h.table, h.empty)
run-Holds retention_days day _ parts first (row time {es} lo hi s) h =
    run-Holds retention_days day es (insert_row time parts) first s
      (insert_row-Holds day time parts lo hi h)
run-Holds retention_days day _ parts first (upkeep clock today {es} one_day lo hi s) h =
    run-Holds retention_days today es (tick retention_days clock parts) (omega arith) s
      (tick-Holds retention_days clock today parts one_day (omega arith) hi h.table h.empty)

-- When a tick finds daily partitions with none for the same day and an empty default partition; when
-- the readings of the clock in each tick fall on one day, which like the seven after it is in the
-- years 100 to 9999, and no tick is on an earlier day than the one before; and when rows are inserted only
-- for the days from that of the last tick to a week on; then after any such ticks and inserts the partitions are daily ones with none for the same
-- day, and the default partition is empty: no row has gone there.
pub run-IsEmptyDefault :
    (retention_days : ℕ) (clock : ℕ → ℕ) (today : ℕ) (es : List Event) (parts : List Partition)
    → ((k : ℕ) → clock k / day_ms ≡ today)
    → 36_525 ≤ today
    → today + 8 ≤ 3_652_425
    → IsTable parts
    → All IsEmptyDefault parts
    → Steady today es
    → IsTable (run retention_days es (tick retention_days clock parts))
      × All IsEmptyDefault (run retention_days es (tick retention_days clock parts))
run-IsEmptyDefault retention_days clock today es parts one_day h k t empty s =
    run-Holds retention_days today es (tick retention_days clock parts) h s
      (tick-Holds retention_days clock today parts one_day h k t empty)
