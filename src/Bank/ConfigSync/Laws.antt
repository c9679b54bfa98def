-- ===== src/Bank/ConfigSync/Laws.antt =====
-- The chaos control and the bank: apps/api/src/admin/bank-config.service.ts and
-- apps/api/src/bank/bank-config-sync.service.ts.
use payments_processor.Common.{
  ℕ, ◌≤◌, ◌<◌, ◌≡◌, ◌⊎◌, refl, Option, none, some, List, [], ◌∷◌, arith, filter_by, ap, ◌∙◌,
}
use payments_processor.Common.Table.{update_where, returning, first}
use payments_processor.Database.{BankConfig, Db}
use payments_processor.Bank.Simulated.{SimulatedBankAdapter, set_config}
use payments_processor.Bank.ConfigSync.{
  UpdateBankConfigDto, is_singleton, get, update, patched, BankConfigSync, tick,
}

filter_by-update_where :
    (now : ℕ) (dto : UpdateBankConfigDto) (rows : List BankConfig)
    → filter_by is_singleton (update_where is_singleton (patched now dto) rows)
      ≡ returning is_singleton (patched now dto) rows
filter_by-update_where now dto [] = refl
filter_by-update_where now dto (r ∷ rows) = ground (arith, filter_by-update_where now dto rows)

first-returning :
    (now : ℕ) (dto : UpdateBankConfigDto) (row : BankConfig) (rows : List BankConfig)
    → first (filter_by is_singleton rows) ≡ some row
    → first (returning is_singleton (patched now dto) rows) ≡ some (patched now dto row)
first-returning now dto row [] h = cc
first-returning now dto row (r ∷ rows) h = ground (arith, first-returning now dto row rows)

-- An update answers with the row that a later read finds: the old row with the given fields
-- replaced and the others kept.
pub get-update :
    (now : ℕ) (dto : UpdateBankConfigDto) (row : BankConfig) (db : Db)
    → get db ≡ some row
    → ((update now dto db).0 ≡ some (patched now dto row))
      × (get (update now dto db).1 ≡ some (patched now dto row))
unfolding get update
get-update now dto row db h = (
  first-returning now dto row db.bank_config h,
  ap first (filter_by-update_where now dto db.bank_config)
      ∙ first-returning now dto row db.bank_config h,
)

-- The worker's bank behaves as the row says.
abbrev pub Follows : BankConfig → SimulatedBankAdapter → Type 0
Follows row b = (b.mode ≡ row.mode) × (b.fail_n ≡ row.fail_n) × (b.latency_ms ≡ row.latency_ms)

abbrev pub IsOlder : Option ℕ → ℕ → Type 0
IsOlder none now = Unit
IsOlder (some last) now = last < now

tick_applies :
    (row : BankConfig) (db : Db) (s : BankConfigSync)
    → get db ≡ some row
    → IsOlder s.last_applied_at row.updated_at
    → Follows row (tick db s).bank
      × ((tick db s).bank.fail_count ≡ 0)
      × ((tick db s).last_applied_at ≡ some row.updated_at)
unfolding get tick set_config
tick_applies row db s h older = ground arith

-- After an update that is newer than what the worker has applied, one poll of the worker makes its
-- bank follow the patched row and start counting failures anew.
pub update-tick :
    (now : ℕ) (dto : UpdateBankConfigDto) (row : BankConfig) (db : Db) (s : BankConfigSync)
    → get db ≡ some row
    → IsOlder s.last_applied_at now
    → Follows (patched now dto row) (tick (update now dto db).1 s).bank
      × ((tick (update now dto db).1 s).bank.fail_count ≡ 0)
update-tick now dto row db s h older =
    let (follows, count, _) =
      tick_applies (patched now dto row) (update now dto db).1 s (get-update now dto row db h).1
        older in
    (follows, count)

-- A poll that finds no newer row, or no row at all, leaves the bank alone: its failures are not
-- counted anew.
pub tick_idle :
    (db : Db) (s : BankConfigSync)
    → (get db ≡ none)
      ⊎ ((row : BankConfig) × (last : ℕ) × (get db ≡ some row)
          × (s.last_applied_at ≡ some last)
          × (row.updated_at ≤ last))
    → (tick db s).bank ≡ s.bank
unfolding get tick
tick_idle db s h = ground arith
