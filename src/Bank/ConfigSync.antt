-- ===== src/Bank/ConfigSync.antt =====
-- How a change of the bank's configuration reaches the worker: the row that
-- apps/api/src/admin/bank-config.service.ts writes, and the poll of
-- apps/api/src/bank/bank-config-sync.service.ts that reads it.
pub mod Laws
use payments_processor.Common.{
  ℕ, Bool, true, false, ◌||◌, ◌&&◌, Option, none, some, List, ltb, leb, String, str_eq,
  if◌then◌else◌, filter_by,
}
use payments_processor.Common.Table.{update_where, returning, first}
use payments_processor.Database.{BankMode, BankConfig, Db}
use payments_processor.Bank.Simulated.{SimulatedBankAdapter, set_config}

abbrev pub bank_config_id : String
bank_config_id = "singleton"

-- eq(bankConfig.id, BANK_CONFIG_ID)
abbrev pub is_singleton : BankConfig → Bool
is_singleton row = str_eq row.id bank_config_id

-- `BankConfigService.get`
unfoldable pub get : Db → Option BankConfig
get db = first (filter_by is_singleton db.bank_config)

-- The body of a PUT, each field of which may be left out.
pub record UpdateBankConfigDto : Type 0 where
  pub mode : Option BankMode
  pub latency_ms : Option ℕ
  pub fail_n : Option ℕ

abbrev at_most : ℕ → Option ℕ → Bool
at_most limit none = true
at_most limit (some n) = leb n limit

-- @Max(30000) and @Max(100); a request with another body is refused before `update`.
abbrev pub is_in_limits : UpdateBankConfigDto → Bool
is_in_limits dto = at_most 30000 dto.latency_ms && at_most 100 dto.fail_n

abbrev pub provided {ℓ} : {A : Type ℓ} → Option A → A → A
provided none old = old
provided (some new) old = new

-- The assignments of `patch`.
abbrev pub patched : ℕ → UpdateBankConfigDto → BankConfig → BankConfig
patched now dto row = record row {
  updated_at = now;
  mode = provided dto.mode row.mode;
  latency_ms = provided dto.latency_ms row.latency_ms;
  fail_n = provided dto.fail_n row.fail_n;
}

-- `BankConfigService.update`: the row that it returns, and the database.
unfoldable pub update : ℕ → UpdateBankConfigDto → Db → Option BankConfig × Db
update now dto db = (
  first (returning is_singleton (patched now dto) db.bank_config),
  record db { bank_config = update_where is_singleton (patched now dto) db.bank_config },
)

pub record BankConfigSync : Type 0 where
  pub last_applied_at : Option ℕ
  pub bank : SimulatedBankAdapter

-- !this.lastAppliedAt || this.lastAppliedAt < row.updatedAt
abbrev is_newer : Option ℕ → ℕ → Bool
is_newer none updated = true
is_newer (some last) updated = ltb last updated

abbrev apply_row : BankConfig → BankConfigSync → BankConfigSync
apply_row row s = record {
  last_applied_at = some row.updated_at;
  bank =
      if is_newer s.last_applied_at row.updated_at
      then set_config (some row.mode) (some row.fail_n) (some row.latency_ms) s.bank
      else s.bank;
}

-- Where the row is missing, reading its fields throws a TypeError.
abbrev sync_row : Option BankConfig → BankConfigSync → Option BankConfigSync
sync_row none s = none
sync_row (some row) s = some (apply_row row s)

-- `sync_once`; `none` is the error.
unfoldable pub sync_once : Db → BankConfigSync → Option BankConfigSync
unfolding get
sync_once db s = sync_row (first (filter_by is_singleton db.bank_config)) s

abbrev caught : Option BankConfigSync → BankConfigSync → BankConfigSync
caught none s = s
caught (some s') s = s'

-- `tick`, which swallows the error.
unfoldable pub tick : Db → BankConfigSync → BankConfigSync
unfolding sync_once
tick db s = caught (sync_once db s) s
