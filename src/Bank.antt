-- ===== src/Bank.antt =====
-- The bank port, the worker's guard before it and the simulated bank behind it: apps/api/src/bank.
pub mod Breaker
pub mod Simulated
pub mod ConfigSync
mod Tests
use payments_processor.Common.{ℕ, Bool, String}
use payments_processor.Database.{BankRef}

-- The idempotency key is the payment's id.
pub record BankAuthorizeRequest : Type 0 where
  pub payment_id : ℕ
  pub amount_cents : ℕ
  pub currency : String
  pub idempotency_key : ℕ

pub data BankOutcome : Type 0 where
  authorized : BankRef → BankOutcome
  declined : (reason : String) → BankOutcome
  error : (retryable : Bool) → (reason : String) → BankOutcome

-- How the race between a call of the bank and its timer ends, bank.timeout.ts: with the bank's
-- answer, with `BankTimeoutError`, or with an error that the bank threw.
pub data BankReply : Type 0 where
  answered : BankOutcome → BankReply
  timed_out : BankReply
  rejected : BankReply
