-- ===== src/Console/Tests.antt =====
-- The laws of apps/web/src at concrete inputs.
use payments_processor.Common.{
  ℕ, ◌≡◌, ◌⊎◌, refl, true, false, Option, some, none, List, [], ◌∷◌, String, arith, is_empty, same,
  if◌then◌else◌,
}
use payments_processor.Bank.ConfigSync.Laws.{IsOlder}
use payments_processor.Bank.ConfigSync.{get, BankConfigSync}
use payments_processor.Bank.Simulated.{new_bank}
use payments_processor.Console.Chaos.Laws.{
  Event, polled, edited, run, edits_of, run-edits_of, IsAcceptable, Applied, Refused, apply-tick,
}
use payments_processor.Console.Chaos.{ChaosPage, initial_page, Edit, apply}
use payments_processor.Console.Client.{said, returns, throws}
use payments_processor.Console.Polling.Laws.{expected, handle_all_calls}
use payments_processor.Console.Polling.{
  Event as PollEvent, render, unmount, interval, visibility, before_mount, fire, notify, rendered,
  handle, handle_all,
}
use payments_processor.Console.Queries.Reading.{parse_query, query_of}
use payments_processor.Console.Queries.Sent.{ReadsNumbers, list_query-list_path}
use payments_processor.Console.Queries.{Params, list_path, list_query}
use payments_processor.Console.SubmitForm.{Form, defaults, SubmitForm, opened, handle_submit}
use payments_processor.Database.{Db, BankConfig, always_authorize, always_decline}
use payments_processor.Payments.Service.{CreatePaymentDto, Fresh}
use payments_processor.Shared.Money.Digits.{number-decimal, decimal-IsDigits, span_digits_all}
use payments_processor.Shared.Money.{Text, span_digits, to_text, decimal, number}

abbrev config_row : BankConfig
config_row = record {
  id = "singleton";
  mode = always_authorize;
  latency_ms = 200;
  fail_n = 2;
  updated_at = 100;
}

abbrev db : Db
db = record {
  payments = [];
  payment_events = [];
  idempotency_keys = [];
  outbox = [];
  webhook_endpoints = [];
  webhook_deliveries = [];
  bank_config = config_row ∷ [];
}

abbrev fresh_at : Fresh
fresh_at = record { id = 1; event_id = 2; outbox_id = 3; now = 1000 }

abbrev fresh_later : Fresh
fresh_later = record { id = 4; event_id = 5; outbox_id = 6; now = 2000 }

abbrev codes : ℕ → Option String
codes _ = some "Error"

abbrev hash_of : CreatePaymentDto → String
hash_of dto = dto.source_account

abbrev header : String → Option String
header cor = some cor

abbrev form : SubmitForm
form = opened "key"

abbrev edited_form : Form
edited_form = record defaults { source_account = "VA10002" }

abbrev after : SubmitForm × Db
after = handle_submit codes hash_of header fresh_at "cor" form db

abbrev filled_page : ChaosPage
filled_page = record initial_page { initialized = true }

abbrev events : List Event
events =
    polled (returns config_row)
    ∷ edited (Edit.set_latency_ms 900)
    ∷ polled (throws (said "Failed to fetch"))
    ∷ polled (returns config_row)
    ∷ []

run-edits_of_example :
    ((run events filled_page).mode ≡ (run (edits_of events) filled_page).mode)
    × ((run events filled_page).latency_ms ≡ (run (edits_of events) filled_page).latency_ms)
    × ((run events filled_page).fail_n ≡ (run (edits_of events) filled_page).fail_n)
run-edits_of_example = run-edits_of events filled_page refl

abbrev decline_page : ChaosPage
decline_page = record filled_page { mode = always_decline; config = some config_row }

abbrev worker_sync : BankConfigSync
worker_sync = record { last_applied_at = some 100; bank = new_bank }

config_found : get db ≡ some config_row
unfolding get
config_found = refl

newer : IsOlder (some 100) 200
newer = omega arith

apply-tick_example :
    (((apply 200 decline_page db).0.mode ≡ always_decline)
      × ((apply 200 decline_page db).0.latency_ms ≡ decline_page.latency_ms)
      × ((apply 200 decline_page db).0.fail_n ≡ decline_page.fail_n))
    × ((IsAcceptable decline_page × Applied 200 decline_page config_row db worker_sync)
        ⊎ (¬ IsAcceptable decline_page × Refused 200 decline_page db))
apply-tick_example = apply-tick 200 decline_page config_row db worker_sync config_found newer

abbrev session : List PollEvent
session =
    render 1 2000 true
    ∷ interval
    ∷ visibility false
    ∷ interval
    ∷ render 2 2000 true
    ∷ visibility true
    ∷ unmount
    ∷ interval
    ∷ []

handle_all_calls_example :
    (handle_all session (before_mount true)).calls
    ≡ expected session (record { fn = 0; deps = none; is_visible = true }) []
handle_all_calls_example = handle_all_calls session true

session_calls : (handle_all session (before_mount true)).calls ≡ 2 ∷ 1 ∷ 1 ∷ []
unfolding handle_all handle rendered fire notify
session_calls = refl

-- A reading of numbers by their digits.
abbrev whole : Text → Option ℕ
whole text = let (ds, rest) = span_digits text in if is_empty rest then some (number ds) else none

whole-ReadsNumbers : ReadsNumbers whole
unfolding to_text
whole-ReadsNumbers n h =
    let digits : span_digits (decimal 21 n) ≡ (decimal 21 n, []) =
      span_digits_all (decimal 21 n) (decimal-IsDigits 21 n) in
    rw (digits, number-decimal 21 n (omega (arith, h)))

abbrev failed_name : Text
failed_name = b'f' ∷ b'a' ∷ b'i' ∷ b'l' ∷ b'e' ∷ b'd' ∷ []

abbrev path : Text
path = b'/' ∷ b'v' ∷ b'1' ∷ b'/' ∷ b'p' ∷ []

-- A cursor with characters that a query has to escape.
abbrev params : Params
params = record {
  status = some failed_name;
  cursor = some (b'0' ∷ b'&' ∷ b'=' ∷ b'?' ∷ []);
  limit = some 5;
}

list_query-list_path_example :
    list_query whole (failed_name ∷ []) (parse_query (query_of (list_path path params)))
    ≡ some (record {
      status = some failed_name;
      cursor = some (b'0' ∷ b'&' ∷ b'=' ∷ b'?' ∷ []);
      limit = 5;
    })
unfolding same
list_query-list_path_example =
    list_query-list_path whole (failed_name ∷ []) path params whole-ReadsNumbers
      (refl, (refl, (refl, (refl, (refl, tt))))) (ground arith, (ground arith, omega arith))
