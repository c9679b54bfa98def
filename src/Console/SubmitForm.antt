-- ===== src/Console/SubmitForm.antt =====
-- The form of apps/web/src/components/SubmitPaymentForm.tsx, and its request as the API answers it.
-- The inputs are those that the validation of the body lets through.
pub mod Laws
use payments_processor.Common.{
  ℕ, Bool, true, false, Option, none, some, List, [], ◌∷◌, String, str_eq, mem, if◌then◌else◌,
}
use payments_processor.Console.Client.{
  Fetched, responded, refused, Message, said, Called, returns, throws, send, error_body,
}
use payments_processor.Common.Trimming.{trim}
use payments_processor.Database.{Payment, Db}
use payments_processor.Payments.Controller.{Response, accepted, create_payment}
use payments_processor.Payments.Service.{CreatePaymentDto, Fresh}
use payments_processor.Problems.{Exception, Problem, catch, exception_of}
use payments_processor.Shared.Money.{Text}
use payments_processor.Shared.Status.{PaymentStatus}

-- `SubmitPaymentInput` as the form holds it.
pub record Form : Type 0 where
  pub customer_id : String
  pub source_account : String
  pub destination_account : String
  pub amount : Text
  pub reference : Option String

abbrev pub defaults : Form
defaults = record {
  customer_id = "C12345";
  source_account = "VA10001";
  destination_account = "EXT98765";
  amount = b'2' ∷ b'5' ∷ b'0' ∷ b'.' ∷ b'0' ∷ b'0' ∷ [];
  reference = some "PMT-1001";
}

-- The kinds 'new', 'replay' and 'error' of `Result`.
pub data Shown : Type 0 where
  shown_new shown_replay :
      (id : ℕ) → (status : PaymentStatus) → (correlation_id : Option String) → Shown
  shown_error : Message → Shown

pub record SubmitForm : Type 0 where
  pub form : Form
  pub idempotency_key : String
  pub submitting : Bool
  pub result : Option Shown
  pub created_ids : List ℕ

-- A form that has been opened, with a random key.
abbrev pub opened : String → SubmitForm
opened key = record {
  form = defaults;
  idempotency_key = key;
  submitting = false;
  result = none;
  created_ids = [];
}

-- form.reference?.trim() || undefined
abbrev or_undefined : String → Option String
or_undefined s = if str_eq s "" then none else some s

abbrev trimmed : Option String → Option String
trimmed none = none
trimmed (some reference) = or_undefined (trim reference)

unfoldable pub input_of : Form → CreatePaymentDto
unfolding trim
input_of f = record {
  customer_id = f.customer_id;
  source_account = f.source_account;
  destination_account = f.destination_account;
  amount = f.amount;
  currency = none;
  reference = trimmed f.reference;
}

-- `handleSubmit` up to its `await`.
unfoldable pub begin_submit : SubmitForm → SubmitForm
begin_submit s = record s { submitting = true; result = none }

-- `handleSubmit` from there on, with what `submitPayment` gave: a payment with the correlation id of
-- the response's header.
unfoldable pub end_submit : Called (Payment × Option String) → SubmitForm → SubmitForm
end_submit (returns (payment, correlation_id)) s =
    if mem s.created_ids payment.id
    then record s {
      submitting = false;
      result = some (shown_replay payment.id payment.status correlation_id);
    }
    else record s {
      submitting = false;
      result = some (shown_new payment.id payment.status correlation_id);
      created_ids = payment.id ∷ s.created_ids;
    }
end_submit (throws message) s = record s { submitting = false; result = some (shown_error message) }

-- What the `catch` block makes of a rejection that is no Error.
abbrev pub submission_failed : Message
submission_failed = said "Submission failed"

abbrev text_of : Option String → String
text_of none = ""
text_of (some text) = text

module _ (status_codes : ℕ → Option String) (hash : CreatePaymentDto → String)
    (correlation_header : String → Option String) where
  abbrev refused_with : Option Exception → Fetched (Payment × Option String)
  refused_with none = refused 500 "" none
  refused_with (some e) =
      let problem = catch status_codes e "/v1/payments" in
      refused problem.status (text_of problem.title) (some (error_body problem))

  -- The response on the wire: what was thrown goes through the filter, and the status text of a
  -- response is that of its status.
  abbrev fetched : Response → (correlation_id : String) → Fetched (Payment × Option String)
  fetched (accepted location body) correlation_id =
      responded (body, correlation_header correlation_id)
  fetched response correlation_id = refused_with (exception_of response)

  -- A submission from the click to the answer shown, with the API's part in between.
  unfoldable pub handle_submit :
      Fresh → (correlation_id : String) → SubmitForm → Db → SubmitForm × Db
  unfolding begin_submit end_submit send
  handle_submit fresh correlation_id s db =
      let started = begin_submit s in
      let (response, db') =
        create_payment hash fresh (input_of s.form) (some s.idempotency_key) correlation_id db in
      (end_submit (send (fetched response correlation_id)) started, db')
