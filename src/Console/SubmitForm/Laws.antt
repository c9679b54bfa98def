-- ===== src/Console/SubmitForm/Laws.antt =====
-- What the form of apps/web/src/components/SubmitPaymentForm.tsx shows of the API's answers.
use payments_processor.Common.{String}
use payments_processor.Console.SubmitForm.{SubmitForm}

abbrev reused : String
reused = "Idempotency-Key reused with a different request payload"
