-- ===== src/Payments/Controller.antt =====
-- apps/api/src/payments/payments.controller.ts. The canonical form and the hash of a body come from
-- libraries, so the hash is an argument; the timer of the metrics is left out.
pub mod Laws
use payments_processor.Common.{
  ℕ, Bool, true, false, Option, none, some, List, [], ◌∷◌, String, str_eq, if◌then◌else◌, map,
}
use payments_processor.Common.Paging.{Page, page}
use payments_processor.Shared.Status.{PaymentStatus}
use payments_processor.Shared.Money.{AmountError}
use payments_processor.Database.{Payment, Metadata, PaymentEvent, Db}
use payments_processor.Payments.Service.{
  CreatePaymentDto, Fresh, Insertion, answered, conflict, missing_key, bad_amount, insert_txn, list,
  list_events,
}

-- What the client gets: the body with the id for its `Location`, a BadRequestException, a
-- ConflictException, or an error that is none of the framework's.
pub data Response : Type 0 where
  accepted : (location : ℕ) → (body : Payment) → Response
  bad_request : Response
  conflicted : Response
  internal_error : Response

abbrev respond : Insertion → Response
respond (answered replayed status body) = accepted body.id body
respond conflict = conflicted
respond missing_key = internal_error
respond (bad_amount e) = internal_error

-- `!key` for the header.
abbrev is_missing : Option String → Bool
is_missing none = true
is_missing (some key) = str_eq key ""

abbrev header_text : Option String → String
header_text none = ""
header_text (some key) = key

module _ (hash : CreatePaymentDto → String) where
  abbrev submit : Fresh → CreatePaymentDto → String → String → Db → Response × Db
  submit fresh dto key correlation_id db =
      let (r, db') = insert_txn fresh dto key (hash dto) correlation_id db in (respond r, db')

  unfoldable pub create_payment :
      Fresh → CreatePaymentDto → Option String → (correlation_id : String) → Db → Response × Db
  create_payment fresh dto key correlation_id db =
      if is_missing key
      then (bad_request, db)
      else submit fresh dto (header_text key) correlation_id db

-- The controller's `list`.
unfoldable pub list_page :
    Option PaymentStatus → (cursor : Option ℕ) → (limit : ℕ) → Db → Page {A = Payment} (λ p. p.id)
list_page status cursor limit db = page (λ p. p.id) limit (list status cursor limit db)
