-- ===== src/Console/Client.antt =====
-- The calls of the API, apps/web/src/lib/api.ts. A text that is put together from parts is kept as
-- its parts.
use payments_processor.Common.{ℕ, Option, none, some, String}
use payments_processor.Problems.{Problem}

-- What a body of an error that is JSON may have.
pub record ErrorBody : Type 0 where
  pub detail : Option String
  pub title : Option String
  pub message : Option String

-- What `fetch` gives: a response that is ok, with the JSON of its body, one that is not, with its
-- body where that is JSON, or a rejection.
pub data Fetched {ℓ} (A : Type ℓ) : Type ℓ where
  responded : A → Fetched A
  refused : (status : ℕ) → (status_text : String) → Option ErrorBody → Fetched A
  rejected : (message : String) → Fetched A

-- The message of an Error: a text, the status line, or that of a failed GET.
pub data Message : Type 0 where
  said : String → Message
  status_line : (status : ℕ) → (status_text : String) → Message
  get_failed : (path : String) → (status : ℕ) → (status_text : String) → Message

pub data Called {ℓ} (A : Type ℓ) : Type ℓ where
  returns : A → Called A
  throws : Message → Called A

-- body.detail ?? body.title ?? body.message ?? detail
abbrev pub or_else : Option String → Message → Message
or_else none fallback = fallback
or_else (some text) fallback = said text

abbrev pub error_detail : ℕ → String → Option ErrorBody → Message
error_detail status status_text none = status_line status status_text
error_detail status status_text (some body) =
    or_else body.detail (or_else body.title (or_else body.message (status_line status status_text)))

-- The functions that send a body: `updateBankConfig`, `createEndpoint` and `submitPayment`.
unfoldable pub send {ℓ} : {A : Type ℓ} → Fetched A → Called A
send (responded a) = returns a
send (refused status status_text body) = throws (error_detail status status_text body)
send (rejected text) = throws (said text)

-- `get`, for the calls without a body.
unfoldable pub get_json {ℓ} : {A : Type ℓ} → (path : String) → Fetched A → Called A
get_json path (responded a) = returns a
get_json path (refused status status_text body) = throws (get_failed path status status_text)
get_json path (rejected text) = throws (said text)

-- How a problem document reads as the body of an error.
abbrev pub error_body : Problem → ErrorBody
error_body p = record { detail = some p.detail; title = p.title; message = none }
