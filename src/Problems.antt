-- ===== src/Problems.antt =====
-- How the API tells a client of an error: the filter of apps/api/src/common/problem-detail.filter.ts
-- and what the submission of a payment throws.
use payments_processor.Common.{ℕ, Option, none, some, List, String}
use payments_processor.Payments.Controller.{
  Response, accepted, bad_request, conflicted, internal_error,
}

-- What `getResponse` of an HttpException gives: a text, or an object whose message is a text, a list
-- of them, or missing.
pub data ExceptionBody : Type 0 where
  plain : String → ExceptionBody
  message : String → ExceptionBody
  messages : List String → ExceptionBody
  no_message : ExceptionBody

pub data Exception : Type 0 where
  http : (status : ℕ) → ExceptionBody → Exception
  unknown : Exception

pub record Problem : Type 0 where
  pub type_uri : String
  pub title : Option String
  pub status : ℕ
  pub detail : String
  pub instance_url : String
  pub errors : Option (List String)

abbrev detail_of : ExceptionBody → String
detail_of (plain text) = text
detail_of (message text) = text
detail_of (messages texts) = "Validation Error"
detail_of no_message = "Unknown error"

abbrev errors_of : ExceptionBody → Option (List String)
errors_of (messages texts) = some texts
errors_of _ = none

-- STATUS_CODES is Node's table of the texts for status codes.
module _ (status_codes : ℕ → Option String) where
  -- `catch`: the status of the response is the problem's.
  unfoldable pub catch : Exception → (url : String) → Problem
  catch (http status body) url = record {
    type_uri = "about:blank";
    title = status_codes status;
    status = status;
    detail = detail_of body;
    instance_url = url;
    errors = errors_of body;
  }
  catch unknown url = record {
    type_uri = "about:blank";
    title = status_codes 500;
    status = 500;
    detail = "Internal server error occurred";
    instance_url = url;
    errors = none;
  }

-- What `create_payment` throws: Nest gives a BadRequestException the status 400 and a
-- ConflictException 409, and the text as the message of their response.
abbrev pub exception_of : Response → Option Exception
exception_of (accepted location body) = none
exception_of bad_request = some (http 400 (message "Idempotency-Key header required"))
exception_of conflicted =
    some (http 409 (message "Idempotency-Key reused with a different request payload"))
exception_of internal_error = some unknown
