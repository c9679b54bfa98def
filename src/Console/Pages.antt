-- ===== src/Console/Pages.antt =====
-- The pages of apps/web/src that poll the API: the dashboard, app/page.tsx, a payment,
-- app/payments/[id]/page.tsx, and the webhooks, app/webhooks/page.tsx.
use payments_processor.Common.{
  if◌then◌else◌, Bool, ℕ, Bool, true, false, Option, none, some, List, [], ◌∷◌, String,
}
use payments_processor.Console.Client.{Message, said, Called, returns, throws}
use payments_processor.Common.Trimming.{trim}
use payments_processor.Database.{Payment, PaymentEvent, WebhookEndpoint, WebhookDelivery, Db}
use payments_processor.Payments.Controller.{list_page}
use payments_processor.Webhooks.Endpoints.{
  EndpointView, insert_endpoint, list_endpoints, delivery_page,
}

pub record Dashboard : Type 0 where
  pub payments : List Payment
  pub error : Option Message
  pub loading : Bool
  pub last_sync : Option ℕ
  pub drawer_open : Bool

abbrev pub initial_dashboard : Dashboard
initial_dashboard = record {
  payments = [];
  error = none;
  loading = true;
  last_sync = none;
  drawer_open = false;
}

-- `refresh`, with the time and what `listPayments` gave.
unfoldable pub refresh_dashboard : ℕ → Called (List Payment) → Dashboard → Dashboard
refresh_dashboard now (returns rows) s = record s {
  payments = rows;
  last_sync = some now;
  error = none;
  loading = false;
}
refresh_dashboard now (throws message) s = record s { error = some message; loading = false }

pub record PaymentPage : Type 0 where
  pub payment : Option Payment
  pub events : List PaymentEvent
  pub error : Option Message
  pub loading : Bool

abbrev pub initial_payment_page : PaymentPage
initial_payment_page = record { payment = none; events = []; error = none; loading = true }

-- `refresh`, with what `Promise.all` of the two calls gave.
unfoldable pub refresh_payment : Called (Payment × List PaymentEvent) → PaymentPage → PaymentPage
refresh_payment (returns (p, ev)) s = record s {
  payment = some p;
  events = ev;
  error = none;
  loading = false;
}
refresh_payment (throws message) s = record s { error = some message; loading = false }

-- events[0]?.correlationId ?? null
abbrev pub correlation_of : List PaymentEvent → Option String
correlation_of [] = none
correlation_of (e ∷ es) = e.correlation_id

pub record WebhooksPage : Type 0 where
  pub deliveries : List WebhookDelivery
  pub endpoints : List EndpointView
  pub error : Option Message
  pub last_sync : Option ℕ
  pub url : String
  pub registering : Bool
  pub secret : Option String
  pub form_error : Option Message

abbrev pub initial_webhooks : WebhooksPage
initial_webhooks = record {
  deliveries = [];
  endpoints = [];
  error = none;
  last_sync = none;
  url = "";
  registering = false;
  secret = none;
  form_error = none;
}

-- `refresh`, with the time and what `Promise.all` of the two calls gave.
unfoldable pub refresh_webhooks :
    ℕ → Called (List WebhookDelivery × List EndpointView) → WebhooksPage → WebhooksPage
refresh_webhooks now (returns (d, e)) s = record s {
  deliveries = d;
  endpoints = e;
  last_sync = some now;
  error = none;
}
refresh_webhooks now (throws message) s = record s { error = some message }

-- `register` up to its `await`, and from there on.
unfoldable pub begin_register : WebhooksPage → WebhooksPage
begin_register s = record s { registering = true; secret = none; form_error = none }

unfoldable pub end_register : Called WebhookEndpoint → WebhooksPage → WebhooksPage
end_register (returns created) s = record s {
  secret = some created.secret;
  url = "";
  registering = false;
}
end_register (throws message) s = record s { form_error = some message; registering = false }

-- The API's answers where it is reached, with the limits that the pages ask for.
abbrev pub listed_webhooks : Db → Called (List WebhookDelivery × List EndpointView)
listed_webhooks db = returns ((delivery_page none none 50 db).rows, list_endpoints db)

abbrev pub listed_payments : Db → Called (List Payment)
listed_payments db = returns (list_page none none 100 db).rows

-- The database refuses an id that is taken, which the filter of errors answers.
abbrev pub registered : Option (WebhookEndpoint × Db) → WebhooksPage → Db → WebhooksPage × Db
registered none s db =
    (end_register (throws (said "Internal server error occurred")) (begin_register s), db)
registered (some (row, db')) s db = (end_register (returns row) (begin_register s), db')

-- A registration, with `isURL` of class-validator, the ulid, the time and the secret of the API, and the poll that it sets off.
unfoldable pub register :
    (is_url : String → Bool) (id now : ℕ) (secret : String) → WebhooksPage → Db → WebhooksPage × Db
unfolding begin_register end_register
register is_url id now secret s db =
    let made = registered (insert_endpoint id now (trim s.url) secret db) s db in
    if is_url (trim s.url)
    then made
    else (end_register (throws (said "Validation Error")) (begin_register s), db)
