-- ===== src/Webhooks/Endpoints.antt =====
-- apps/api/src/webhooks/webhooks.service.ts and its two controllers.
pub mod Laws
use payments_processor.Common.{
  ℕ, ◌+◌, Bool, true, false, ◌&&◌, Option, none, some, List, [], ◌∷◌, ◌++◌, String, ◌==◌, is_none,
  map, filter_by, take, if◌then◌else◌, is_empty,
}
use payments_processor.Common.Table.{update_where, returning, first}
use payments_processor.Common.Paging.{before, sort_desc, Page, page}
use payments_processor.Database.{WebhookEndpoint, WebhookStatus, WebhookDelivery, Db, find_endpoint}
use payments_processor.Webhooks.Delivering.{webhook_status_eq}

abbrev pub new_endpoint : (id now : ℕ) → (url secret : String) → WebhookEndpoint
new_endpoint id now url secret = record {
  id = id;
  url = url;
  secret = secret;
  active = true;
  created_at = now;
  description = none;
}

-- `insert_endpoint`, with a new ulid and a random secret; `none` is the error of the database.
unfoldable pub insert_endpoint :
    (id now : ℕ) → (url secret : String) → Db → Option (WebhookEndpoint × Db)
insert_endpoint id now url secret db =
    let row = new_endpoint id now url secret in
    if is_none (find_endpoint id db.webhook_endpoints)
    then some (row, record db { webhook_endpoints = db.webhook_endpoints ++ row ∷ [] })
    else none

abbrev pub deactivated : WebhookEndpoint → WebhookEndpoint
deactivated e = record e { active = false }

-- `delete`: the row, or the NotFoundException, and the database.
unfoldable pub delete : ℕ → Db → Option WebhookEndpoint × Db
delete id db = (
  first (returning (λ (e : WebhookEndpoint). e.id == id) deactivated db.webhook_endpoints),
  record db {
    webhook_endpoints =
        update_where (λ (e : WebhookEndpoint). e.id == id) deactivated db.webhook_endpoints;
  },
)

-- A row of `list`, which leaves out the secret.
pub record EndpointView : Type 0 where
  pub id : ℕ
  pub url : String
  pub active : Bool
  pub created_at : ℕ
  pub description : Option String

abbrev pub view_of : WebhookEndpoint → EndpointView
view_of e = record {
  id = e.id;
  url = e.url;
  active = e.active;
  created_at = e.created_at;
  description = e.description;
}

-- `list`. The query asks for no order; here it is that of the table's rows.
unfoldable pub list_endpoints : Db → List EndpointView
list_endpoints db = map view_of (filter_by (λ e. e.active) db.webhook_endpoints)

abbrev pub has_webhook_status : Option WebhookStatus → WebhookDelivery → Bool
has_webhook_status none d = true
has_webhook_status (some s) d = webhook_status_eq d.status s

-- `list_deliveries`, without the columns that are left out and the url that is joined to each row.
unfoldable pub list_deliveries :
    Option WebhookStatus → (cursor : Option ℕ) → (limit : ℕ) → Db → List WebhookDelivery
list_deliveries status cursor limit db = take (limit + 1) (
    sort_desc (λ d. d.id)
      (filter_by (λ d. has_webhook_status status d && before cursor d.id) db.webhook_deliveries))

-- The `list` of the controller of deliveries.
unfoldable pub delivery_page :
    Option WebhookStatus
    → (cursor : Option ℕ) → (limit : ℕ) → Db
    → Page {A = WebhookDelivery} (λ d. d.id)
delivery_page status cursor limit db =
    page (λ d. d.id) limit (list_deliveries status cursor limit db)
