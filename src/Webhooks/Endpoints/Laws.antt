-- ===== src/Webhooks/Endpoints/Laws.antt =====
-- What apps/api/src/webhooks/webhooks.service.ts promises to the clients.
use payments_processor.Common.{
  ℕ, zero, suc, ◌≤◌, ◌≡◌, refl, ap, ◌∙◌, inl, inr, true, ◌&&◌, not, Option, none, some, List, [],
  ◌∷◌, ◌++◌, map, ◌==◌, filter_by, length, Option-cases, arith,
}
use payments_processor.Common.Table.{HasUniqueKeys, update_where}
use payments_processor.Common.Paging.{Page, sort_desc}
use payments_processor.Common.Paging.Walk.{walk, walk-eq-listing_all}
use payments_processor.Database.{WebhookEndpoint, WebhookStatus, WebhookDelivery, Db}
use payments_processor.Webhooks.Endpoints.{
  deactivated, delete, view_of, list_endpoints, has_webhook_status, list_deliveries, delivery_page,
}

deactivated-views :
    (id : ℕ) (es : List WebhookEndpoint)
    → map view_of (
        filter_by
          (λ e. e.active)
          (update_where (λ (e : WebhookEndpoint). e.id == id) deactivated es))
      ≡ filter_by (λ v. not (v.id == id)) (map view_of (filter_by (λ e. e.active) es))
deactivated-views id [] = refl
deactivated-views id (e ∷ es) = ground (arith, deactivated-views id es)

-- After an endpoint is deleted, the list is what it was before without that endpoint.
pub list_endpoints-delete :
    (id : ℕ) (db : Db)
    → list_endpoints (delete id db).1 ≡ filter_by (λ v. not (v.id == id)) (list_endpoints db)
unfolding list_endpoints delete
list_endpoints-delete id db = deactivated-views id db.webhook_endpoints

-- What a client collects that follows the cursors, for at most `fuel` pages.
pub collect_deliveries :
    (fuel limit : ℕ) → Option WebhookStatus → Option ℕ → Db → List WebhookDelivery
collect_deliveries zero limit status cursor db = []
collect_deliveries (suc fuel) limit status cursor db =
    let here = delivery_page status cursor limit db in
    here.rows ++ (elim here.next_cursor [
      | none ↦ []
      | some c ↦ collect_deliveries fuel limit status (some c) db
    ])

collect_deliveries-eq-walk :
    (fuel limit : ℕ) (status : Option WebhookStatus) (cursor : Option ℕ) (db : Db)
    → collect_deliveries fuel limit status cursor db
      ≡ walk (λ d. d.id) (has_webhook_status status) fuel limit cursor db.webhook_deliveries
unfolding collect_deliveries walk delivery_page list_deliveries
collect_deliveries-eq-walk zero limit status cursor db = refl
collect_deliveries-eq-walk (suc fuel) limit status cursor db =
    let here : Page {A = WebhookDelivery} (λ d. d.id) = delivery_page status cursor limit db in
    elim (Option-cases here.next_cursor) [
      | inl last ↦ rw last refl
      | inr (c, more) ↦
          rw more
            (ap (λ l. here.rows ++ l) (collect_deliveries-eq-walk fuel limit status (some c) db))
    ]

-- Where no two deliveries share an id, a client that follows the cursors of the listing of
-- deliveries, with any limit from 1 on and any filter on the status, collects every delivery that
-- passes the filter exactly once, from the greatest id to the smallest.
pub collect_deliveries-all :
    (limit : ℕ) (status : Option WebhookStatus) (db : Db)
    → HasUniqueKeys (λ (d : WebhookDelivery). d.id) db.webhook_deliveries
    → 1 ≤ limit
    → collect_deliveries (suc (length db.webhook_deliveries)) limit status none db
      ≡ sort_desc
          (λ d. d.id)
          (filter_by (λ d. has_webhook_status status d && true) db.webhook_deliveries)
collect_deliveries-all limit status db unique one =
    collect_deliveries-eq-walk (suc (length db.webhook_deliveries)) limit status none db
    ∙ walk-eq-listing_all (λ d. d.id) (has_webhook_status status) limit none db.webhook_deliveries
        unique one
