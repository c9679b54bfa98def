-- ===== src/Payments/Controller/Laws.antt =====
-- What a client sees of apps/api/src/payments/payments.controller.ts.
use payments_processor.Common.{
  ◌∙◌, inl, inr, ℕ, zero, suc, ◌≤◌, ◌≡◌, refl, sym, ap, true, false, Option, none, some, List, [],
  ◌++◌, String, str_eq, Option-cases, ◌&&◌, length, filter_by, eq_refl,
}
use mathlib.Core.List.{append-nil}
use payments_processor.Common.Table.{HasUniqueKeys}
use payments_processor.Common.Paging.{Page, sort_desc}
use payments_processor.Common.Paging.Walk.{walk, walk-eq-listing_all}
use payments_processor.Shared.Status.{PaymentStatus}
use payments_processor.Shared.Money.{units, conv_amount_to_units}
use payments_processor.Database.{Payment, Db}
use payments_processor.Payments.Service.{
  CreatePaymentDto, Fresh, list, has_status, answered, insert_txn,
}
use payments_processor.Payments.Service.Replay.{insert_txn-again}
use payments_processor.Payments.Controller.{accepted, create_payment, list_page}

-- What a client collects that asks for a page and follows the cursors, for at most `fuel` pages.
pub collect : (fuel limit : ℕ) → Option PaymentStatus → Option ℕ → Db → List Payment
collect zero limit status cursor db = []
collect (suc fuel) limit status cursor db =
    let here = list_page status cursor limit db in
    here.rows
    ++ (elim here.next_cursor [ none ↦ [] | some c ↦ collect fuel limit status (some c) db ])

collect-eq-walk :
    (fuel limit : ℕ) (status : Option PaymentStatus) (cursor : Option ℕ) (db : Db)
    → collect fuel limit status cursor db
      ≡ walk (λ p. p.id) (has_status status) fuel limit cursor db.payments
unfolding collect walk list_page list
collect-eq-walk zero limit status cursor db = refl
collect-eq-walk (suc fuel) limit status cursor db =
    let here : Page {A = Payment} (λ p. p.id) = list_page status cursor limit db in
    elim (Option-cases here.next_cursor) [
      | inl last ↦ rw last refl
      | inr (c, more) ↦
          rw more (ap (λ l. here.rows ++ l) (collect-eq-walk fuel limit status (some c) db))
    ]

-- Where no two payments share an id, a client that follows the cursors of the listing, with any
-- limit from 1 on and any filter on the status, collects every payment that passes the filter
-- exactly once, from the greatest id to the smallest: the pages neither overlap nor leave out a
-- payment.
pub collect-all :
    (limit : ℕ) (status : Option PaymentStatus) (db : Db)
    → HasUniqueKeys (λ (p : Payment). p.id) db.payments
    → 1 ≤ limit
    → collect (suc (length db.payments)) limit status none db
      ≡ sort_desc (λ p. p.id) (filter_by (λ p. has_status status p && true) db.payments)
collect-all limit status db unique one =
    collect-eq-walk (suc (length db.payments)) limit status none db
    ∙ walk-eq-listing_all (λ p. p.id) (has_status status) limit none db.payments unique one

-- A request that is sent again, after one that created a payment, gets the same response and
-- changes nothing, whatever the hash function.
pub create_payment-again :
    (hash : CreatePaymentDto → String) (fresh fresh' : Fresh) (dto : CreatePaymentDto)
    (key cor cor' : String) (db : Db) (body : Payment) (n : ℕ)
    → str_eq key "" ≡ false
    → conv_amount_to_units dto.amount ≡ units n
    → (insert_txn fresh dto key (hash dto) cor db).0 ≡ answered false 202 body
    → (create_payment hash fresh dto (some key) cor db).0 ≡ accepted body.id body
      × (create_payment hash fresh' dto
            (some key)
            cor'
            (create_payment hash fresh dto (some key) cor db).1
          ≡ (accepted body.id body, (create_payment hash fresh dto (some key) cor db).1))
unfolding create_payment
create_payment-again hash fresh fresh' dto key cor cor' db body n given amount first =
    let db1 : Db = (insert_txn fresh dto key (hash dto) cor db).1 in
    let again =
      insert_txn-again fresh fresh' dto dto key (hash dto) (hash dto) cor cor' db db1 body n []
        first (sym (append-nil _)) refl amount in
    rw given (rw first refl, rw again (rw (eq_refl (hash dto)) refl))
