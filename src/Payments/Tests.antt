-- ===== src/Payments/Tests.antt =====
-- The laws of apps/api/src/payments at concrete inputs.
use payments_processor.Common.{
  ◌≡◌, ◌≤◌, refl, sym, true, false, none, some, [], ◌∷◌, ◌&&◌, str_eq, filter_by, if◌then◌else◌,
  arith,
}
use mathlib.Core.List.{append-nil, ◌++◌}
use payments_processor.Common.Paging.{sort_desc}
use payments_processor.Common.Table.{HasUniqueKeys}
use payments_processor.Shared.Status.{pending}
use payments_processor.Shared.Money.{units, match_amount, number, pad_cents, conv_amount_to_units}
use payments_processor.Database.{Payment, Db, insert_event, insert_outbox}
use payments_processor.Payments.Service.{
  CreatePaymentDto, Fresh, new_payment, answered, conflict, insert_txn, insert_payment, insert_key,
  submit_txn, has_status,
}
use payments_processor.Payments.Service.Submission.{Submission, insert_txn_atomic}
use payments_processor.Payments.Service.Replay.{insert_txn-again}
use payments_processor.Payments.Controller.Laws.{collect, collect-all}

abbrev empty : Db
empty = record {
  payments = [];
  payment_events = [];
  idempotency_keys = [];
  outbox = [];
  webhook_endpoints = [];
  webhook_deliveries = [];
  bank_config = [];
}

abbrev order : CreatePaymentDto
order = record {
  customer_id = "cust_1";
  source_account = "acc_a";
  destination_account = "acc_b";
  amount = b'1' ∷ b'0' ∷ b'.' ∷ b'5' ∷ [];
  currency = none;
  reference = some "rent";
}

abbrev fresh_at : Fresh
fresh_at = record { id = 1; event_id = 2; outbox_id = 3; now = 1000 }

abbrev fresh_later : Fresh
fresh_later = record { id = 4; event_id = 5; outbox_id = 6; now = 2000 }

order_amount : conv_amount_to_units (b'1' ∷ b'0' ∷ b'.' ∷ b'5' ∷ []) ≡ units 1050
unfolding conv_amount_to_units match_amount number pad_cents
order_amount = refl

insert_txn_atomic_example :
    Submission fresh_at order "key" "hash" "cor" empty
      (insert_txn fresh_at order "key" "hash" "cor" empty)
insert_txn_atomic_example = insert_txn_atomic fresh_at order "key" "hash" "cor" empty

first_answer :
    (insert_txn fresh_at order "key" "hash" "cor" empty).0
    ≡ answered false 202 (new_payment fresh_at order 1050)
unfolding insert_txn conv_amount_to_units match_amount number pad_cents submit_txn insert_payment
first_answer = unfold insert_key insert_event insert_outbox new_payment in refl

abbrev after_first : Db
after_first = (insert_txn fresh_at order "key" "hash" "cor" empty).1

keys_kept : after_first.idempotency_keys ≡ after_first.idempotency_keys ++ []
keys_kept = sym (append-nil _)

insert_txn-again_example : insert_txn fresh_later order "key" "hash" "cor2" after_first ≡ (
  (if str_eq "hash" "hash" then answered true 202 (new_payment fresh_at order 1050) else conflict),
  after_first,
)
insert_txn-again_example =
    insert_txn-again fresh_at fresh_later order order "key" "hash" "hash" "cor" "cor2" empty
      after_first (new_payment fresh_at order 1050) 1050 [] first_answer keys_kept refl order_amount

abbrev stored : Payment
stored = record {
  id = 1;
  customer_id = "cust_1";
  source_account = "acc_a";
  destination_account = "acc_b";
  amount_cents = 1050;
  currency = "USD";
  reference = none;
  status = pending;
  version = 0;
  attempt_count = 0;
  last_error_code = none;
  created_at = 1000;
  updated_at = 1000;
}

abbrev two_stored : Db
two_stored = record empty { payments = stored ∷ (record stored { id = 2 }) ∷ [] }

stored_unique : HasUniqueKeys (λ (p : Payment). p.id) two_stored.payments
stored_unique = (refl, (refl, tt))

page_size : 1 ≤ 1
page_size = omega arith

collect-all_example :
    collect 3 1 (some pending) none two_stored
    ≡ sort_desc
        (λ p. p.id)
        (filter_by (λ p. has_status (some pending) p && true) two_stored.payments)
collect-all_example = collect-all 1 (some pending) two_stored stored_unique page_size
