-- ===== src/System/Tests.antt =====
-- A payment from its submission to its completion, and the laws along the way.
use payments_processor.Common.{
  ℕ, ◌≡◌, refl, inl, true, none, some, [], ◌∷◌, ◌++◌, Option, filter_by,
}
use payments_processor.Shared.Status.{pending, completed, can_transition, processing}
use payments_processor.Shared.Status.Laws.{IsTerminal}
use payments_processor.Shared.Money.{match_amount, number, pad_cents, conv_amount_to_units}
use payments_processor.Database.{
  Payment, JobData, of_key, bank_ref, Db, find_payment, insert_event, insert_outbox,
}
use payments_processor.Audit.{HasUniqueIds, IsConsistent}
use payments_processor.Audit.Dropped.{cleaned}
use payments_processor.Bank.{authorized}
use payments_processor.Bank.Simulated.{new_bank, authorize}
use payments_processor.Bank.Simulated.Laws.{IsSettled}
use payments_processor.Payments.Service.{
  CreatePaymentDto, Fresh, new_payment, insert_txn, insert_payment, insert_key, submit_txn,
}
use payments_processor.Worker.Processor.{claim_cas, finish_txn}
use payments_processor.System.{
  State, start, request_of, set_bank, Held, submits, claims, calls, restarts, completes, cleans,
  Reachable, here, and_then,
}
use payments_processor.System.Charged.{IsAuthorized}
use payments_processor.System.Laws.{
  all_rows, Reachable-IsConsistent, Reachable-terminal, completed-IsAuthorized,
}

abbrev order : CreatePaymentDto
order = record {
  customer_id = "cust_1";
  source_account = "acc_a";
  destination_account = "acc_b";
  amount = b'7' ∷ [];
  currency = none;
  reference = none;
}

abbrev ids : Fresh
ids = record { id = 1; event_id = 2; outbox_id = 3; now = 1000 }

abbrev payment_job : JobData
payment_job = record {
  payment_id = 1;
  amount_cents = 700;
  currency = "USD";
  correlation_id = some "cor";
}

-- What was written, or nothing.
abbrev written : Db → Option Db → Db
written old none = old
written old (some db) = db

abbrev after_submit : State
after_submit = record start { db = (insert_txn ids order "key" "hash" "cor" start.db).1 }

abbrev claimed_db : Db
claimed_db = written after_submit.db (claim_cas 4 2000 payment_job pending after_submit.db)

abbrev after_claim : State
after_claim = record after_submit { db = claimed_db }

abbrev after_call : State
after_call = record after_claim {
  banks = set_bank 0 (authorize (request_of payment_job) (after_claim.banks 0)).1 after_claim.banks;
  answers = (1, (authorize (request_of payment_job) (after_claim.banks 0)).0) ∷ after_claim.answers;
}

abbrev completed_db : Db
completed_db =
    written after_call.db
      (finish_txn 5 6 3000 payment_job completed (bank_ref (of_key 1)) after_call.db)

abbrev after_finish : State
after_finish = record after_call { db = completed_db }

claim_works : claim_cas 4 2000 payment_job pending after_submit.db ≡ some claimed_db
unfolding start insert_txn conv_amount_to_units match_amount number pad_cents submit_txn
    insert_payment
claim_works = unfold insert_key insert_event insert_outbox new_payment claim_cas in refl

claimable : can_transition pending processing ≡ true
unfolding can_transition
claimable = refl

answer-Held : Held 1 (authorized (of_key 1)) after_call.answers
unfolding start new_bank authorize
answer-Held = inl (refl, refl)

finish_works :
    finish_txn 5 6 3000 payment_job completed (bank_ref (of_key 1)) after_call.db
    ≡ some completed_db
unfolding start insert_txn conv_amount_to_units match_amount number pad_cents submit_txn
    insert_payment
finish_works = unfold insert_key insert_event insert_outbox new_payment claim_cas finish_txn in refl

run : Reachable start after_finish
run =
    and_then
      (and_then
        (and_then (and_then here (submits ids order "key" "hash" "cor"))
          (claims 4 2000 payment_job pending claimed_db claimable claim_works))
        (calls 0 payment_job))
      (completes 5 6 3000 payment_job (authorized (of_key 1)) (bank_ref (of_key 1)) completed_db
        answer-Held refl finish_works)

abbrev settled_payment : Payment
settled_payment = record {
  id = 1;
  customer_id = "cust_1";
  source_account = "acc_a";
  destination_account = "acc_b";
  amount_cents = 700;
  currency = "USD";
  reference = none;
  status = completed;
  version = 2;
  attempt_count = 0;
  last_error_code = none;
  created_at = 1000;
  updated_at = 3000;
}

settled_found : find_payment 1 after_finish.db.payments ≡ some settled_payment
unfolding start insert_txn conv_amount_to_units match_amount number pad_cents submit_txn
    insert_payment
settled_found =
    unfold insert_key insert_event insert_outbox new_payment claim_cas finish_txn in refl

start-IsConsistent : IsConsistent (all_rows start)
unfolding start
start-IsConsistent = record { unique = tt; audited = λ id. refl; notified = λ id. refl }

-- Then the cleanup drops every row of the outbox, and the worker starts anew.
abbrev after_cleanup : State
after_cleanup = record after_finish {
  db = cleaned (λ o. true) after_finish.db;
  dropped = after_finish.dropped ++ filter_by (λ o. true) after_finish.db.outbox;
}

abbrev after_restart : State
after_restart = record after_cleanup { banks = set_bank 0 new_bank after_cleanup.banks }

run_on : Reachable after_finish after_restart
run_on = and_then (and_then here (cleans (λ o. true))) (restarts 0)

whole_run : Reachable start after_restart
whole_run = and_then (and_then run (cleans (λ o. true))) (restarts 0)

Reachable-IsConsistent_example : IsConsistent (all_rows after_restart)
Reachable-IsConsistent_example = Reachable-IsConsistent whole_run start-IsConsistent

finished-HasUniqueIds : HasUniqueIds after_finish.db
unfolding start insert_txn conv_amount_to_units match_amount number pad_cents submit_txn
    insert_payment
finished-HasUniqueIds =
    unfold insert_key insert_event insert_outbox new_payment claim_cas finish_txn in (refl, tt)

is_over : IsTerminal completed
is_over = inl refl

Reachable-terminal_example : find_payment 1 after_restart.db.payments ≡ some settled_payment
Reachable-terminal_example =
    Reachable-terminal 1 settled_payment run_on finished-HasUniqueIds settled_found is_over

completed-IsAuthorized_example :
    IsAuthorized 1 after_restart × ((w : ℕ) → IsSettled (after_restart.banks w))
completed-IsAuthorized_example =
    completed-IsAuthorized 1 settled_payment whole_run settled_found refl
