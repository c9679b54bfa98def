-- ===== src/System/Laws.antt =====
-- What holds however the processes of apps/api/src interleave.
use mathlib.Core.Path.{subst}
use payments_processor.Common.{
  ap, sym, ◌∙◌, ℕ, ◌≡◌, ◌⊎◌, refl, String, Bool, inl, inr, some, ◌++◌, filter_by, arith,
}
use payments_processor.Shared.Status.{completed}
use payments_processor.Shared.Status.Laws.{IsTerminal}
use payments_processor.Database.{Payment, WebhookEndpoint, Outbox, Db, find_payment}
use payments_processor.Audit.{HasUniqueIds, IsConsistent, notices_of}
use payments_processor.Audit.Effects.{
  Effects, marked, none_yet, and_then, Effects-HasUniqueIds, Effects-terminal,
}
use payments_processor.Audit.Dropped.{
  with_dropped, Effects-with_dropped, cleaned, cleaned-IsConsistent,
}
use payments_processor.Bank.ConfigSync.{UpdateBankConfigDto, update}
use payments_processor.Bank.Simulated.{new_bank, set_config}
use payments_processor.Bank.Simulated.Laws.{IsSettled, set_config-IsSettled}
use payments_processor.Worker.Processor.Claiming.{claim_cas-Effect}
use payments_processor.Worker.Processor.Retrying.{retry_txn-Effect}
use payments_processor.Worker.Processor.Finishing.{finish_txn-Effect}
use payments_processor.Payments.Service.Submission.{insert_txn-Effect}
use payments_processor.Webhooks.Dispatcher.Laws.{dispatch_txn-Effect, dispatch_txn-payments}
use payments_processor.Webhooks.Delivering.Laws.{after_request-others}
use payments_processor.Webhooks.Endpoints.{insert_endpoint, delete}
use payments_processor.Relay.Poll.Laws.{poll_once-Effect}
use payments_processor.Relay.Reaper.Committed.{reap_once-Effects}
use payments_processor.System.{
  State, no_rows, start, request_of, Held, Step, submits, claims, calls, restarts, completes, fails,
  retries, publishes, reaps, dispatches, delivers, cleans, configures, reconfigures, registers,
  deactivates, Reachable, here,
}
use payments_processor.System
use payments_processor.System.Completion.{
  claim_cas-CompletesOnly, retry_txn-CompletesOnly, finish_txn-CompletesOnly,
  finish_txn-CompletesOnly_one, reap_once-CompletesOnly, poll_once-CompletesOnly,
  insert_txn-CompletesOnly, unchanged-CompletesOnly,
}
use payments_processor.System.Charged.{
  IsAuthorized, IsPaid, tables_step, bank_step, new_bank-IsSettled, call-IsPaid, Nobody,
  answered_charge,
}

-- A step has effects on the tables, or drops rows of the outbox.
abbrev Changes : State → State → Type 0
Changes s t = Effects s.db t.db × (t.dropped ≡ s.dropped)

abbrev Cleans : State → State → Type 0
Cleans s t =
    (gone : Outbox → Bool) × ((t.db ≡ cleaned gone s.db)
      × (t.dropped ≡ s.dropped ++ filter_by gone s.db.outbox))

insert_endpoint-Effects :
    (id now : ℕ) (url secret : String) (row : WebhookEndpoint) (db db' : Db)
    → insert_endpoint id now url secret db ≡ some (row, db')
    → Effects db db'
unfolding insert_endpoint
insert_endpoint-Effects id now url secret row db db' h =
    and_then none_yet (marked (ground arith) (ground arith) (λ i. ap (notices_of i) (ground arith)))

Step-Changes : {s t : State} → Step s t → HasUniqueIds s.db → Changes s t ⊎ Cleans s t
Step-Changes {s} (submits fresh dto key hash cor) c =
    inl ((and_then none_yet (insert_txn-Effect fresh dto key hash cor s.db)), refl)
Step-Changes {s} (claims event_id now job from db' may e) c =
    inl ((and_then none_yet (claim_cas-Effect event_id now job from s.db db' may c e)), refl)
Step-Changes {s} (completes event_id outbox_id now job o metadata db' held by e) c = inl (
  (and_then none_yet
      (finish_txn-Effect event_id outbox_id now job completed metadata s.db db' (inl refl) c e)),
  refl,
)
Step-Changes {s} (fails event_id outbox_id now job o metadata db' held by e) c = inl (
  (and_then none_yet
      (finish_txn-Effect event_id outbox_id now job _ metadata s.db db' (inr refl) c e)),
  refl,
)
Step-Changes {s} (retries max_retries event_id now job why db' scheduled e) c = inl (
  (and_then none_yet (retry_txn-Effect max_retries event_id now job why s.db db' scheduled c e)),
  refl,
)
Step-Changes {s} (publishes locked now) c =
    inl ((and_then none_yet (poll_once-Effect locked now s.db)), refl)
Step-Changes {s} (dispatches locked now ulid db' rows e) c =
    inl ((and_then none_yet (dispatch_txn-Effect locked now ulid s.db db' rows e)), refl)
Step-Changes {s} (delivers cfg now random delivery reply added) c = inl (
  (let (ds, same) =
        after_request-others cfg now random delivery reply (record { db = s.db; added = added }) in
      and_then none_yet (
        marked (ap (λ d. d.payments) same) (ap (λ d. d.payment_events) same)
          (λ id. ap (λ d. notices_of id d.outbox) same))),
  refl,
)
Step-Changes {s} (reaps locked deadline_ms now enqueued ulid db' jobs e) c =
    inl ((reap_once-Effects locked deadline_ms now enqueued ulid s.db db' jobs c e), refl)
Step-Changes (calls w job) c = inl (none_yet, refl)
Step-Changes (restarts w) c = inl (none_yet, refl)
Step-Changes (cleans gone) c = inr (gone, (refl, refl))
Step-Changes (configures w mode fail_n latency_ms) c = inl (none_yet, refl)
Step-Changes {s} (reconfigures now dto) c =
    unfold update in inl (and_then none_yet (marked refl refl (λ id. refl)), refl)
Step-Changes {s} (registers id now url secret row db' e) c =
    inl (insert_endpoint-Effects id now url secret row s.db db' e, refl)
Step-Changes {s} (deactivates id) c =
    unfold delete in inl (and_then none_yet (marked refl refl (λ id. refl)), refl)

-- The tables of a state, with the rows that have left the outbox.
abbrev pub all_rows : State → Db
all_rows s = with_dropped s.dropped s.db

changed-IsConsistent :
    (s t : State) → Changes s t ⊎ Cleans s t → IsConsistent (all_rows s) → IsConsistent (all_rows t)
changed-IsConsistent s t (inl (effects, same)) c =
    subst (λ os. IsConsistent (with_dropped os t.db)) (sym same)
      (Effects-with_dropped s.dropped effects c)
changed-IsConsistent s t (inr (gone, (is_db, is_dropped))) c =
    subst (λ os. IsConsistent (with_dropped os t.db)) (sym is_dropped)
      (subst (λ db. IsConsistent (with_dropped (s.dropped ++ filter_by gone s.db.outbox) db))
        (sym is_db) (cleaned-IsConsistent gone s.dropped s.db c))

changed-HasUniqueIds :
    (s t : State) → Changes s t ⊎ Cleans s t → HasUniqueIds s.db → HasUniqueIds t.db
changed-HasUniqueIds s t (inl (effects, same)) c = Effects-HasUniqueIds effects c
changed-HasUniqueIds s t (inr (gone, (is_db, is_dropped))) c = subst HasUniqueIds (sym is_db) c

changed-terminal :
    (s t : State) (id : ℕ) (p : Payment)
    → Changes s t ⊎ Cleans s t
    → find_payment id s.db.payments ≡ some p
    → IsTerminal p.status
    → find_payment id t.db.payments ≡ some p
changed-terminal s t id p (inl (effects, same)) found over =
    Effects-terminal id p effects found over
changed-terminal s t id p (inr (gone, (is_db, is_dropped))) found over =
    ap (λ db. find_payment id db.payments) is_db ∙ found

-- Whatever the processes do, and in whatever order, tables stay consistent if they are looked at
-- together with the rows that the cleanup has dropped from the outbox: every payment has a history of
-- allowed moves that ends at its status, its version counts them, and a completed payment has
-- exactly one notice for the webhooks, in the outbox or among the dropped rows.
pub Reachable-IsConsistent :
    {s t : State} → Reachable s t → IsConsistent (all_rows s) → IsConsistent (all_rows t)
Reachable-IsConsistent here c = c
Reachable-IsConsistent {t = t} (System.and_then {t = middle_state} r st) c =
    let middle = Reachable-IsConsistent r c in
    changed-IsConsistent middle_state t (Step-Changes st middle.unique) middle

Reachable-HasUniqueIds : {s t : State} → Reachable s t → HasUniqueIds s.db → HasUniqueIds t.db
Reachable-HasUniqueIds here c = c
Reachable-HasUniqueIds {t = t} (System.and_then {t = middle_state} r st) c =
    let middle = Reachable-HasUniqueIds r c in
    changed-HasUniqueIds middle_state t (Step-Changes st middle) middle

-- Where payments have unique ids, a payment that is completed or failed keeps its row, whatever the
-- processes do later.
pub Reachable-terminal :
    {s t : State} (id : ℕ) (p : Payment)
    → Reachable s t
    → HasUniqueIds s.db
    → find_payment id s.db.payments ≡ some p
    → IsTerminal p.status
    → find_payment id t.db.payments ≡ some p
Reachable-terminal id p here c found over = found
Reachable-terminal {t = t} id p (System.and_then {t = middle_state} r st) c found over =
    changed-terminal middle_state t id p (Step-Changes st (Reachable-HasUniqueIds r c))
      (Reachable-terminal id p r c found over) over

update-payments :
    (now : ℕ) (dto : UpdateBankConfigDto) (db : Db) → (update now dto db).1.payments ≡ db.payments
unfolding update
update-payments now dto db = refl

delete-payments : (id : ℕ) (db : Db) → (delete id db).1.payments ≡ db.payments
unfolding delete
delete-payments id db = refl

insert_endpoint-payments :
    (id now : ℕ) (url secret : String) (row : WebhookEndpoint) (db db' : Db)
    → insert_endpoint id now url secret db ≡ some (row, db')
    → db'.payments ≡ db.payments
unfolding insert_endpoint
insert_endpoint-payments id now url secret row db db' h = ground arith

Step-IsPaid : {s t : State} → Step s t → IsPaid s → IsPaid t
Step-IsPaid {s} {t} st h = go st (changed-HasUniqueIds s t (Step-Changes st h.unique) h.unique)
  where
    go : {t : State} → Step s t → HasUniqueIds t.db → IsPaid t
    go (submits fresh dto key hash cor) fx =
        tables_step s _ Nobody h refl refl fx (insert_txn-CompletesOnly fresh dto key hash cor s.db)
          (λ id no. absurd no)
    go (claims event_id now job from db' may e) fx =
        tables_step s _ Nobody h refl refl fx
          (claim_cas-CompletesOnly event_id now job from s.db db' e) (λ id no. absurd no)
    go (calls w job) fx = call-IsPaid s w job h
    go (restarts w) fx = bank_step s w new_bank h new_bank-IsSettled
    go (completes event_id outbox_id now job o metadata db' held by e) fx =
        tables_step s _ (λ id. id ≡ job.payment_id) h refl refl fx
          (finish_txn-CompletesOnly_one event_id outbox_id now job metadata s.db db' h.unique e)
          (answered_charge s job.payment_id o metadata h held by)
    go (fails event_id outbox_id now job o metadata db' held by e) fx =
        tables_step s _ Nobody h refl refl fx
          (finish_txn-CompletesOnly event_id outbox_id now job metadata s.db db' h.unique e)
          (λ id no. absurd no)
    go (retries max_retries event_id now job why db' scheduled e) fx =
        tables_step s _ Nobody h refl refl fx
          (retry_txn-CompletesOnly max_retries event_id now job why s.db db' scheduled h.unique e)
          (λ id no. absurd no)
    go (publishes locked now) fx =
        tables_step s _ Nobody h refl refl fx (poll_once-CompletesOnly locked now s.db)
          (λ id no. absurd no)
    go (dispatches locked now ulid db' rows e) fx =
        tables_step s _ Nobody h refl refl fx
          (unchanged-CompletesOnly Nobody s.db.payments db'.payments
            (dispatch_txn-payments locked now ulid s.db db' rows e))
          (λ id no. absurd no)
    go (delivers cfg now random delivery reply added) fx =
        let (ds, same) =
          after_request-others cfg now random delivery reply
            (record { db = s.db; added = added }) in
        tables_step s _ Nobody h refl refl fx
          (unchanged-CompletesOnly Nobody s.db.payments _ (ap (λ d. d.payments) same))
          (λ id no. absurd no)
    go (reaps locked deadline_ms now enqueued ulid db' jobs e) fx =
        tables_step s _ Nobody h refl refl fx
          (reap_once-CompletesOnly locked deadline_ms now enqueued ulid s.db db' jobs e)
          (λ id no. absurd no)
    go (cleans gone) fx =
        tables_step s _ Nobody h refl refl fx (unchanged-CompletesOnly Nobody s.db.payments _ refl)
          (λ id no. absurd no)
    go (configures w mode fail_n latency_ms) fx =
        bank_step s w (set_config mode fail_n latency_ms (s.banks w)) h
          (set_config-IsSettled mode fail_n latency_ms (s.banks w) (h.settled w))
    go (reconfigures now dto) fx =
        tables_step s _ Nobody h refl refl fx
          (unchanged-CompletesOnly Nobody s.db.payments _ (update-payments now dto s.db))
          (λ id no. absurd no)
    go (registers id now url secret row db' e) fx =
        tables_step s _ Nobody h refl refl fx
          (unchanged-CompletesOnly Nobody s.db.payments _
            (insert_endpoint-payments id now url secret row s.db db' e))
          (λ id no. absurd no)
    go (deactivates id) fx =
        tables_step s _ Nobody h refl refl fx
          (unchanged-CompletesOnly Nobody s.db.payments _ (delete-payments id s.db))
          (λ id no. absurd no)

start-IsPaid : IsPaid start
unfolding start
start-IsPaid = record {
  unique = tt;
  settled = λ w. new_bank-IsSettled;
  own = λ id r held. absurd held;
  paid = λ id p found is. absurd (ground arith);
}

Reachable-IsPaid : {s t : State} → Reachable s t → IsPaid s → IsPaid t
Reachable-IsPaid here h = h
Reachable-IsPaid (System.and_then r st) h = Step-IsPaid st (Reachable-IsPaid r h)

-- However the processes interleave from the start, restart, crash between their steps or lose
-- answers of their banks: a payment is completed only if the bank of some worker has authorized
-- it, under its own id. The bank of each worker, since that worker started, keeps each id once, and
-- its charges are as many as the ids that it keeps.
pub completed-IsAuthorized :
    {s : State} (id : ℕ) (p : Payment)
    → Reachable start s
    → find_payment id s.db.payments ≡ some p
    → p.status ≡ completed
    → IsAuthorized id s × ((w : ℕ) → IsSettled (s.banks w))
completed-IsAuthorized id p r found is =
    let h = Reachable-IsPaid r start-IsPaid in (h.paid id p found is, h.settled)
