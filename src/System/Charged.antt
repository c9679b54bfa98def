-- ===== src/System/Charged.antt =====
-- Which payments the banks of apps/api/src/bank have authorized, beside the tables, as the processes
-- take their steps.
use mathlib.Core.Path.{subst}
use payments_processor.Common.{
  true, false, ℕ, ◌≡◌, refl, sym, ap, ◌∙◌, inl, inr, some, List, [], ◌∷◌, ◌==◌, Bool-cases, ==_iff,
}
use payments_processor.Shared.Status.{completed}
use payments_processor.Database.{Payment, BankRef, of_key, JobData, Metadata, find_payment}
use payments_processor.Audit.{HasUniqueIds}
use payments_processor.Bank.{BankAuthorizeRequest, BankOutcome, authorized, declined, error}
use payments_processor.Bank.Simulated.{SimulatedBankAdapter, new_bank, lookup, authorize}
use payments_processor.Bank.Simulated.Laws.{AreAuthorized, IsSettled, authorize-IsSettled, kept}
use payments_processor.Worker.Processor.{of_outcome, complete}
use payments_processor.System.{State, request_of, set_bank, Held}
use payments_processor.System.Completion.{CompletesOnly}

-- A bank has authorized the payment, under its own id.
abbrev pub IsAuthorized : ℕ → State → Type 0
IsAuthorized id s = Held id (authorized (of_key id)) s.answers

-- Each bank has settled what it keeps, an answer that authorizes is under the id of its payment, and
-- every payment that is completed has been authorized.
pub record IsPaid (s : State) : Type 0 where
  pub unique : HasUniqueIds s.db
  pub settled : (w : ℕ) → IsSettled (s.banks w)
  pub own : (id : ℕ) (r : BankRef) → Held id (authorized r) s.answers → r ≡ of_key id
  pub paid :
      (id : ℕ) (p : Payment)
      → find_payment id s.db.payments ≡ some p
      → p.status ≡ completed
      → IsAuthorized id s

-- A step of the tables that completes no payment but authorized ones.
pub tables_step :
    (s : State) (t : State) (P : ℕ → Type 0)
    → IsPaid s
    → t.banks ≡ s.banks
    → t.answers ≡ s.answers
    → HasUniqueIds t.db
    → CompletesOnly P s.db.payments t.db.payments
    → ((id : ℕ) → P id → IsAuthorized id s)
    → IsPaid t
tables_step s t P h same_banks same_answers unique only charged = record {
  unique = unique;
  settled = λ w. subst (λ banks. IsSettled (banks w)) (sym same_banks) (h.settled w);
  own = λ id r held. h.own id r (subst (Held id (authorized r)) same_answers held);
  paid = λ id p found is.
      subst (Held id (authorized (of_key id))) (sym same_answers) (elim (only id p found is) [
        | inl (r, before, was) ↦ h.paid id r before was
        | inr this ↦ charged id this
      ]);
}

set_bank-IsSettled :
    (w : ℕ) (b : SimulatedBankAdapter) (banks : ℕ → SimulatedBankAdapter)
    → IsSettled b
    → ((v : ℕ) → IsSettled (banks v))
    → (v : ℕ) → IsSettled (set_bank w b banks v)
set_bank-IsSettled w b banks h others v = elim (Bool-cases (v == w)) [
  | inl same ↦ rw same h
  | inr other ↦ rw other (others v)
]

-- A step of a bank that answers nothing.
pub bank_step :
    (s : State) (w : ℕ) (b : SimulatedBankAdapter)
    → IsPaid s
    → IsSettled b
    → IsPaid (record s { banks = set_bank w b s.banks })
bank_step s w b h fine = record {
  unique = h.unique;
  settled = set_bank-IsSettled w b s.banks fine h.settled;
  own = h.own;
  paid = h.paid;
}

pub new_bank-IsSettled : IsSettled new_bank
unfolding new_bank
new_bank-IsSettled = (tt, refl)

authorizes :
    (o : BankOutcome) (m : Metadata)
    → of_outcome o ≡ complete m
    → (r : BankRef) × (o ≡ authorized r)
authorizes (authorized r) m e = (r, refl)
authorizes (declined why) m e = cc
authorizes (error true why) m e = cc
authorizes (error false why) m e = cc

lookup-AreAuthorized :
    (k : ℕ) (r : BankRef) (m : List (ℕ × BankOutcome))
    → AreAuthorized m
    → lookup k m ≡ some (authorized r)
    → r ≡ of_key k
lookup-AreAuthorized k r [] a h = cc
lookup-AreAuthorized k r ((j, o) ∷ m) (is, once, a) h = elim (Bool-cases (j == k)) [
  | inl same ↦
      let h' : some o ≡ some (authorized r) = rw same at h in
      let e : j ≡ k = (==_iff j k).0 same in let r_is : r ≡ of_key j = cc in r_is ∙ ap of_key e
  | inr other ↦
      let h' : lookup k m ≡ some (authorized r) = rw other at h in lookup-AreAuthorized k r m a h'
]

-- A bank authorizes under the key of the request.
authorize-of_key :
    (req : BankAuthorizeRequest) (b : SimulatedBankAdapter) (r : BankRef)
    → IsSettled b
    → (authorize req b).0 ≡ authorized r
    → r ≡ of_key req.idempotency_key
authorize-of_key req b r h said =
    lookup-AreAuthorized req.idempotency_key r (authorize req b).1.store
      (authorize-IsSettled req b h).0 (kept req r b said)

pub call-IsPaid :
    (s : State) (w : ℕ) (job : JobData)
    → IsPaid s
    → IsPaid (record s {
      banks = set_bank w (authorize (request_of job) (s.banks w)).1 s.banks;
      answers = (job.payment_id, (authorize (request_of job) (s.banks w)).0) ∷ s.answers;
    })
call-IsPaid s w job h = record {
  unique = h.unique;
  settled =
      set_bank-IsSettled w (authorize (request_of job) (s.banks w)).1 s.banks
        (authorize-IsSettled (request_of job) (s.banks w) (h.settled w)) h.settled;
  own = λ id r held. elim held [
    | inl (same, answer) ↦
        authorize-of_key (request_of job) (s.banks w) r (h.settled w) answer ∙ ap of_key same
    | inr before ↦ h.own id r before
  ];
  paid = λ id p found is. inr (h.paid id p found is);
}

abbrev pub Nobody : ℕ → Type 0
Nobody id = ⊥

pub answered_charge :
    (s : State) (id : ℕ) (o : BankOutcome) (m : Metadata)
    → IsPaid s
    → Held id o s.answers
    → of_outcome o ≡ complete m
    → (j : ℕ) → j ≡ id
    → IsAuthorized j s
answered_charge s id o m h held by j same =
    let (r, e) = authorizes o m by in
    let held' : Held id (authorized r) s.answers = subst (λ a. Held id a s.answers) e held in
    subst (λ k. IsAuthorized k s) (sym same)
      (subst (λ b. Held id (authorized b) s.answers) (h.own id r held') held')
