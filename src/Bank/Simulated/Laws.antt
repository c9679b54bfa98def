-- ===== src/Bank/Simulated/Laws.antt =====
-- The charges of the simulated bank, apps/api/src/bank/simulated-bank.adapter.ts.
use mathlib.Core.Path.{subst}
use payments_processor.Common.{
  sym, ap, ℕ, zero, suc, ◌+◌, ◌<◌, ◌≡◌, ◌≢◌, refl, true, Option, none, some, List, [], ◌∷◌, ◌++◌,
  arith, length, length-append,
}
use payments_processor.Database.{BankRef, of_key, BankMode, fail_n_then_authorize}
use payments_processor.Bank.{BankAuthorizeRequest, BankOutcome, authorized, error}
use payments_processor.Bank.Simulated.{
  SimulatedBankAdapter, new_bank, lookup, authorize, set_config,
}

-- A call of one of the methods that change the bank.
pub data BankCall : Type 0 where
  authorize_call : BankAuthorizeRequest → BankCall
  set_config_call : Option BankMode → Option ℕ → Option ℕ → BankCall

abbrev pub perform : BankCall → SimulatedBankAdapter → SimulatedBankAdapter
perform (authorize_call req) b = (authorize req b).1
perform (set_config_call mode fail_n latency) b = set_config mode fail_n latency b

abbrev pub perform_all : List BankCall → SimulatedBankAdapter → SimulatedBankAdapter
perform_all [] b = b
perform_all (c ∷ cs) b = perform_all cs (perform c b)

-- Every kept outcome is an authorization under its own key, no key is kept twice, and there is one
-- charge for each.
abbrev pub AreAuthorized : List (ℕ × BankOutcome) → Type 0
AreAuthorized [] = Unit
AreAuthorized ((k, o) ∷ m) = (o ≡ authorized (of_key k)) × (lookup k m ≡ none) × AreAuthorized m

abbrev pub IsSettled : SimulatedBankAdapter → Type 0
IsSettled b = AreAuthorized b.store × (b.charges ≡ length b.store)

lookup-append :
    (k j : ℕ) (o : BankOutcome) (m : List (ℕ × BankOutcome))
    → lookup k m ≡ none
    → j ≢ k
    → lookup k (m ++ (j, o) ∷ []) ≡ none
lookup-append k j o [] h ne = ground arith
lookup-append k j o (e ∷ m) h ne = ground (arith, lookup-append k j o m)

lookup-append_some :
    (k j : ℕ) (o p : BankOutcome) (m : List (ℕ × BankOutcome))
    → lookup k m ≡ some p
    → lookup k (m ++ (j, o) ∷ []) ≡ some p
lookup-append_some k j o p [] h = ground arith
lookup-append_some k j o p (e ∷ m) h = ground (arith, lookup-append_some k j o p m)

append-AreAuthorized :
    (k : ℕ) (m : List (ℕ × BankOutcome))
    → lookup k m ≡ none
    → AreAuthorized m
    → AreAuthorized (m ++ (k, authorized (of_key k)) ∷ [])
append-AreAuthorized k [] h a = (refl, refl, tt)
append-AreAuthorized k ((j, o) ∷ m) h (e, fresh, a) =
    (e, lookup-append j k _ m fresh (ground arith), append-AreAuthorized k m (ground arith) a)

pub authorize-IsSettled :
    (req : BankAuthorizeRequest) (b : SimulatedBankAdapter)
    → IsSettled b
    → IsSettled (authorize req b).1
unfolding authorize
authorize-IsSettled req b h = ground (
  arith,
  append-AreAuthorized req.idempotency_key b.store,
  length-append b.store ((req.idempotency_key, authorized (of_key req.idempotency_key)) ∷ []),
)

pub set_config-IsSettled :
    (mode : Option BankMode) (fail_n latency : Option ℕ) (b : SimulatedBankAdapter)
    → IsSettled b
    → IsSettled (set_config mode fail_n latency b)
unfolding set_config
set_config-IsSettled mode fail_n latency b h = ground arith

-- After any calls of a new bank, every kept outcome is the authorization of its key, no key is
-- kept twice, and the number of charges is the number of keys: each key is charged at most once.
pub charges_once : (cs : List BankCall) → IsSettled (perform_all cs new_bank)
charges_once cs = go cs new_bank (unfold new_bank in (tt, refl))
  where
    go :
        (cs : List BankCall) (b : SimulatedBankAdapter) → IsSettled b → IsSettled (perform_all cs b)
    go [] b h = h
    go (authorize_call req ∷ cs) b h = go cs _ (authorize-IsSettled req b h)
    go (set_config_call mode fail_n latency ∷ cs) b h =
        go cs _ (set_config-IsSettled mode fail_n latency b h)

-- An outcome that is kept under a key stays there.
pub keeps :
    (k : ℕ) (o : BankOutcome) (c : BankCall) (b : SimulatedBankAdapter)
    → lookup k b.store ≡ some o
    → lookup k (perform c b).store ≡ some o
unfolding authorize set_config
keeps k o (authorize_call req) b h = ground (
  arith,
  lookup-append_some k req.idempotency_key (authorized (of_key req.idempotency_key)) o b.store,
)
keeps k o (set_config_call mode fail_n latency) b h = ground arith

keeps_all :
    (k : ℕ) (o : BankOutcome) (cs : List BankCall) (b : SimulatedBankAdapter)
    → lookup k b.store ≡ some o
    → lookup k (perform_all cs b).store ≡ some o
keeps_all k o [] b h = h
keeps_all k o (c ∷ cs) b h = keeps_all k o cs _ (keeps k o c b h)

authorize-cached :
    (req : BankAuthorizeRequest) (o : BankOutcome) (b : SimulatedBankAdapter)
    → lookup req.idempotency_key b.store ≡ some o
    → authorize req b ≡ (o, b)
unfolding authorize
authorize-cached req o b h = ground arith

lookup-append_self :
    (k : ℕ) (o : BankOutcome) (m : List (ℕ × BankOutcome))
    → lookup k m ≡ none
    → lookup k (m ++ (k, o) ∷ []) ≡ some o
lookup-append_self k o [] h = ground arith
lookup-append_self k o (e ∷ m) h = ground (arith, lookup-append_self k o m)

pub kept :
    (req : BankAuthorizeRequest) (r : BankRef) (b : SimulatedBankAdapter)
    → (authorize req b).0 ≡ authorized r
    → lookup req.idempotency_key (authorize req b).1.store ≡ some (authorized r)
unfolding authorize
kept req r b h = ground (
  arith,
  lookup-append_self req.idempotency_key (authorized (of_key req.idempotency_key)) b.store,
)

-- Once a request is authorized, every later request with its key, whatever calls come between,
-- gets the same answer and changes nothing, so it is not charged again.
pub authorize-again :
    (req again : BankAuthorizeRequest) (r : BankRef) (cs : List BankCall) (b : SimulatedBankAdapter)
    → (authorize req b).0 ≡ authorized r
    → again.idempotency_key ≡ req.idempotency_key
    → authorize again (perform_all cs (authorize req b).1)
      ≡ (authorized r, perform_all cs (authorize req b).1)
authorize-again req again r cs b h same =
    authorize-cached again (authorized r) _
      (rw same (keeps_all req.idempotency_key _ cs _ (kept req r b h)))

-- `n` requests in a row.
abbrev pub requests : ℕ → BankAuthorizeRequest → List BankCall
requests zero req = []
requests (suc n) req = authorize_call req ∷ requests n req

fails_step :
    (req : BankAuthorizeRequest) (b : SimulatedBankAdapter)
    → b.mode ≡ fail_n_then_authorize
    → lookup req.idempotency_key b.store ≡ none
    → b.fail_count < b.fail_n
    → authorize req b ≡ (error true "bank_unavailable", record b { fail_count = b.fail_count + 1 })
unfolding authorize
fails_step req b m fresh h = ground arith

-- `n` requests charge nothing beyond `c` charges, and the next one is authorized and charged.
abbrev pub HealsAfter : ℕ → ℕ → BankAuthorizeRequest → SimulatedBankAdapter → Type 0
HealsAfter c n req b =
    ((perform_all (requests n req) b).charges ≡ c)
    × ((authorize req (perform_all (requests n req) b)).0 ≡ authorized (of_key req.idempotency_key))
    × ((authorize req (perform_all (requests n req) b)).1.charges ≡ c + 1)

-- A bank that is set to fail `fail_n` times answers as many requests for a new key without a
-- charge, and authorizes and charges the next one.
pub heals :
    (req : BankAuthorizeRequest) (n : ℕ) (b : SimulatedBankAdapter)
    → b.mode ≡ fail_n_then_authorize
    → lookup req.idempotency_key b.store ≡ none
    → b.fail_count + n ≡ b.fail_n
    → HealsAfter b.charges n req b
heals req zero b m fresh h = unfold authorize in (ground arith, ground arith, ground arith)
heals req (suc n) b m fresh h =
    let failed : SimulatedBankAdapter = record b { fail_count = b.fail_count + 1 } in
    subst (HealsAfter b.charges n req)
      (ap (λ p. p.1) (sym (fails_step req b m fresh (omega arith))))
      (heals req n failed m fresh (omega arith))
