-- ===== src/Shared/Status/Laws.antt =====
-- What the transition map of packages/shared/src/index.ts allows.
use payments_processor.Common.{true, ◌≡◌, ◌↔◌, ◌⊎◌, refl, arith}
use payments_processor.Shared.Status.{
  PaymentStatus, pending, processing, completed, failed, retrying, status_eq, can_transition,
}

pub status_eq_iff : (s t : PaymentStatus) → (status_eq s t ≡ true) ↔ (s ≡ t)
status_eq_iff s t = ground arith

-- The life of a payment as a relation, one constructor for each event that moves it.
pub data Allowed : PaymentStatus → PaymentStatus → Type 0 where
  start : Allowed pending processing
  restart : Allowed retrying processing
  complete : Allowed processing completed
  fail : Allowed processing failed
  retry : Allowed processing retrying

pub can_transition_of_Allowed : {s t : PaymentStatus} → Allowed s t → can_transition s t ≡ true
unfolding can_transition
can_transition_of_Allowed start = refl
can_transition_of_Allowed restart = refl
can_transition_of_Allowed complete = refl
can_transition_of_Allowed fail = refl
can_transition_of_Allowed retry = refl

Allowed_of_can_transition : (s t : PaymentStatus) → can_transition s t ≡ true → Allowed s t
unfolding can_transition
Allowed_of_can_transition pending processing h = start
Allowed_of_can_transition retrying processing h = restart
Allowed_of_can_transition processing completed h = complete
Allowed_of_can_transition processing failed h = fail
Allowed_of_can_transition processing retrying h = retry
Allowed_of_can_transition _ _ h = cc

-- The test of the code accepts a pair of statuses exactly when one of the five events of a
-- payment's life leads from the first to the second.
pub can_transition_iff : (s t : PaymentStatus) → (can_transition s t ≡ true) ↔ Allowed s t
can_transition_iff s t = (Allowed_of_can_transition s t, can_transition_of_Allowed)

abbrev pub IsTerminal : PaymentStatus → Type 0
IsTerminal s = (s ≡ completed) ⊎ (s ≡ failed)

-- Any number of allowed moves.
pub data Leads (s : PaymentStatus) : PaymentStatus → Type 0 where
  here : Leads s s
  next : {t u : PaymentStatus} → Leads s t → can_transition t u ≡ true → Leads s u

terminal_stays :
    {s t : PaymentStatus} (u : PaymentStatus)
    → IsTerminal s
    → t ≡ s
    → can_transition t u ≡ true
    → u ≡ s
unfolding can_transition
terminal_stays u h e m = ground arith

-- From a completed or a failed payment no chain of allowed moves leads to another status.
pub Leads-terminal : {s t : PaymentStatus} → IsTerminal s → Leads s t → t ≡ s
Leads-terminal h here = refl
Leads-terminal h (next {u = u} r m) = terminal_stays u h (Leads-terminal h r) m
