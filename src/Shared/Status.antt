-- ===== src/Shared/Status.antt =====
-- The payment status and its transition map, packages/shared/src/index.ts.
pub mod Laws
use payments_processor.Common.{Bool, true, false, ◌||◌, List, [], ◌∷◌}

pub data PaymentStatus : Type 0 where
  pending processing completed failed retrying : PaymentStatus

-- `===` on statuses.
abbrev pub status_eq : PaymentStatus → PaymentStatus → Bool
status_eq pending pending = true
status_eq processing processing = true
status_eq completed completed = true
status_eq failed failed = true
status_eq retrying retrying = true
status_eq _ _ = false

-- `Set.prototype.has` on one of the sets of targets.
abbrev pub has : List PaymentStatus → PaymentStatus → Bool
has [] s = false
has (t ∷ ts) s = status_eq t s || has ts s

abbrev pub transition_map : PaymentStatus → List PaymentStatus
transition_map pending = processing ∷ []
transition_map processing = completed ∷ failed ∷ retrying ∷ []
transition_map retrying = processing ∷ []
transition_map completed = []
transition_map failed = []

unfoldable pub can_transition : PaymentStatus → PaymentStatus → Bool
can_transition from to = has (transition_map from) to
