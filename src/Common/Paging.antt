-- ===== src/Common/Paging.antt =====
-- Pages of a table in descending order of its key, as the two listing endpoints cut them:
-- apps/api/src/payments/payments.controller.ts and
-- apps/api/src/webhooks/webhook-deliveries.controller.ts.
pub mod Order
pub mod Walk
use Prim.Native.Nat.{ℕ, suc, ◌+◌, ◌-◌}
use mathlib.Core.Bool.{Bool, true, false, ◌&&◌}
use mathlib.Core.List.{List, [], ◌∷◌, ◌++◌}
use mathlib.Core.Option
use mathlib.Core.Option.{Option, none, some}
use payments_processor.Common.Tests.{ltb, ◌==◌, if◌then◌else◌}
use payments_processor.Common.Lists.{filter_by, length, get_elem?, take}

-- The condition on the cursor, if one is given: lt(id, cursor).
abbrev pub before : Option ℕ → ℕ → Bool
before none id = true
before (some c) id = ltb id c

module _ {ℓ} {A : Type ℓ} (key : A → ℕ) where
  -- ORDER BY key DESC
  unfoldable pub insert_desc : A → List A → List A
  insert_desc a [] = a ∷ []
  insert_desc a (b ∷ bs) =
      let later = b ∷ insert_desc a bs in if ltb (key b) (key a) then a ∷ b ∷ bs else later

  unfoldable pub sort_desc : List A → List A
  sort_desc [] = []
  sort_desc (a ∷ rows) = insert_desc a (sort_desc rows)

  -- The rows that pass the other condition and the cursor's, in order, without the LIMIT.
  abbrev pub listing : (A → Bool) → Option ℕ → List A → List A
  listing p cursor rows = sort_desc (filter_by (λ r. p r && before cursor (key r)) rows)

  -- The object that a listing endpoint answers with, for a limit and the rows of its query.
  pub record Page : Type ℓ where
    pub rows : List A
    pub next_cursor : Option ℕ

  unfoldable pub page : ℕ → List A → Page
  page limit rows =
      if length rows == limit + 1
      then record {
        rows = take limit rows;
        next_cursor = Option.map key (get_elem? rows (length rows - 2));
      }
      else record { rows = rows; next_cursor = none }
