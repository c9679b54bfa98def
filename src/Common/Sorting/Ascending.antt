-- ===== src/Common/Sorting/Ascending.antt =====
-- Rows in ascending order of a column, and selections of them.
use Prim.Native.Nat.{ℕ, ◌≤◌}
use mathlib.Core.Path.{◌≡◌, refl, sym, ap, ◌∙◌}
use mathlib.Core.Logic.{inl, inr}
use mathlib.Core.Bool.{Bool, true, false}
use mathlib.Core.List.{List, [], ◌∷◌}
use native.Mathlib.Omega.{arith}
use payments_processor.Common.Tests.{leb, Bool-cases}
use payments_processor.Common.Lists.{filter_by, All, insert_asc, sort_asc}

module _ {ℓ} {A : Type ℓ} (column : A → ℕ) where
  -- No row comes before `r` in the order of the column.
  abbrev Lows : A → List A → Type 0
  Lows r = All (λ s. column r ≤ column s)

  -- Rows in ascending order of the column.
  abbrev IsAscending : List A → Type ℓ
  IsAscending [] = Unit
  IsAscending (r ∷ rs) = Lows r rs × IsAscending rs

  insert_asc-Lows :
      (a r : A) (rs : List A) → column r ≤ column a → Lows r rs → Lows r (insert_asc column a rs)
  unfolding insert_asc
  insert_asc-Lows a r [] le low = (le, tt)
  insert_asc-Lows a r (x ∷ xs) le (lx, low) = elim (Bool-cases (leb (column a) (column x))) [
    | inl less ↦ rw less (le, (lx, low))
    | inr more ↦ rw more (lx, insert_asc-Lows a r xs le low)
  ]

  Lows-trans : (a r : A) (rs : List A) → column a ≤ column r → Lows r rs → Lows a rs
  Lows-trans a r [] le low = tt
  Lows-trans a r (x ∷ xs) le (lx, low) = (omega arith, Lows-trans a r xs le low)

  insert_asc-IsAscending :
      (a : A) (rs : List A) → IsAscending rs → IsAscending (insert_asc column a rs)
  unfolding insert_asc
  insert_asc-IsAscending a [] up = (tt, tt)
  insert_asc-IsAscending a (r ∷ rs) (low, up) = elim (Bool-cases (leb (column a) (column r))) [
    | inl less ↦
        let le : column a ≤ column r = ground arith in
        rw less ((le, Lows-trans a r rs le low), (low, up))
    | inr more ↦ rw more (insert_asc-Lows a r rs (ground arith) low, insert_asc-IsAscending a rs up)
  ]

  sort_asc-IsAscending : (rs : List A) → IsAscending (sort_asc column rs)
  unfolding sort_asc
  sort_asc-IsAscending [] = tt
  sort_asc-IsAscending (r ∷ rs) =
      insert_asc-IsAscending r (sort_asc column rs) (sort_asc-IsAscending rs)

  insert_asc_first : (a : A) (rs : List A) → Lows a rs → insert_asc column a rs ≡ a ∷ rs
  unfolding insert_asc
  insert_asc_first a [] low = refl
  insert_asc_first a (r ∷ rs) (le, low) =
      let less : leb (column a) (column r) ≡ true = ground arith in rw less refl

  filter_by-Lows : (p : A → Bool) (a : A) (rs : List A) → Lows a rs → Lows a (filter_by p rs)
  filter_by-Lows p a [] low = tt
  filter_by-Lows p a (r ∷ rs) (le, low) = elim (Bool-cases (p r)) [
    | inl kept ↦ rw kept (le, filter_by-Lows p a rs low)
    | inr dropped ↦ rw dropped (filter_by-Lows p a rs low)
  ]

  filter_by-insert_asc_in :
      (p : A → Bool) (a : A) (rs : List A)
      → p a ≡ true
      → IsAscending rs
      → filter_by p (insert_asc column a rs) ≡ insert_asc column a (filter_by p rs)
  unfolding insert_asc
  filter_by-insert_asc_in p a [] kept up = rw kept refl
  filter_by-insert_asc_in p a (r ∷ rs) kept (low, up) =
      elim (Bool-cases (leb (column a) (column r))) [
        | inl less ↦
            let le : column a ≤ column r = ground arith in
            rw less (
              rw kept (
                sym (
                  insert_asc_first a (filter_by p (r ∷ rs))
                    (filter_by-Lows p a (r ∷ rs) (le, Lows-trans a r rs le low)))))
        | inr more ↦ rw more (elim (Bool-cases (p r)) [
          | inl in_r ↦ rw in_r (rw more (ap (λ l. r ∷ l) (filter_by-insert_asc_in p a rs kept up)))
          | inr out_r ↦ rw out_r (filter_by-insert_asc_in p a rs kept up)
        ])
      ]

  filter_by-insert_asc_out :
      (p : A → Bool) (a : A) (rs : List A)
      → p a ≡ false
      → filter_by p (insert_asc column a rs) ≡ filter_by p rs
  unfolding insert_asc
  filter_by-insert_asc_out p a [] out = rw out refl
  filter_by-insert_asc_out p a (r ∷ rs) out = ground (arith, filter_by-insert_asc_out p a rs out)

  -- A selection of the rows in order is the selection in order.
  pub filter_by-sort_asc :
      (p : A → Bool) (rs : List A)
      → filter_by p (sort_asc column rs) ≡ sort_asc column (filter_by p rs)
  unfolding sort_asc
  filter_by-sort_asc p [] = refl
  filter_by-sort_asc p (r ∷ rs) = elim (Bool-cases (p r)) [
    | inl kept ↦
        filter_by-insert_asc_in p r (sort_asc column rs) kept (sort_asc-IsAscending rs)
        ∙ rw kept (ap (insert_asc column r) (filter_by-sort_asc p rs))
    | inr out ↦
        filter_by-insert_asc_out p r (sort_asc column rs) out ∙ rw out (filter_by-sort_asc p rs)
  ]
