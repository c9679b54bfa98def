-- ===== src/Common/Selections.antt =====
-- The rows that a SELECT … WHERE … LIMIT returns, as rows of their table.
use Prim.Native.Nat.{ℕ, zero, suc}
use mathlib.Core.Path.{◌≡◌, refl}
use mathlib.Core.Logic.{inl, inr}
use mathlib.Core.Bool.{Bool, true, false}
use mathlib.Core.Option.{none, some}
use mathlib.Core.List.{List, [], ◌∷◌, map}
use native.Mathlib.Omega.{arith}
use payments_processor.Common.Tests.{◌==◌, Bool-cases}
use payments_processor.Common.Lists.{filter_by, take, mem, All}
use payments_processor.Common.Table.{find, HasUniqueKeys}

module _ {ℓ κ} {A : Type ℓ} (P : A → Type κ) where
  pub All-filter_by : (p : A → Bool) (rs : List A) → All P rs → All P (filter_by p rs)
  All-filter_by p [] a = tt
  All-filter_by p (r ∷ rs) (h, a) = elim (Bool-cases (p r)) [
    | inl kept ↦ rw kept (h, All-filter_by p rs a)
    | inr dropped ↦ rw dropped (All-filter_by p rs a)
  ]

  pub All-take : (n : ℕ) (rs : List A) → All P rs → All P (take n rs)
  All-take zero rs a = tt
  All-take (suc n) [] a = tt
  All-take (suc n) (r ∷ rs) (h, a) = (h, All-take n rs a)

module _ {ℓ} {A : Type ℓ} where
  pub filter_by-All : (p : A → Bool) (rs : List A) → All (λ r. p r ≡ true) (filter_by p rs)
  filter_by-All p [] = tt
  filter_by-All p (r ∷ rs) = elim (Bool-cases (p r)) [
    | inl kept ↦ rw kept (kept, filter_by-All p rs)
    | inr dropped ↦ rw dropped (filter_by-All p rs)
  ]

module _ {ℓ} {A : Type ℓ} (key : A → ℕ) where
  -- The row is the one that the table has under its key.
  abbrev pub IsRow : List A → A → Type ℓ
  IsRow table r = find key (key r) table ≡ some r

  IsRow-cons :
      (x : A) (table rs : List A)
      → find key (key x) table ≡ none
      → All (IsRow table) rs
      → All (IsRow (x ∷ table)) rs
  IsRow-cons x table [] fresh a = tt
  IsRow-cons x table (r ∷ rs) fresh (h, a) = (
    elim (Bool-cases (key x == key r)) [
      | inl same ↦ absurd (ground arith)
      | inr other ↦ rw other h
    ],
    IsRow-cons x table rs fresh a,
  )

  pub HasUniqueKeys-All : (rs : List A) → HasUniqueKeys key rs → All (IsRow rs) rs
  HasUniqueKeys-All [] u = tt
  HasUniqueKeys-All (r ∷ rs) (fresh, u) =
      (ground arith, IsRow-cons r rs rs fresh (HasUniqueKeys-All rs u))

  find-take : (k n : ℕ) (rs : List A) → find key k rs ≡ none → find key k (take n rs) ≡ none
  find-take k zero rs h = refl
  find-take k (suc n) [] h = refl
  find-take k (suc n) (r ∷ rs) h = ground (arith, find-take k n rs)

  pub take-HasUniqueKeys :
      (n : ℕ) (rs : List A) → HasUniqueKeys key rs → HasUniqueKeys key (take n rs)
  take-HasUniqueKeys zero rs u = tt
  take-HasUniqueKeys (suc n) [] u = tt
  take-HasUniqueKeys (suc n) (r ∷ rs) (fresh, u) =
      (find-take (key r) n rs fresh, take-HasUniqueKeys n rs u)

  pub mem-map : (k : ℕ) (rs : List A) → find key k rs ≡ none → mem (map key rs) k ≡ false
  mem-map k [] h = refl
  mem-map k (r ∷ rs) h = ground (arith, mem-map k rs)
