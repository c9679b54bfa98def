-- ===== src/Common/Sorting.antt =====
-- A table in the order of one column, read by another: what ORDER BY … LIMIT takes, and what it
-- leaves.
mod Ascending
use payments_processor.Common.Sorting.Ascending.{filter_by-sort_asc}
use Prim.Native.Nat.{ℕ, ◌≤◌}
use mathlib.Core.Path.{◌≡◌, refl, ap, ◌∙◌, sym}
use mathlib.Core.Logic.{inl, inr, ◌≢◌}
use mathlib.Core.Bool.{Bool, true, false, not}
use mathlib.Core.List.{List, [], ◌∷◌, ◌++◌, map}
use native.Mathlib.Omega.{arith}
use payments_processor.Common.Tests.{leb, Bool-cases}
use payments_processor.Common.Lists.{
  filter_by, All, take, drop, mem, insert_asc, sort_asc, filter_by-append, take-append-drop,
}
use payments_processor.Common.Table.{HasUniqueKeys}
use payments_processor.Common.Paging.Order.{Avoids-find, find_of_Avoids, Avoids}

module _ {ℓ} {A : Type ℓ} (column key : A → ℕ) where
  insert_asc-Avoids :
      (k : ℕ) (a : A) (rs : List A)
      → key a ≢ k
      → Avoids key k rs
      → Avoids key k (insert_asc column a rs)
  unfolding insert_asc
  insert_asc-Avoids k a [] h v = (h, tt)
  insert_asc-Avoids k a (r ∷ rs) h (ne, v) = elim (Bool-cases (leb (column a) (column r))) [
    | inl less ↦ rw less (h, (ne, v))
    | inr more ↦ rw more (ne, insert_asc-Avoids k a rs h v)
  ]

  sort_asc-Avoids : (k : ℕ) (rs : List A) → Avoids key k rs → Avoids key k (sort_asc column rs)
  unfolding sort_asc
  sort_asc-Avoids k [] v = tt
  sort_asc-Avoids k (r ∷ rs) (ne, v) =
      insert_asc-Avoids k r (sort_asc column rs) ne (sort_asc-Avoids k rs v)

  insert_asc-HasUniqueKeys :
      (a : A) (rs : List A)
      → Avoids key (key a) rs
      → HasUniqueKeys key rs
      → HasUniqueKeys key (insert_asc column a rs)
  unfolding insert_asc
  insert_asc-HasUniqueKeys a [] v u = (refl, tt)
  insert_asc-HasUniqueKeys a (r ∷ rs) (ne, v) (fresh, u) =
      elim (Bool-cases (leb (column a) (column r))) [
        | inl less ↦ rw less (find_of_Avoids key (key a) (r ∷ rs) (ne, v), (fresh, u))
        | inr more ↦ rw more (
          find_of_Avoids key (key r) _
              (insert_asc-Avoids (key r) a rs (λ e. ne (sym e)) (Avoids-find key (key r) rs fresh)),
          insert_asc-HasUniqueKeys a rs v u,
        )
      ]

  pub sort_asc-HasUniqueKeys :
      (rs : List A) → HasUniqueKeys key rs → HasUniqueKeys key (sort_asc column rs)
  unfolding sort_asc
  sort_asc-HasUniqueKeys [] u = tt
  sort_asc-HasUniqueKeys (r ∷ rs) (fresh, u) =
      insert_asc-HasUniqueKeys r (sort_asc column rs)
        (sort_asc-Avoids (key r) rs (Avoids-find key (key r) rs fresh))
        (sort_asc-HasUniqueKeys rs u)

  -- Every key of the rows is in the list, or none is.
  abbrev Inside : List ℕ → List A → Type 0
  Inside ks = All (λ r. mem ks (key r) ≡ true)

  abbrev Outside : List ℕ → List A → Type 0
  Outside ks = All (λ r. mem ks (key r) ≡ false)

  Inside-cons : (k : ℕ) (ks : List ℕ) (rs : List A) → Inside ks rs → Inside (k ∷ ks) rs
  Inside-cons k ks [] h = tt
  Inside-cons k ks (r ∷ rs) (p, h) = (ground arith, Inside-cons k ks rs h)

  Inside-map : (rs : List A) → Inside (map key rs) rs
  Inside-map [] = tt
  Inside-map (r ∷ rs) = (ground arith, Inside-cons (key r) (map key rs) rs (Inside-map rs))

  Outside-nil : (rs : List A) → Outside [] rs
  Outside-nil [] = tt
  Outside-nil (r ∷ rs) = (refl, Outside-nil rs)

  Outside-cons :
      (k : ℕ) (ks : List ℕ) (rs : List A) → Avoids key k rs → Outside ks rs → Outside (k ∷ ks) rs
  Outside-cons k ks [] v h = tt
  Outside-cons k ks (r ∷ rs) (ne, v) (p, h) = (ground arith, Outside-cons k ks rs v h)

  Avoids-right : (k : ℕ) (xs ys : List A) → Avoids key k (xs ++ ys) → Avoids key k ys
  Avoids-right k [] ys v = v
  Avoids-right k (x ∷ xs) ys (ne, v) = Avoids-right k xs ys v

  Outside-map : (xs ys : List A) → HasUniqueKeys key (xs ++ ys) → Outside (map key xs) ys
  Outside-map [] ys u = Outside-nil ys
  Outside-map (x ∷ xs) ys (fresh, u) =
      Outside-cons (key x) (map key xs) ys
        (Avoids-right (key x) xs ys (Avoids-find key (key x) (xs ++ ys) fresh))
        (Outside-map xs ys u)

  filter_by-Inside :
      (ks : List ℕ) (rs : List A) → Inside ks rs → filter_by (λ r. not (mem ks (key r))) rs ≡ []
  filter_by-Inside ks [] h = refl
  filter_by-Inside ks (r ∷ rs) (p, h) = rw p (filter_by-Inside ks rs h)

  filter_by-Outside :
      (ks : List ℕ) (rs : List A) → Outside ks rs → filter_by (λ r. not (mem ks (key r))) rs ≡ rs
  filter_by-Outside ks [] h = refl
  filter_by-Outside ks (r ∷ rs) (p, h) = rw p (ap (λ l. r ∷ l) (filter_by-Outside ks rs h))

  split_by_keys :
      (xs ys : List A)
      → HasUniqueKeys key (xs ++ ys)
      → filter_by (λ r. not (mem (map key xs) (key r))) (xs ++ ys) ≡ ys
  split_by_keys xs ys u =
      filter_by-append (λ r. not (mem (map key xs) (key r))) xs ys
      ∙ rw (filter_by-Inside (map key xs) xs (Inside-map xs))
          (filter_by-Outside (map key xs) ys (Outside-map xs ys u))

  -- Of rows with unique keys, those that are not among the first `n` in the order of the column are,
  -- in that order, the rest.
  pub sort_asc-rest :
      (n : ℕ) (rs : List A)
      → HasUniqueKeys key rs
      → sort_asc column
          (filter_by (λ r. not (mem (map key (take n (sort_asc column rs))) (key r))) rs)
        ≡ drop n (sort_asc column rs)
  sort_asc-rest n rs u =
      let s : List A = sort_asc column rs in
      let chosen : List ℕ = map key (take n s) in
      let whole : HasUniqueKeys key (take n s ++ drop n s) =
        rw (take-append-drop n s) (sort_asc-HasUniqueKeys rs u) in
      sym (filter_by-sort_asc column (λ r. not (mem chosen (key r))) rs)
      ∙ ap (filter_by (λ r. not (mem chosen (key r)))) (sym (take-append-drop n s))
      ∙ split_by_keys (take n s) (drop n s) whole
