-- ===== src/Common/Paging/Order.antt =====
-- Sorting by a key in descending order.
use Prim.Native.Nat.{ℕ, zero, suc, ◌<◌, ◌≤◌}
use mathlib.Core.Path.{◌≡◌, refl, ap, ◌∙◌, sym}
use mathlib.Core.Logic.{inl, inr, ◌≢◌}
use mathlib.Core.Bool.{Bool, true, false}
use mathlib.Core.List.{List, [], ◌∷◌}
use mathlib.Core.Option.{none, some}
use native.Mathlib.Omega.{arith}
use payments_processor.Common.Tests.{ltb, if◌then◌else◌, Bool-cases}
use payments_processor.Common.Lists.{length, filter_by, All, get_elem?, drop}
use payments_processor.Common.Table.{HasUniqueKeys, find}
use payments_processor.Common.Paging.{insert_desc, sort_desc}

module _ {ℓ} {A : Type ℓ} (key : A → ℕ) where
  -- Every row of the list has a key that is at most `k`, or below it.
  abbrev pub AtMost : ℕ → List A → Type 0
  AtMost k = All (λ r. key r ≤ k)

  abbrev pub Below : ℕ → List A → Type 0
  Below k = All (λ r. key r < k)

  abbrev pub IsDescending : List A → Type 0
  IsDescending [] = Unit
  IsDescending (r ∷ rs) = AtMost (key r) rs × IsDescending rs

  abbrev pub IsStrict : List A → Type 0
  IsStrict [] = Unit
  IsStrict (r ∷ rs) = Below (key r) rs × IsStrict rs

  AtMost-trans : (j k : ℕ) (rs : List A) → j ≤ k → AtMost j rs → AtMost k rs
  AtMost-trans j k [] h a = tt
  AtMost-trans j k (r ∷ rs) h (p, a) = (omega arith, AtMost-trans j k rs h a)

  Below-trans : (j k : ℕ) (rs : List A) → j ≤ k → Below j rs → Below k rs
  Below-trans j k [] h a = tt
  Below-trans j k (r ∷ rs) h (p, a) = (omega arith, Below-trans j k rs h a)

  insert_desc-AtMost :
      (k : ℕ) (a : A) (rs : List A) → key a ≤ k → AtMost k rs → AtMost k (insert_desc key a rs)
  unfolding insert_desc
  insert_desc-AtMost k a [] h at = (h, tt)
  insert_desc-AtMost k a (r ∷ rs) h (p, at) = ground (arith, insert_desc-AtMost k a rs h at)

  insert_desc-IsDescending :
      (a : A) (rs : List A) → IsDescending rs → IsDescending (insert_desc key a rs)
  unfolding insert_desc
  insert_desc-IsDescending a [] d = (tt, tt)
  insert_desc-IsDescending a (r ∷ rs) (at, d) = elim (Bool-cases (ltb (key r) (key a))) [
    | inl less ↦
        rw less ((ground arith, AtMost-trans (key r) (key a) rs (ground arith) at), (at, d))
    | inr more ↦
        rw more (insert_desc-AtMost (key r) a rs (ground arith) at, insert_desc-IsDescending a rs d)
  ]

  pub sort_desc-IsDescending : (rs : List A) → IsDescending (sort_desc key rs)
  unfolding sort_desc
  sort_desc-IsDescending [] = tt
  sort_desc-IsDescending (r ∷ rs) =
      insert_desc-IsDescending r (sort_desc key rs) (sort_desc-IsDescending rs)

  insert_front : (a : A) (rs : List A) → Below (key a) rs → insert_desc key a rs ≡ a ∷ rs
  unfolding insert_desc
  insert_front a [] b = refl
  insert_front a (r ∷ rs) (less, b) = ground arith

  filter_by-AtMost : (p : A → Bool) (k : ℕ) (rs : List A) → AtMost k rs → AtMost k (filter_by p rs)
  filter_by-AtMost p k [] h = tt
  filter_by-AtMost p k (r ∷ rs) (at, h) = ground (arith, filter_by-AtMost p k rs h)

  AtMost-Below : (j k : ℕ) (rs : List A) → j < k → AtMost j rs → Below k rs
  AtMost-Below j k [] h a = tt
  AtMost-Below j k (r ∷ rs) h (p, a) = (omega arith, AtMost-Below j k rs h a)

  filter_by-insert_desc :
      (p : A → Bool) (a : A) (rs : List A)
      → IsDescending rs
      → filter_by p (insert_desc key a rs)
        ≡ (if p a then insert_desc key a (filter_by p rs) else filter_by p rs)
  unfolding insert_desc
  filter_by-insert_desc p a [] d = ground arith
  filter_by-insert_desc p a (r ∷ rs) (at, d) = elim (Bool-cases (ltb (key r) (key a))) [
    | inl less ↦
        let front =
          insert_front a (filter_by p rs)
            (AtMost-Below (key r) (key a) _ (ground arith) (filter_by-AtMost p (key r) rs at)) in
        ground (arith, front)
    | inr more ↦ ground (arith, filter_by-insert_desc p a rs d)
  ]

  -- Filtering and sorting may be done in either order.
  pub filter_by-sort_desc :
      (p : A → Bool) (rs : List A) → filter_by p (sort_desc key rs) ≡ sort_desc key (filter_by p rs)
  unfolding sort_desc
  filter_by-sort_desc p [] = refl
  filter_by-sort_desc p (r ∷ rs) =
      filter_by-insert_desc p r (sort_desc key rs) (sort_desc-IsDescending rs)
      ∙ ground (arith, filter_by-sort_desc p rs)

  abbrev pub Avoids : ℕ → List A → Type 0
  Avoids k = All (λ r. key r ≢ k)

  pub Avoids-find : (k : ℕ) (rs : List A) → find key k rs ≡ none → Avoids k rs
  Avoids-find k [] h = tt
  Avoids-find k (r ∷ rs) h = (ground arith, Avoids-find k rs (ground arith))

  pub find_of_Avoids : (k : ℕ) (rs : List A) → Avoids k rs → find key k rs ≡ none
  find_of_Avoids k [] h = refl
  find_of_Avoids k (r ∷ rs) (ne, h) = ground (arith, find_of_Avoids k rs h)

  insert_desc-Avoids :
      (k : ℕ) (a : A) (rs : List A) → key a ≢ k → Avoids k rs → Avoids k (insert_desc key a rs)
  unfolding insert_desc
  insert_desc-Avoids k a [] h v = (h, tt)
  insert_desc-Avoids k a (r ∷ rs) h (ne, v) = elim (Bool-cases (ltb (key r) (key a))) [
    | inl less ↦ rw less (h, (ne, v))
    | inr more ↦ rw more (ne, insert_desc-Avoids k a rs h v)
  ]

  sort_desc-Avoids : (k : ℕ) (rs : List A) → Avoids k rs → Avoids k (sort_desc key rs)
  unfolding sort_desc
  sort_desc-Avoids k [] v = tt
  sort_desc-Avoids k (r ∷ rs) (ne, v) =
      insert_desc-Avoids k r (sort_desc key rs) ne (sort_desc-Avoids k rs v)

  filter_by-Avoids : (p : A → Bool) (k : ℕ) (rs : List A) → Avoids k rs → Avoids k (filter_by p rs)
  filter_by-Avoids p k [] v = tt
  filter_by-Avoids p k (r ∷ rs) (ne, v) = elim (Bool-cases (p r)) [
    | inl kept ↦ rw kept (ne, filter_by-Avoids p k rs v)
    | inr dropped ↦ rw dropped (filter_by-Avoids p k rs v)
  ]

  pub filter_by-HasUniqueKeys :
      (p : A → Bool) (rs : List A) → HasUniqueKeys key rs → HasUniqueKeys key (filter_by p rs)
  filter_by-HasUniqueKeys p [] u = tt
  filter_by-HasUniqueKeys p (r ∷ rs) (fresh, u) = elim (Bool-cases (p r)) [
    | inl kept ↦ rw kept (
      find_of_Avoids (key r) (filter_by p rs)
          (filter_by-Avoids p (key r) rs (Avoids-find (key r) rs fresh)),
      filter_by-HasUniqueKeys p rs u,
    )
    | inr dropped ↦ rw dropped (filter_by-HasUniqueKeys p rs u)
  ]

  strictly : (k : ℕ) (rs : List A) → AtMost k rs → Avoids k rs → Below k rs
  strictly k [] at v = tt
  strictly k (r ∷ rs) (at, ats) (ne, v) = (omega arith, strictly k rs ats v)

  IsStrict-unique : (rs : List A) → IsDescending rs → HasUniqueKeys key rs → IsStrict rs
  IsStrict-unique [] d u = tt
  IsStrict-unique (r ∷ rs) (at, d) (fresh, u) =
      (strictly (key r) rs at (Avoids-find (key r) rs fresh), IsStrict-unique rs d u)

  insert_desc-HasUniqueKeys :
      (a : A) (rs : List A)
      → Avoids (key a) rs
      → HasUniqueKeys key rs
      → HasUniqueKeys key (insert_desc key a rs)
  unfolding insert_desc
  insert_desc-HasUniqueKeys a [] v u = (refl, tt)
  insert_desc-HasUniqueKeys a (r ∷ rs) (ne, v) (fresh, u) =
      elim (Bool-cases (ltb (key r) (key a))) [
        | inl less ↦ rw less (find_of_Avoids (key a) (r ∷ rs) (ne, v), (fresh, u))
        | inr more ↦ rw more (
          find_of_Avoids (key r) _
              (insert_desc-Avoids (key r) a rs (λ e. ne (sym e)) (Avoids-find (key r) rs fresh)),
          insert_desc-HasUniqueKeys a rs v u,
        )
      ]

  sort_desc-HasUniqueKeys :
      (rs : List A) → HasUniqueKeys key rs → HasUniqueKeys key (sort_desc key rs)
  unfolding sort_desc
  sort_desc-HasUniqueKeys [] u = tt
  sort_desc-HasUniqueKeys (r ∷ rs) (fresh, u) =
      insert_desc-HasUniqueKeys r (sort_desc key rs)
        (sort_desc-Avoids (key r) rs (Avoids-find (key r) rs fresh)) (sort_desc-HasUniqueKeys rs u)

  -- Rows with unique keys are sorted strictly.
  pub sort_desc-IsStrict : (rs : List A) → HasUniqueKeys key rs → IsStrict (sort_desc key rs)
  sort_desc-IsStrict rs u =
      IsStrict-unique (sort_desc key rs) (sort_desc-IsDescending rs) (sort_desc-HasUniqueKeys rs u)

  pub Below-get_elem? :
      (k n : ℕ) (r : A) (rs : List A) → Below k rs → get_elem? rs n ≡ some r → key r < k
  Below-get_elem? k n r [] b e = cc
  Below-get_elem? k zero r (x ∷ rs) (p, b) e = ground arith
  Below-get_elem? k (suc n) r (x ∷ rs) (p, b) e = Below-get_elem? k n r rs b e

  filter_by-Below : (k : ℕ) (rs : List A) → Below k rs → filter_by (λ x. ltb (key x) k) rs ≡ rs
  filter_by-Below k [] b = refl
  filter_by-Below k (r ∷ rs) (p, b) =
      let less : ltb (key r) k ≡ true = ground arith in
      rw less (ap (λ l. r ∷ l) (filter_by-Below k rs b))

  -- In a strictly sorted list, the rows behind a row are those with smaller keys.
  pub filter_by-eq-drop :
      (n : ℕ) (r : A) (rs : List A)
      → IsStrict rs
      → get_elem? rs n ≡ some r
      → filter_by (λ x. ltb (key x) (key r)) rs ≡ drop (suc n) rs
  filter_by-eq-drop n r [] st e = cc
  filter_by-eq-drop zero r (x ∷ rs) (b, st) e =
      let same : key x ≡ key r = cc in
      let out : ltb (key x) (key r) ≡ false = ground arith in
      rw out (filter_by-Below (key r) rs (Below-trans (key x) (key r) rs (omega arith) b))
  filter_by-eq-drop (suc n) r (x ∷ rs) (b, st) e =
      let out : ltb (key x) (key r) ≡ false = ground (arith, Below-get_elem? (key x) n r rs b e) in
      rw out (filter_by-eq-drop n r rs st e)

  insert_desc-Below :
      (k : ℕ) (a : A) (rs : List A) → key a < k → Below k rs → Below k (insert_desc key a rs)
  unfolding insert_desc
  insert_desc-Below k a [] h b = (h, tt)
  insert_desc-Below k a (r ∷ rs) h (p, b) = ground (arith, insert_desc-Below k a rs h b)

  pub sort_desc-Below : (k : ℕ) (rs : List A) → Below k rs → Below k (sort_desc key rs)
  unfolding sort_desc
  sort_desc-Below k [] b = tt
  sort_desc-Below k (r ∷ rs) (p, b) =
      insert_desc-Below k r (sort_desc key rs) p (sort_desc-Below k rs b)

  length-insert_desc : (a : A) (rs : List A) → length (insert_desc key a rs) ≡ suc (length rs)
  unfolding insert_desc
  length-insert_desc a [] = refl
  length-insert_desc a (r ∷ rs) = ground (arith, length-insert_desc a rs)

  pub length-sort_desc : (rs : List A) → length (sort_desc key rs) ≡ length rs
  unfolding sort_desc
  length-sort_desc [] = refl
  length-sort_desc (r ∷ rs) = length-insert_desc r (sort_desc key rs) ∙ ap suc (length-sort_desc rs)

  pub length-filter_by : (p : A → Bool) (rs : List A) → length (filter_by p rs) ≤ length rs
  length-filter_by p [] = omega arith
  length-filter_by p (r ∷ rs) = ground (arith, length-filter_by p rs)
