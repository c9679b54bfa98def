-- ===== src/Common/Paging/Walk.antt =====
-- Following the cursors from page to page.
use Prim.Native.Nat.{ℕ, zero, suc, ◌+◌, ◌-◌, ◌<◌, ◌≤◌}
use mathlib.Core.Path.{◌≡◌, refl, ap, ◌∙◌, sym}
use mathlib.Core.Logic.{inl, inr}
use mathlib.Core.Bool.{Bool, true, ◌&&◌}
use mathlib.Core.List.{List, [], ◌∷◌, ◌++◌, append-nil}
use mathlib.Core.Option.{Option, none, some}
use native.Mathlib.Omega.{arith}
use payments_processor.Common.Tests.{ltb, Bool-cases, ==_refl}
use payments_processor.Common.Lists.{
  filter_by, length, get_elem?, take, drop, length-take, take-append-drop,
}
use payments_processor.Common.Table.{HasUniqueKeys}
use payments_processor.Common.Paging.{sort_desc, before, listing, Page, page}
use payments_processor.Common.Paging.Order.{
  length-sort_desc, length-filter_by, Below, sort_desc-IsStrict, filter_by-HasUniqueKeys,
  filter_by-sort_desc, filter_by-eq-drop, sort_desc-Below, Below-get_elem?,
}

module _ {ℓ} {A : Type ℓ} where
  take_all : (n : ℕ) (xs : List A) → length xs ≤ n → take n xs ≡ xs
  take_all zero [] h = refl
  take_all zero (x ∷ xs) h = absurd (omega arith)
  take_all (suc n) [] h = refl
  take_all (suc n) (x ∷ xs) h = ap (λ r. x ∷ r) (take_all n xs (omega arith))

  take-take : (n : ℕ) (xs : List A) → take n (take (suc n) xs) ≡ take n xs
  take-take zero xs = refl
  take-take (suc n) [] = refl
  take-take (suc n) (x ∷ xs) = ap (λ r. x ∷ r) (take-take n xs)

  get_elem?-take : (n m : ℕ) (xs : List A) → n < m → get_elem? (take m xs) n ≡ get_elem? xs n
  get_elem?-take n zero xs h = absurd (omega arith)
  get_elem?-take n (suc m) [] h = refl
  get_elem?-take zero (suc m) (x ∷ xs) h = refl
  get_elem?-take (suc n) (suc m) (x ∷ xs) h = get_elem?-take n m xs (omega arith)

  get_elem?_in : (n : ℕ) (xs : List A) → n < length xs → (a : A) × (get_elem? xs n ≡ some a)
  get_elem?_in n [] h = absurd (omega arith)
  get_elem?_in zero (x ∷ xs) h = (x, refl)
  get_elem?_in (suc n) (x ∷ xs) h = get_elem?_in n xs (omega arith)

  pub length-drop : (n : ℕ) (xs : List A) → length (drop n xs) ≡ length xs - n
  length-drop zero xs = omega arith
  length-drop (suc n) [] = omega arith
  length-drop (suc n) (x ∷ xs) = omega (arith, length-drop n xs)

module _ {ℓ} {A : Type ℓ} (key : A → ℕ) (p : A → Bool) where
  -- The answer of the endpoint for a cursor.
  abbrev pub answer : ℕ → Option ℕ → List A → Page key
  answer limit cursor rows = page key limit (take (limit + 1) (listing key p cursor rows))

  -- What a client collects that follows the cursors, for at most `fuel` pages.
  unfoldable pub walk : (fuel limit : ℕ) → Option ℕ → List A → List A
  walk zero limit cursor rows = []
  walk (suc fuel) limit cursor rows =
      let here = answer limit cursor rows in
      here.rows ++ (elim here.next_cursor [ none ↦ [] | some c ↦ walk fuel limit (some c) rows ])

  Below-cursor : (c : ℕ) (rows : List A) → Below key c (filter_by (λ r. p r && ltb (key r) c) rows)
  Below-cursor c [] = tt
  Below-cursor c (r ∷ rows) = ground (arith, Below-cursor c rows)

  passes_cursor :
      (cursor : Option ℕ) (n : ℕ) (r : A) (rows : List A)
      → get_elem? (listing key p cursor rows) n ≡ some r
      → (k : ℕ) → ltb k (key r) ≡ true
      → before cursor k ≡ true
  passes_cursor none n r rows e k h = refl
  passes_cursor (some c) n r rows e k h = ground (
    arith,
    Below-get_elem? key c n r (listing key p (some c) rows)
        (sort_desc-Below key c _ (Below-cursor c rows)) e,
  )

  filter_twice :
      (cursor : Option ℕ) (c : ℕ)
      → ((k : ℕ) → ltb k c ≡ true → before cursor k ≡ true)
      → (rows : List A)
      → filter_by (λ r. ltb (key r) c) (filter_by (λ r. p r && before cursor (key r)) rows)
        ≡ filter_by (λ r. p r && ltb (key r) c) rows
  filter_twice cursor c h [] = refl
  filter_twice cursor c h (r ∷ rows) = ground (arith, h (key r), filter_twice cursor c h rows)

  -- The rows below the key of the n-th row are those behind it.
  listing_next :
      (cursor : Option ℕ) (n : ℕ) (r : A) (rows : List A)
      → HasUniqueKeys key rows
      → get_elem? (listing key p cursor rows) n ≡ some r
      → listing key p (some (key r)) rows ≡ drop (suc n) (listing key p cursor rows)
  listing_next cursor n r rows u e =
      ap (sort_desc key) (sym (filter_twice cursor (key r) (passes_cursor cursor n r rows e) rows))
      ∙ sym (filter_by-sort_desc key (λ x. ltb (key x) (key r)) _)
      ∙ filter_by-eq-drop key n r (listing key p cursor rows)
          (sort_desc-IsStrict key _ (filter_by-HasUniqueKeys key _ rows u)) e

  page_last :
      (limit : ℕ) (xs : List A)
      → length xs ≤ limit
      → page key limit (take (limit + 1) xs) ≡ record { rows = xs; next_cursor = none }
  unfolding page
  page_last limit xs h = ground (arith, take_all (limit + 1) xs)

  page_more :
      (n : ℕ) (r : A) (xs : List A)
      → suc n < length xs
      → get_elem? xs n ≡ some r
      → page key (suc n) (take (suc n + 1) xs)
        ≡ record { rows = take (suc n) xs; next_cursor = some (key r) }
  unfolding page
  page_more n r xs h e =
      let m : ℕ = suc (suc n) in
      let width : suc n + 1 ≡ m = omega arith in
      let full : length (take m xs) ≡ m = omega (arith, length-take m xs) in
      let last : m - 2 ≡ n = omega arith in
      rw width (
        rw full (
          rw (==_refl m) (
            rw last
              (rw (take-take (suc n) xs) (rw (get_elem?-take n m xs (omega arith)) (rw e refl))))))

  -- Following the cursors from any one gives every row behind it that passes the condition, each
  -- once and in order, if there are at least as many pages as rows.
  pub walk-eq-listing :
      (fuel limit : ℕ) (cursor : Option ℕ) (rows : List A)
      → HasUniqueKeys key rows
      → 1 ≤ limit
      → length (listing key p cursor rows) < fuel
      → walk fuel limit cursor rows ≡ listing key p cursor rows
  unfolding walk
  walk-eq-listing zero limit cursor rows u one h = absurd (omega arith)
  walk-eq-listing (suc fuel) zero cursor rows u one h = absurd (omega arith)
  walk-eq-listing (suc fuel) (suc n) cursor rows u one h =
      let xs = listing key p cursor rows in
      elim (Bool-cases (ltb (suc n) (length xs))) [
        | inr few ↦ rw (page_last (suc n) xs (ground arith)) (append-nil xs)
        | inl many ↦
            let long : suc n < length xs = ground arith in
            let (r, e) = get_elem?_in n xs (omega arith) in
            let next = listing_next cursor n r rows u e in
            let fewer : length (listing key p (some (key r)) rows) < fuel =
              rw next (omega (arith, length-drop (suc n) xs)) in
            rw (page_more n r xs long e) (
              rw (walk-eq-listing fuel (suc n) (some (key r)) rows u (omega arith) fewer)
                (rw next (take-append-drop (suc n) xs)))
      ]

  -- As many pages as the table has rows, and one more, are enough.
  pub walk-eq-listing_all :
      (limit : ℕ) (cursor : Option ℕ) (rows : List A)
      → HasUniqueKeys key rows
      → 1 ≤ limit
      → walk (suc (length rows)) limit cursor rows ≡ listing key p cursor rows
  walk-eq-listing_all limit cursor rows u one =
      walk-eq-listing (suc (length rows)) limit cursor rows u one (
        rw (length-sort_desc key (filter_by (λ r. p r && before cursor (key r)) rows))
          (omega (arith, length-filter_by key (λ r. p r && before cursor (key r)) rows)))
