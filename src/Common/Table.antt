-- ===== src/Common/Table.antt =====
-- Tables as lists of rows, with the statements that the services issue: SELECT … WHERE,
-- UPDATE … SET … WHERE … RETURNING and INSERT. A table whose primary key is a number is read
-- through `find`.
use payments_processor.Common.Tests.{◌==◌, if◌then◌else◌, Bool-cases, Option-cases}
use payments_processor.Common.Lists.{filter_by}
use Prim.Native.Nat.{ℕ}
use mathlib.Core.Path.{◌≡◌, refl, ap, ◌∙◌}
use mathlib.Core.Logic.{inl, inr}
use mathlib.Core.Bool.{Bool, true, ◌&&◌}
use mathlib.Core.Option.{Option, none, some}
use mathlib.Core.List.{List, [], ◌∷◌, ◌++◌, map}
use native.Mathlib.Omega.{arith}

module _ {ℓ} {A : Type ℓ} where
  -- UPDATE … SET f WHERE p
  abbrev pub update_where : (A → Bool) → (A → A) → List A → List A
  update_where p f [] = []
  update_where p f (r ∷ rs) = (if p r then f r else r) ∷ update_where p f rs

  -- … RETURNING *
  abbrev pub returning : (A → Bool) → (A → A) → List A → List A
  returning p f rs = map f (filter_by p rs)

  -- `const [row] = …`
  abbrev pub first : List A → Option A
  first [] = none
  first (r ∷ rs) = some r

module _ {ℓ} {A : Type ℓ} (key : A → ℕ) where
  -- The row with a given primary key.
  abbrev pub find : ℕ → List A → Option A
  find k [] = none
  find k (r ∷ rs) = if key r == k then some r else find k rs

  -- No two rows share a primary key.
  abbrev pub HasUniqueKeys : List A → Type ℓ
  HasUniqueKeys [] = Unit
  HasUniqueKeys (r ∷ rs) = (find (key r) rs ≡ none) × HasUniqueKeys rs

  -- What `f` makes of a row that satisfies `q`, and the row itself otherwise.
  abbrev pub changed : (A → Bool) → (A → A) → Option A → Option A
  changed q f none = none
  changed q f (some r) = some (if q r then f r else r)

  pub find-append : (k : ℕ) (xs ys : List A) → find k xs ≡ none → find k (xs ++ ys) ≡ find k ys
  find-append k [] ys h = refl
  find-append k (x ∷ xs) ys h = ground (arith, find-append k xs ys)

  pub find-append_some :
      (k : ℕ) (r : A) (xs ys : List A) → find k xs ≡ some r → find k (xs ++ ys) ≡ some r
  find-append_some k r [] ys h = ground arith
  find-append_some k r (x ∷ xs) ys h = ground (arith, find-append_some k r xs ys)

  -- A row with a new key, read at any key.
  pub find-append_new :
      (j : ℕ) (r : A) (xs : List A)
      → find (key r) xs ≡ none
      → find j (xs ++ r ∷ []) ≡ (if key r == j then some r else find j xs)
  find-append_new j r [] h = refl
  find-append_new j r (x ∷ xs) h = ground (arith, find-append_new j r xs)

  pub key-find : (k : ℕ) (r : A) (xs : List A) → find k xs ≡ some r → key r ≡ k
  key-find k r [] h = ground arith
  key-find k r (x ∷ xs) h = ground (arith, key-find k r xs)

  -- An update WHERE key = k AND q, read at any key.
  pub find-update_where :
      (k j : ℕ) (q : A → Bool) (f : A → A)
      → ((r : A) → key (f r) ≡ key r)
      → (xs : List A)
      → find j (update_where (λ r. key r == k && q r) f xs)
        ≡ (if k == j then changed q f (find j xs) else find j xs)
  find-update_where k j q f keep [] = ground arith
  find-update_where k j q f keep (x ∷ xs) =
      ground (arith, keep x, find-update_where k j q f keep xs)

  -- An update by any condition, read at a key.
  pub find-update_where_any :
      (j : ℕ) (p : A → Bool) (f : A → A)
      → ((r : A) → key (f r) ≡ key r)
      → (xs : List A) → find j (update_where p f xs) ≡ changed p f (find j xs)
  find-update_where_any j p f keep [] = refl
  find-update_where_any j p f keep (x ∷ xs) =
      ground (arith, keep x, find-update_where_any j p f keep xs)

  pub changed-eq-none : (p : A → Bool) (f : A → A) (o : Option A) → o ≡ none → changed p f o ≡ none
  changed-eq-none p f o h = rw h

  pub update_where-HasUniqueKeys :
      (p : A → Bool) (f : A → A)
      → ((r : A) → key (f r) ≡ key r)
      → (xs : List A) → HasUniqueKeys xs
      → HasUniqueKeys (update_where p f xs)
  update_where-HasUniqueKeys p f keep [] h = tt
  update_where-HasUniqueKeys p f keep (x ∷ xs) (fresh, h) = (
    ground (arith, keep x, find-update_where_any (key x) p f keep xs),
    update_where-HasUniqueKeys p f keep xs h,
  )

  pub append-HasUniqueKeys :
      (xs : List A) (r : A)
      → find (key r) xs ≡ none
      → HasUniqueKeys xs
      → HasUniqueKeys (xs ++ r ∷ [])
  append-HasUniqueKeys [] r fresh h = (refl, tt)
  append-HasUniqueKeys (x ∷ xs) r fresh (new, h) = (
    ground (arith, find-append (key x) xs (r ∷ []) new),
    append-HasUniqueKeys xs r (ground arith) h,
  )

  -- What an update WHERE key = k AND q returns.
  abbrev pub returned : (A → Bool) → (A → A) → Option A → List A
  returned q f none = []
  returned q f (some r) = if q r then f r ∷ [] else []

  filter_by-absent :
      (k : ℕ) (q : A → Bool) (xs : List A)
      → find k xs ≡ none
      → filter_by (λ r. key r == k && q r) xs ≡ []
  filter_by-absent k q [] h = refl
  filter_by-absent k q (x ∷ xs) h = ground (arith, filter_by-absent k q xs)

  pub returning-eq-returned :
      (k : ℕ) (q : A → Bool) (f : A → A) (xs : List A)
      → HasUniqueKeys xs
      → returning (λ r. key r == k && q r) f xs ≡ returned q f (find k xs)
  returning-eq-returned k q f [] h = refl
  returning-eq-returned k q f (x ∷ xs) (fresh, h) =
      ground (arith, filter_by-absent k q xs, returning-eq-returned k q f xs h)

  update_where-absent :
      (p : A → Bool) (f : A → A) (xs : List A) → filter_by p xs ≡ [] → update_where p f xs ≡ xs
  update_where-absent p f [] h = refl
  update_where-absent p f (x ∷ xs) h = elim (Bool-cases (p x)) [
    | inl hit ↦ ground arith
    | inr miss ↦ rw miss (ap (λ r. x ∷ r) (update_where-absent p f xs (ground arith)))
  ]

  -- What an update WHERE key = k AND q does to a table: nothing, or it changes one row.
  pub data Affected (k : ℕ) (q : A → Bool) (f : A → A) (xs : List A) : Type ℓ where
    no_row :
        returning (λ r. key r == k && q r) f xs ≡ []
        → update_where (λ r. key r == k && q r) f xs ≡ xs
        → Affected k q f xs
    one_row :
        (r : A)
        → find k xs ≡ some r
        → q r ≡ true
        → returning (λ r. key r == k && q r) f xs ≡ f r ∷ []
        → Affected k q f xs

  unaffected :
      (k : ℕ) (q : A → Bool) (f : A → A) (xs : List A)
      → filter_by (λ r. key r == k && q r) xs ≡ []
      → Affected k q f xs
  unaffected k q f xs h = no_row (ap (map f) h) (update_where-absent _ f xs h)

  map-eq-nil : (f : A → A) (xs : List A) → map f xs ≡ [] → xs ≡ []
  map-eq-nil f [] h = refl
  map-eq-nil f (x ∷ xs) h = cc

  pub affected :
      (k : ℕ) (q : A → Bool) (f : A → A) (xs : List A) → HasUniqueKeys xs → Affected k q f xs
  affected k q f xs h = elim (Option-cases (find k xs)) [
    | inl missing ↦ unaffected k q f xs (filter_by-absent k q xs missing)
    | inr (r, found) ↦ elim (Bool-cases (q r)) [
      | inl hit ↦ one_row r found hit (returning-eq-returned k q f xs h ∙ rw found (rw hit))
      | inr miss ↦
          unaffected k q f xs
            (map-eq-nil f _ (returning-eq-returned k q f xs h ∙ rw found (rw miss)))
    ]
  ]
