-- ===== src/Console/Chaos/Laws.antt =====
-- What the page of apps/web/src/app/chaos/page.tsx keeps, and how what it applies reaches the bank.
use payments_processor.Common.{
  ℕ, ◌≡◌, ◌≤◌, ◌⊎◌, inl, inr, Bool-cases, Option, Option-cases, refl, true, false, none, some, List,
  [], ◌∷◌, arith, ◌∙◌,
}
use payments_processor.Bank.ConfigSync.Laws.{get-update, IsOlder, update-tick}
use payments_processor.Bank.ConfigSync.{get, update, is_in_limits, patched, BankConfigSync, tick}
use payments_processor.Console.Chaos.{
  ChaosPage, refresh, Edit, edit, apply, begin_apply, end_apply, patch_of, mode_eq, differs, dirty,
}
use payments_processor.Console.Client.{Message, said, Called, returns, throws}
use payments_processor.Database.{
  BankMode, BankConfig, Db, always_authorize, always_decline, always_error, fail_n_then_authorize,
}

-- What happens to the page between two clicks on the button.
pub data Event : Type 0 where
  polled : Called BankConfig → Event
  edited : Edit → Event

pub happens : Event → ChaosPage → ChaosPage
happens (polled answer) s = refresh answer s
happens (edited e) s = edit e s

pub run : List Event → ChaosPage → ChaosPage
run [] s = s
run (e ∷ es) s = run es (happens e s)

-- The edits alone.
pub edits_of : List Event → List Event
edits_of [] = []
edits_of (polled answer ∷ es) = edits_of es
edits_of (edited e ∷ es) = edited e ∷ edits_of es

-- The inputs of two states of the page agree.
abbrev SameForm : ChaosPage → ChaosPage → Type 0
SameForm s t = (s.mode ≡ t.mode) × (s.latency_ms ≡ t.latency_ms) × (s.fail_n ≡ t.fail_n)

happens_polled :
    (answer : Called BankConfig) (s : ChaosPage)
    → s.initialized ≡ true
    → ((refresh answer s).initialized ≡ true) × SameForm (refresh answer s) s
unfolding refresh
happens_polled (returns c) s h = rw h (refl, (refl, refl, refl))
happens_polled (throws message) s h = (h, (refl, refl, refl))

edit-SameForm : (e : Edit) (s t : ChaosPage) → SameForm s t → SameForm (edit e s) (edit e t)
edit-SameForm (Edit.set_mode m) s t (a, b, c) = (refl, b, c)
edit-SameForm (Edit.set_latency_ms n) s t (a, b, c) = (a, refl, c)
edit-SameForm (Edit.set_fail_n n) s t (a, b, c) = (a, b, refl)

edit-initialized : (e : Edit) (s : ChaosPage) → (edit e s).initialized ≡ s.initialized
edit-initialized (Edit.set_mode m) s = refl
edit-initialized (Edit.set_latency_ms n) s = refl
edit-initialized (Edit.set_fail_n n) s = refl

run-SameForm :
    (es : List Event) (s t : ChaosPage)
    → s.initialized ≡ true
    → SameForm s t
    → SameForm (run es s) (run (edits_of es) t)
unfolding run edits_of happens
run-SameForm [] s t h same = same
run-SameForm (polled answer ∷ es) s t h (a, b, c) =
    let (still, (x, y, z)) = happens_polled answer s h in
    run-SameForm es (refresh answer s) t still (x ∙ a, y ∙ b, z ∙ c)
run-SameForm (edited e ∷ es) s t h same =
    run-SameForm es (edit e s) (edit e t) (edit-initialized e s ∙ h) (edit-SameForm e s t same)

-- Once the form has been filled in, polls never touch it, whether they succeed or fail: after any
-- sequence of polls and edits its inputs are what the edits alone make of them.
pub run-edits_of :
    (es : List Event) (s : ChaosPage)
    → s.initialized ≡ true
    → SameForm (run es s) (run (edits_of es) s)
run-edits_of es s h = run-SameForm es s s h (refl, refl, refl)

mode_eq_refl : (m : BankMode) → mode_eq m m ≡ true
mode_eq_refl always_authorize = refl
mode_eq_refl always_decline = refl
mode_eq_refl always_error = refl
mode_eq_refl fail_n_then_authorize = refl

end_apply-dirty :
    (now : ℕ) (s : ChaosPage) (row : BankConfig)
    → dirty (end_apply (returns (patched now (patch_of s) row)) (begin_apply s)) ≡ false
unfolding dirty end_apply begin_apply
end_apply-dirty now s row = ground (arith, mode_eq_refl s.mode)

-- What a click leaves behind where the API takes the form's numbers, and where it does not.
abbrev pub Applied : (now : ℕ) → ChaosPage → BankConfig → Db → BankConfigSync → Type 0
Applied now s row db sync =
    (dirty (apply now s db).0 ≡ false)
    × (get (apply now s db).1 ≡ some (patched now (patch_of s) row))
    × ((tick (apply now s db).1 sync).bank.mode ≡ s.mode)
    × ((tick (apply now s db).1 sync).bank.latency_ms ≡ s.latency_ms)
    × ((tick (apply now s db).1 sync).bank.fail_n ≡ s.fail_n)

abbrev pub Refused : (now : ℕ) → ChaosPage → Db → Type 0
Refused now s db =
    (dirty (apply now s db).0 ≡ dirty s)
    × ((apply now s db).0.error ≡ some (said "Validation Error"))
    × ((apply now s db).1 ≡ db)

apply-Applied :
    (now : ℕ) (s : ChaosPage) (row : BankConfig) (db : Db) (sync : BankConfigSync)
    → is_in_limits (patch_of s) ≡ true
    → get db ≡ some row
    → IsOlder sync.last_applied_at now
    → Applied now s row db sync
unfolding apply
apply-Applied now s row db sync ok h older =
    let (answer, read) = get-update now (patch_of s) row db h in
    let (follows, _) = update-tick now (patch_of s) row db sync h older in
    rw (ok, answer) (end_apply-dirty now s row, read, follows.0, follows.2, follows.1)

differs_failed :
    (c : Option BankConfig) (m : Option Message) (s : ChaosPage)
    → differs c (record s { error = m; applying = false }) ≡ differs c s
differs_failed none m s = refl
differs_failed (some row) m s = refl

apply-Refused :
    (now : ℕ) (s : ChaosPage) (db : Db) → is_in_limits (patch_of s) ≡ false → Refused now s db
unfolding apply end_apply begin_apply dirty
apply-Refused now s db no_way =
    rw no_way (differs_failed s.config (some (said "Validation Error")) s, refl, refl)

apply-SameForm : (now : ℕ) (s : ChaosPage) (db : Db) → SameForm (apply now s db).0 s
unfolding apply end_apply begin_apply
apply-SameForm now s db = elim (Bool-cases (is_in_limits (patch_of s))) [
  | inr no_way ↦ rw no_way (refl, refl, refl)
  | inl ok ↦ elim (Option-cases (update now (patch_of s) db).0) [
    | inl missing ↦ rw (ok, missing) (refl, refl, refl)
    | inr (row, there) ↦ rw (ok, there) (refl, refl, refl)
  ]
]

abbrev pub IsAcceptable : ChaosPage → Type 0
IsAcceptable s = (s.latency_ms ≤ 30000) × (s.fail_n ≤ 100)

-- When the table has its row and a change at this time is newer than what the worker has applied, a
-- click on the button leaves the form as it was. Where the latency is at most 30000 and the failures
-- at most 100, it leaves no unsaved changes, the row that is read after it has the form's mode,
-- latency and failures, and one poll of the worker makes its bank follow them. Otherwise the page
-- tells of an error, has the unsaved changes that it had, and the tables are as before.
pub apply-tick :
    (now : ℕ) (s : ChaosPage) (row : BankConfig) (db : Db) (sync : BankConfigSync)
    → get db ≡ some row
    → IsOlder sync.last_applied_at now
    → SameForm (apply now s db).0 s
      × ((IsAcceptable s × Applied now s row db sync) ⊎ (¬ IsAcceptable s × Refused now s db))
apply-tick now s row db sync h older = (
  apply-SameForm now s db,
  elim (Bool-cases (is_in_limits (patch_of s))) [
    | inl ok ↦ inl ((ground arith, ground arith), apply-Applied now s row db sync ok h older)
    | inr no_way ↦ inr ((λ may. ground (arith, may)), apply-Refused now s db no_way)
  ],
)
