-- ===== src/Console/Polling/Laws.antt =====
-- When `usePolling` of apps/web/src/lib/usePolling.ts calls its function.
use payments_processor.Common.{
  ℕ, ◌≡◌, refl, ◌∙◌, ap, arith, inl, inr, Bool-cases, Bool, true, false, not, ◌&&◌, Option, none,
  some, List, [], ◌∷◌, if◌then◌else◌, map, All,
}
use payments_processor.Console.Polling.{
  Subscription, Hook, before_mount, Event, render, unmount, interval, visibility, fire, notify,
  subscribed, cancel, same_deps, rendered, handle, handle_all,
}

-- The hook as its comment has it: a mounted component that is enabled polls while the tab is shown.
pub record Watch : Type 0 where
  pub fn : ℕ
  pub deps : Option (ℕ × Bool)
  pub is_visible : Bool

abbrev is_enabled : Option (ℕ × Bool) → Bool
is_enabled none = false
is_enabled (some (i, e)) = e

-- Whether an event makes a call.
pub calls_on : Event → Watch → Bool
calls_on (render fn interval_ms enabled) w =
    not (same_deps w.deps interval_ms enabled) && enabled && w.is_visible
calls_on unmount w = false
calls_on interval w = is_enabled w.deps && w.is_visible
calls_on (visibility is_visible) w = is_enabled w.deps && is_visible

pub watch : Event → Watch → Watch
watch (render fn interval_ms enabled) w = record w { fn = fn; deps = some (interval_ms, enabled) }
watch unmount w = record w { deps = none }
watch interval w = w
watch (visibility is_visible) w = record w { is_visible = is_visible }

-- The calls that a sequence of events adds, the last one first: each is of the function of the
-- last render.
pub expected : List Event → Watch → List ℕ → List ℕ
expected [] w calls = calls
expected (e ∷ es) w calls =
    let after = watch e w in expected es after (if calls_on e w then after.fn ∷ calls else calls)

abbrev IsCancelled : Subscription → Type 0
IsCancelled sub = sub ≡ cancel sub

-- The hook that is watched: it has a subscription when it is enabled, and beside it old ones.
abbrev hook_of : Watch → List Subscription → List ℕ → Hook
hook_of w old calls = record {
  saved = w.fn;
  deps = w.deps;
  subscriptions = if is_enabled w.deps then subscribed ∷ old else old;
  is_visible = w.is_visible;
  calls = calls;
}

fire_old : (subs : List Subscription) (s : Hook) → All IsCancelled subs → fire subs s ≡ s
unfolding fire
fire_old [] s h = refl
fire_old (sub ∷ subs) s h = rw h.0 (fire_old subs s h.1)

notify_old : (subs : List Subscription) (s : Hook) → All IsCancelled subs → notify subs s ≡ s
unfolding notify
notify_old [] s h = refl
notify_old (sub ∷ subs) s h = rw h.0 (notify_old subs s h.1)

map-cancel : (subs : List Subscription) → All IsCancelled (map cancel subs)
map-cancel [] = tt
map-cancel (sub ∷ subs) = (refl, map-cancel subs)

record Handles (e : Event) (w : Watch) (old : List Subscription) (calls : List ℕ) : Type 0 where
  left : List Subscription
  all_old : All IsCancelled left
  handles :
      handle e (hook_of w old calls)
      ≡ hook_of (watch e w) left (if calls_on e w then (watch e w).fn ∷ calls else calls)

same_deps_sound :
    (deps : Option (ℕ × Bool)) (i : ℕ) (e : Bool) → same_deps deps i e ≡ true → deps ≡ some (i, e)
same_deps_sound none i e h = absurd (ground arith)
same_deps_sound (some (j, true)) i true h = let eq : j ≡ i = ground arith in rw eq
same_deps_sound (some (j, false)) i false h = let eq : j ≡ i = ground arith in rw eq
same_deps_sound (some (j, true)) i false h = absurd (ground arith)
same_deps_sound (some (j, false)) i true h = absurd (ground arith)

record_same :
    (fn i : ℕ) (e : Bool) (w : Watch) (old : List Subscription) (calls : List ℕ)
    → w.deps ≡ some (i, e)
    → record (hook_of w old calls) { saved = fn }
      ≡ hook_of (record w { fn = fn; deps = some (i, e) }) old calls
record_same fn i e w old calls h = rw h

rendered_changed :
    (fn i : ℕ) (e : Bool) (w : Watch) (old : List Subscription) (calls : List ℕ)
    → same_deps w.deps i e ≡ false
    → rendered fn i e (hook_of w old calls)
      ≡ hook_of
          (record w { fn = fn; deps = some (i, e) })
          (map cancel (if is_enabled w.deps then subscribed ∷ old else old))
          (if e && w.is_visible then fn ∷ calls else calls)
unfolding rendered
rendered_changed fn i true w old calls h = elim (Bool-cases w.is_visible) [
  | inl shown ↦ rw (h, shown)
  | inr hidden ↦ rw (h, hidden)
]
rendered_changed fn i false w old calls h = rw h

fire_hook :
    (w : Watch) (old : List Subscription) (calls : List ℕ)
    → All IsCancelled old
    → fire (hook_of w old calls).subscriptions (hook_of w old calls)
      ≡ hook_of w old (if is_enabled w.deps && w.is_visible then w.fn ∷ calls else calls)
unfolding fire
fire_hook w old calls h = elim (Bool-cases (is_enabled w.deps)) [
  | inl on ↦ elim (Bool-cases w.is_visible) [
    | inl shown ↦ rw (on, shown) (fire_old old _ h)
    | inr hidden ↦ rw (on, hidden) (fire_old old _ h)
  ]
  | inr off ↦ rw off (fire_old old _ h)
]

notify_hook :
    (w : Watch) (old : List Subscription) (calls : List ℕ)
    → All IsCancelled old
    → notify (hook_of w old calls).subscriptions (hook_of w old calls)
      ≡ hook_of w old (if is_enabled w.deps && w.is_visible then w.fn ∷ calls else calls)
unfolding notify
notify_hook w old calls h = elim (Bool-cases (is_enabled w.deps)) [
  | inl on ↦ elim (Bool-cases w.is_visible) [
    | inl shown ↦ rw (on, shown) (notify_old old _ h)
    | inr hidden ↦ rw (on, hidden) (notify_old old _ h)
  ]
  | inr off ↦ rw off (notify_old old _ h)
]

handle-Handles :
    (e : Event) (w : Watch) (old : List Subscription) (calls : List ℕ)
    → All IsCancelled old
    → Handles e w old calls
unfolding handle watch calls_on
handle-Handles (render fn interval_ms enabled) w old calls h =
    elim (Bool-cases (same_deps w.deps interval_ms enabled)) [
      | inl same ↦ record {
        left = old;
        all_old = h;
        handles =
            unfold rendered in
            rw same (
              record_same fn interval_ms enabled w old calls
                (same_deps_sound w.deps interval_ms enabled same));
      }
      | inr changed ↦ record {
        left = map cancel (if is_enabled w.deps then subscribed ∷ old else old);
        all_old = map-cancel (if is_enabled w.deps then subscribed ∷ old else old);
        handles = rendered_changed fn interval_ms enabled w old calls changed ∙ rw changed;
      }
    ]
handle-Handles unmount w old calls h = record {
  left = map cancel (if is_enabled w.deps then subscribed ∷ old else old);
  all_old = map-cancel (if is_enabled w.deps then subscribed ∷ old else old);
  handles = refl;
}
handle-Handles interval w old calls h = record {
  left = old;
  all_old = h;
  handles = fire_hook w old calls h;
}
handle-Handles (visibility is_visible) w old calls h = record {
  left = old;
  all_old = h;
  handles = notify_hook (record w { is_visible = is_visible }) old calls h;
}

handle_all-expected :
    (es : List Event) (w : Watch) (old : List Subscription) (calls : List ℕ)
    → All IsCancelled old
    → (handle_all es (hook_of w old calls)).calls ≡ expected es w calls
unfolding handle_all expected
handle_all-expected [] w old calls h = refl
handle_all-expected (e ∷ es) w old calls h =
    let step = handle-Handles e w old calls h in
    ap (λ s. (handle_all es s).calls) step.handles
    ∙ handle_all-expected es (watch e w) step.left _ step.all_old

-- Through any renders, due intervals, changes of the tab's visibility and unmounts, the hook calls
-- exactly when its comment says: at once when it is mounted or its dependencies change, at each
-- interval, and when the tab is shown, but only while it is enabled, mounted and shown; and it
-- calls the function of the last render, once.
pub handle_all_calls :
    (es : List Event) (is_visible : Bool)
    → (handle_all es (before_mount is_visible)).calls
      ≡ expected es (record { fn = 0; deps = none; is_visible = is_visible }) []
handle_all_calls es is_visible =
    handle_all-expected es (record { fn = 0; deps = none; is_visible = is_visible }) [] [] tt
