-- ===== src/Console/Polling.antt =====
-- The hook `usePolling` of apps/web/src/lib/usePolling.ts in a component that renders, while the tab
-- is shown and hidden and time passes. A function is named by a number; a call of it is a trace.
pub mod Laws
use payments_processor.Common.{
  ℕ, Bool, true, false, not, ◌&&◌, ◌||◌, Option, none, some, List, [], ◌∷◌, ◌==◌, if◌then◌else◌,
  map,
}

-- What one run of the second effect has made: its flag, its interval and its listener.
pub record Subscription : Type 0 where
  pub cancelled : Bool
  pub has_interval : Bool
  pub has_listener : Bool

pub record Hook : Type 0 where
  pub saved : ℕ
  pub deps : Option (ℕ × Bool)
  pub subscriptions : List Subscription
  pub is_visible : Bool
  pub calls : List ℕ

-- A component before its first render, in a tab that is shown or hidden.
abbrev pub before_mount : Bool → Hook
before_mount is_visible = record {
  saved = 0;
  deps = none;
  subscriptions = [];
  is_visible = is_visible;
  calls = [];
}

pub data Event : Type 0 where
  render : (fn interval_ms : ℕ) → (enabled : Bool) → Event
  unmount interval : Event
  visibility : (is_visible : Bool) → Event

-- `run` of one subscription.
abbrev run_in : Subscription → Hook → Hook
run_in sub s =
    if not sub.cancelled && s.is_visible then record s { calls = s.saved ∷ s.calls } else s

-- The intervals that are due, and the listeners.
unfoldable pub fire : List Subscription → Hook → Hook
fire [] s = s
fire (sub ∷ subs) s = fire subs (if sub.has_interval then run_in sub s else s)

unfoldable pub notify : List Subscription → Hook → Hook
notify [] s = s
notify (sub ∷ subs) s = notify subs (if sub.has_listener then run_in sub s else s)

abbrev pub subscribed : Subscription
subscribed = record { cancelled = false; has_interval = true; has_listener = true }

-- The function that the second effect returns, where it returned one.
abbrev pub cancel : Subscription → Subscription
cancel sub = record { cancelled = true; has_interval = false; has_listener = false }

abbrev pub cleanup : Hook → Hook
cleanup s = record s { subscriptions = map cancel s.subscriptions }

abbrev setup : Bool → Hook → Hook
setup enabled s =
    let ran = run_in subscribed s in
    if enabled then record ran { subscriptions = subscribed ∷ ran.subscriptions } else s

-- Object.is on the two dependencies.
abbrev pub same_deps : Option (ℕ × Bool) → ℕ → Bool → Bool
same_deps none interval_ms enabled = false
same_deps (some (i, e)) interval_ms enabled =
    i == interval_ms && (e && enabled || not e && not enabled)

-- After a render the first effect saves the function, and the second is undone and done again if
-- its dependencies are others.
unfoldable pub rendered : ℕ → ℕ → Bool → Hook → Hook
rendered fn interval_ms enabled s =
    let kept = record s { saved = fn } in
    let again = setup enabled (record (cleanup kept) { deps = some (interval_ms, enabled) }) in
    if same_deps s.deps interval_ms enabled then kept else again

unfoldable pub handle : Event → Hook → Hook
unfolding rendered fire notify
handle (render fn interval_ms enabled) s = rendered fn interval_ms enabled s
handle unmount s = record (cleanup s) { deps = none }
handle interval s = fire s.subscriptions s
handle (visibility is_visible) s = notify s.subscriptions (record s { is_visible = is_visible })

unfoldable pub handle_all : List Event → Hook → Hook
handle_all [] s = s
handle_all (e ∷ es) s = handle_all es (handle e s)
