-- ===== src/Schedule/Laws.antt =====
-- The loops of polls of apps/api/src: they outlive errors, run one poll at a time, and stop at a shutdown
-- between two polls.
use mathlib.Core.Path.{subst}
use payments_processor.Common.{
  ℕ, ◌≡◌, ◌⊎◌, ◌∙◌, refl, sym, ap, arith, inl, inr, Bool-cases, true, false, Option, none, some,
  List, [], ◌∷◌, ◌==◌, mem, All,
}
use payments_processor.Schedule.{
  Outcome, Service, Event, fires, ends, shuts_down, clear_timeout, on_application_shutdown, caught,
  end_tick, begin_tick, handle, handle_all,
}

-- Between two polls: the one timer that is set is that in `timer`.
abbrev pub IsWaiting {ℓ} : {S : Type ℓ} → Service S → Type 0
IsWaiting s = (t : ℕ) × ((s.timer ≡ some t) × ((s.pending ≡ t ∷ []) × (s.ticks ≡ 0)))

-- In a poll: no timer is set.
abbrev pub IsTicking {ℓ} : {S : Type ℓ} → Service S → Type 0
IsTicking s = (s.pending ≡ []) × (s.ticks ≡ 1)

abbrev pub IsAlive {ℓ} : {S : Type ℓ} → Service S → Type 0
IsAlive s = IsWaiting s ⊎ IsTicking s

abbrev pub GoesOn {κ} : {I : Type κ} → Event I → Type 0
GoesOn (fires t) = Unit
GoesOn (ends i) = Unit
GoesOn shuts_down = ⊥

abbrev pub inputs_of {κ} : {I : Type κ} → List (Event I) → List I
inputs_of [] = []
inputs_of (fires t ∷ es) = inputs_of es
inputs_of (ends i ∷ es) = i ∷ inputs_of es
inputs_of (shuts_down ∷ es) = inputs_of es

end_tick-IsAlive {ℓ} :
    {S : Type ℓ} → (o : Outcome S) (s : Service S) → IsTicking s → IsAlive (end_tick o s)
end_tick-IsAlive o s (quiet, one) = inl (s.next_timer, (refl, (rw quiet, rw one)))

begin_tick-IsTicking {ℓ} :
    {S : Type ℓ}
    → (t : ℕ) (s : Service S) → s.pending ≡ t ∷ []
    → s.ticks ≡ 0
    → IsTicking (begin_tick t s)
begin_tick-IsTicking t s one idle = (rw one (ground arith), rw idle)

clear_timeout-nil : (t : Option ℕ) → clear_timeout t [] ≡ []
clear_timeout-nil none = refl
clear_timeout-nil (some t) = refl

module _ {ℓ κ} {S : Type ℓ} {I : Type κ} (once : I → S → Outcome S) where
  -- The polls, one after the other.
  abbrev pub ran : List I → S → S
  ran [] start = start
  ran (i ∷ is) start = ran is (caught (once i start))

  begins :
      (t : ℕ) (s : Service S) → s.pending ≡ t ∷ [] → handle once (fires t) s ≡ some (begin_tick t s)
  unfolding handle
  begins t s one = let set : mem s.pending t ≡ true = rw one (ground arith) in rw set

  fires_once :
      (t : ℕ) (s s' : Service S)
      → handle once (fires t) s ≡ some s'
      → (mem s.pending t ≡ true) × (begin_tick t s ≡ s')
  unfolding handle
  fires_once t s s' h = elim (Bool-cases (mem s.pending t)) [
    | inl set ↦ let h' : some (begin_tick t s) ≡ some s' = rw set at h in (set, cc)
    | inr unset ↦ let h' : none ≡ some s' = rw unset at h in absurd (cc)
  ]

  ends_once :
      (i : I) (s s' : Service S)
      → handle once (ends i) s ≡ some s'
      → ((s.ticks == 0) ≡ false) × (end_tick (once i s.state) s ≡ s')
  unfolding handle
  ends_once i s s' h = elim (Bool-cases (s.ticks == 0)) [
    | inl idle ↦ let h' : none ≡ some s' = rw idle at h in absurd (cc)
    | inr busy ↦ let h' : some (end_tick (once i s.state) s) ≡ some s' = rw busy at h in (busy, cc)
  ]

  fires-IsAlive :
      (t : ℕ) (s : Service S) → IsAlive s → mem s.pending t ≡ true → IsAlive (begin_tick t s)
  fires-IsAlive t s (inl (t0, (timer, (one, idle)))) set =
      let set' : mem (t0 ∷ []) t ≡ true = rw one at set in
      let same : t0 ≡ t = ground arith in
      inr (begin_tick-IsTicking t s (one ∙ ap (λ x. x ∷ []) same) idle)
  fires-IsAlive t s (inr (quiet, one)) set =
      let set' : mem [] t ≡ true = rw quiet at set in absurd (ground arith)

  ends-IsAlive :
      (o : Outcome S) (s : Service S) → IsAlive s → (s.ticks == 0) ≡ false → IsAlive (end_tick o s)
  ends-IsAlive o s (inl (t0, (timer, (one, idle)))) busy = absurd (ground arith)
  ends-IsAlive o s (inr ticking) busy = end_tick-IsAlive o s ticking

  -- What an event does to a service that is alive.
  handle-IsAlive :
      (e : Event I) (s s' : Service S)
      → IsAlive s
      → GoesOn e
      → handle once e s ≡ some s'
      → IsAlive s' × (s'.state ≡ ran (inputs_of (e ∷ [])) s.state)
  handle-IsAlive (fires t) s s' alive on h =
      let (set, is) = fires_once t s s' h in
      (subst IsAlive is (fires-IsAlive t s alive set), sym (ap (λ x. x.state) is))
  handle-IsAlive (ends i) s s' alive on h =
      let (busy, is) = ends_once i s s' h in
      (subst IsAlive is (ends-IsAlive (once i s.state) s alive busy), sym (ap (λ x. x.state) is))
  handle-IsAlive shuts_down s s' alive on h = absurd on

  ends_ticking :
      (i : I) (s : Service S)
      → IsTicking s
      → handle once (ends i) s ≡ some (end_tick (once i s.state) s)
  unfolding handle
  ends_ticking i s (quiet, one) = rw one refl

  handle_all_then :
      (e : Event I) (es : List (Event I)) (s s' : Service S)
      → handle once e s ≡ some s'
      → handle_all once (e ∷ es) s ≡ handle_all once es s'
  unfolding handle_all
  handle_all_then e es s s' h = rw h

  handle_all_first :
      (e : Event I) (es : List (Event I)) (s s' : Service S) (r : Option (Service S))
      → handle once e s ≡ r
      → handle_all once (e ∷ es) s ≡ some s'
      → (middle : Service S) × ((handle once e s ≡ some middle)
          × (handle_all once es middle ≡ some s'))
  unfolding handle_all
  handle_all_first e es s s' none h all = let k : none ≡ some s' = rw h at all in absurd (cc)
  handle_all_first e es s s' (some middle) h all =
      (middle, (h, sym (handle_all_then e es s middle h) ∙ all))

  ran_first :
      (e : Event I) (es : List (Event I)) (start : S)
      → ran (inputs_of (e ∷ es)) start ≡ ran (inputs_of es) (ran (inputs_of (e ∷ [])) start)
  ran_first (fires t) es start = refl
  ran_first (ends i) es start = refl
  ran_first shuts_down es start = refl

  pub run-IsAlive :
      (es : List (Event I)) (s s' : Service S)
      → IsAlive s
      → All GoesOn es
      → handle_all once es s ≡ some s'
      → IsAlive s' × (s'.state ≡ ran (inputs_of es) s.state)
  run-IsAlive [] s s' alive on h =
      let is : s ≡ s' = unfold handle_all in cc in
      (subst IsAlive is alive, sym (ap (λ x. x.state) is))
  run-IsAlive (e ∷ es) s s' alive on h =
      let (middle, (first, rest)) = handle_all_first e es s s' _ refl h in
      let (still, after) = handle-IsAlive e s middle alive on.0 first in
      let (last, all) = run-IsAlive es middle s' still on.1 rest in
      (last, all ∙ (ap (ran (inputs_of es)) after ∙ sym (ran_first e es s.state)))

  -- Events without a shutdown that can happen to a service, with the inputs that their polls read.
  abbrev pub Run : List I → Service S → Type (ℓ ⊔ κ)
  Run is s =
      (es : List (Event I)) × ((s' : Service S) × (All GoesOn es
          × ((inputs_of es ≡ is) × (handle_all once es s ≡ some s'))))

  run_ticking :
      (i : I) (is : List I) (s : Service S)
      → IsTicking s
      → Run is (end_tick (once i s.state) s)
      → Run (i ∷ is) s
  run_ticking i is s ticking (es, (s', (on, (read, all)))) = (
    ends i ∷ es,
    (
      s',
      (
        (tt, on),
        (
          ap (λ l. i ∷ l) read,
          handle_all_then (ends i) es s (end_tick (once i s.state) s) (ends_ticking i s ticking)
              ∙ all,
        ),
      ),
    ),
  )

  run_waiting :
      (t : ℕ) (is : List I) (s : Service S)
      → s.pending ≡ t ∷ []
      → Run is (begin_tick t s)
      → Run is s
  run_waiting t is s one (es, (s', (on, (read, all)))) = (
    fires t ∷ es,
    (
      s',
      ((tt, on), (read, handle_all_then (fires t) es s (begin_tick t s) (begins t s one) ∙ all)),
    ),
  )

  pub runs : (is : List I) (s : Service S) → IsAlive s → Run is s
  runs [] s alive = ([], (s, (tt, (refl, unfold handle_all in refl))))
  runs (i ∷ is) s (inr ticking) =
      run_ticking i is s ticking
        (runs is (end_tick (once i s.state) s) (end_tick-IsAlive (once i s.state) s ticking))
  runs (i ∷ is) s (inl (t, (timer, (one, idle)))) =
      let ticking = begin_tick-IsTicking t s one idle in
      run_waiting t (i ∷ is) s one (
        run_ticking i is (begin_tick t s) ticking
          (runs is _ (end_tick-IsAlive (once i s.state) (begin_tick t s) ticking)))

  -- As long as there is no shutdown, a service that waits or polls goes on, whatever its polls throw:
  -- after any events that can happen to it, it either waits with one timer set or is in one poll;
  -- what its polls work on is what they left behind, one after the other; and whatever inputs are to
  -- be read next, there are events that can happen in which its polls read them.
  pub handle_all-IsAlive :
      (es : List (Event I)) (s s' : Service S)
      → IsAlive s
      → All GoesOn es
      → handle_all once es s ≡ some s'
      → IsAlive s' × ((s'.state ≡ ran (inputs_of es) s.state) × ((is : List I) → Run is s'))
  handle_all-IsAlive es s s' alive on h =
      let (still, after) = run-IsAlive es s s' alive on h in
      (still, (after, λ is. runs is s' still))

  -- No timer fires and no poll ends.
  abbrev pub IsStopped : Service S → Type (ℓ ⊔ κ)
  IsStopped s =
      ((t : ℕ) → handle once (fires t) s ≡ none) × ((i : I) → handle once (ends i) s ≡ none)

  -- The end of the poll leaves a service that waits again.
  abbrev pub IsRearmed : Service S → Type (ℓ ⊔ κ)
  IsRearmed s = (i : I) → (s' : Service S) × ((handle once (ends i) s ≡ some s') × IsWaiting s')

  waiting-IsStopped : (s : Service S) → IsWaiting s → IsStopped (on_application_shutdown s)
  unfolding handle
  waiting-IsStopped s (t0, (timer, (one, idle))) =
      ((λ t. rw (timer, one) (ground arith)), (λ i. rw idle refl))

  ticking-IsRearmed : (s : Service S) → IsTicking s → IsRearmed (on_application_shutdown s)
  unfolding handle
  ticking-IsRearmed s (quiet, one) i = (
    end_tick (once i s.state) (on_application_shutdown s),
    (
      rw one refl,
      (s.next_timer, (refl, (rw (quiet, clear_timeout-nil s.timer) refl, rw one refl))),
    ),
  )

  -- `onApplicationShutdown` stops a service that waits for good: no timer is left to fire and no poll
  -- to end. It does not stop a service that is in a poll: when the poll ends, it sets the next timer.
  pub on_application_shutdown_cases :
      (s : Service S)
      → IsAlive s
      → (IsWaiting s × IsStopped (on_application_shutdown s))
        ⊎ (IsTicking s × IsRearmed (on_application_shutdown s))
  on_application_shutdown_cases s (inl waiting) = inl (waiting, waiting-IsStopped s waiting)
  on_application_shutdown_cases s (inr ticking) = inr (ticking, ticking-IsRearmed s ticking)
