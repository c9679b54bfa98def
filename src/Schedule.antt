-- ===== src/Schedule.antt =====
-- What the services that poll have in common: `onModuleInit`, `scheduleNext`, `tick` and
-- `onApplicationShutdown` of relay.service.ts, reaper.service.ts and outbox-cleanup.service.ts in
-- apps/api/src/relay, of webhooks-dispatcher.service.ts and webhook-reaper.service.ts in
-- apps/api/src/webhooks and of apps/api/src/bank/bank-config-sync.service.ts.
pub mod Laws
mod Tests
use payments_processor.Common.{
  ℕ, suc, ◌-◌, not, Option, none, some, List, [], ◌∷◌, ◌==◌, filter_by, mem, ◌>>=◌, if◌then◌else◌,
}

-- How a poll ends, with the state that it leaves behind.
pub data Outcome {ℓ} (S : Type ℓ) : Type ℓ where
  returned thrown : S → Outcome S

-- A service with what its polls work on: the handle in `timer`, the timers that are set, the handle
-- of the next one, and the number of ticks that wait for their poll.
pub record Service {ℓ} (S : Type ℓ) : Type ℓ where
  pub state : S
  pub timer : Option ℕ
  pub pending : List ℕ
  pub next_timer : ℕ
  pub ticks : ℕ

-- What happens to a service: a timer fires, the poll of a tick ends, the process shuts down.
pub data Event {κ} (I : Type κ) : Type κ where
  fires : (timer : ℕ) → Event I
  ends : I → Event I
  shuts_down : Event I

-- `clearTimeout` does nothing to a timer that has fired, nor to `undefined`.
abbrev pub clear_timeout : Option ℕ → List ℕ → List ℕ
clear_timeout none timers = timers
clear_timeout (some timer) timers = filter_by (λ t. not (t == timer)) timers

module _ {ℓ} {S : Type ℓ} where
  abbrev pub new_service : S → Service S
  new_service start = record {
    state = start;
    timer = none;
    pending = [];
    next_timer = 0;
    ticks = 0;
  }

  -- this.timer = setTimeout(() => this.tick(), ...)
  abbrev pub schedule_next : Service S → Service S
  schedule_next s = record s {
    timer = some s.next_timer;
    pending = s.next_timer ∷ s.pending;
    next_timer = suc s.next_timer;
  }

  abbrev pub on_module_init : Service S → Service S
  on_module_init s = schedule_next s

  -- `onModuleInit` of the cleanup, which begins with a tick.
  abbrev pub on_module_init_ticking : Service S → Service S
  on_module_init_ticking s = record s { ticks = suc s.ticks }

  abbrev pub on_application_shutdown : Service S → Service S
  on_application_shutdown s = record s { pending = clear_timeout s.timer s.pending }

  -- `catch` swallows the error, or logs it.
  abbrev pub caught : Outcome S → S
  caught (returned t) = t
  caught (thrown t) = t

  -- The end of `tick`, with `finally`.
  abbrev pub end_tick : Outcome S → Service S → Service S
  end_tick outcome s = schedule_next (record s { state = caught outcome; ticks = s.ticks - 1 })

  abbrev begin_tick : ℕ → Service S → Service S
  begin_tick t s = record s { pending = clear_timeout (some t) s.pending; ticks = suc s.ticks }

module _ {ℓ κ} {S : Type ℓ} {I : Type κ} (once : I → S → Outcome S) where
  -- An event at a service, or `none` where it can not happen: a timer that is not set does not fire,
  -- and without a tick no poll ends. What a poll does is `once`, of the inputs that it reads.
  unfoldable pub handle : Event I → Service S → Option (Service S)
  handle (fires t) s = if mem s.pending t then some (begin_tick t s) else none
  handle (ends i) s = if s.ticks == 0 then none else some (end_tick (once i s.state) s)
  handle shuts_down s = some (on_application_shutdown s)

  unfoldable pub handle_all : List (Event I) → Service S → Option (Service S)
  handle_all [] s = some s
  handle_all (e ∷ es) s = do s' ← handle e s; handle_all es s'
