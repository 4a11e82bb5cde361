-- ===== src/Idle.antt =====
-- pkg/httpidletimeout/httpidletimeout.go: a timer that runs while no request is served.
pub mod Counter
pub mod Race
pub mod Sequence
pub mod Tests
use wundergraph.Prelude.{
  ℕ, zero, suc, ◌+◌, ◌%◌, Bool, true, false, not, ◌&&◌, Option, none, some, List, [], ◌∷◌, ◌++◌,
  eqb, if◌then◌else◌,
}

pub data Event : Type 0 where
  reset_timer start_timer stop : Event

-- The timer of Start's goroutine: it waits for the timeout of the middleware, or for the largest
-- duration, which does not pass. A goroutine that got `stop` has returned.
pub data Timer : Type 0 where
  waits never stopped : Timer

-- Middleware, with the goroutines that use it. A call of startRequest, endRequest or Cancel that has
-- changed the counter and has not sent its event yet is counted by `resetting`, `restarting` or
-- `cancelling`, and a request between its two calls by `serving`.
pub record State : Type 0 where
  pub counter : ℕ
  pub event_ch : Option Event
  pub notified : Bool
  pub timer : Timer
  pub serving : ℕ
  pub resetting : ℕ
  pub restarting : ℕ
  pub cancelling : ℕ

-- New and Start
abbrev pub initial : State
initial = record {
  counter = 0;
  event_ch = none;
  notified = false;
  timer = waits;
  serving = 0;
  resetting = 0;
  restarting = 0;
  cancelling = 0;
}

-- What one goroutine does in one indivisible step.
pub data Action : Type 0 where
  start_request send_reset end_request send_start cancel send_stop expire receive wait : Action

-- atomic.AddUint64(&m.counter, 1) and, for ^uint64(0), the largest uint64
abbrev pub increment : ℕ → ℕ
increment c = (c + 1) % 18446744073709551616

abbrev pub decrement : ℕ → ℕ
decrement c = (c + 18446744073709551615) % 18446744073709551616

-- The timer that the goroutine sets for an event. It has stopped the old one before, and taken its
-- tick if it had expired.
unfoldable pub timer_for : Event → Timer
timer_for reset_timer = never
timer_for start_timer = waits
timer_for stop = stopped

-- One step; none if the goroutine has to wait. `m.eventCh <- event` waits while the channel, which
-- has room for one event, is full.
unfoldable pub step : Action → State → Option State
unfolding timer_for
step start_request s =
    let c = increment s.counter in
    if eqb c 1
    then some record s { counter = c; resetting = s.resetting + 1 }
    else some record s { counter = c; serving = s.serving + 1 }
step send_reset s = elim s.event_ch [
  | some _ ↦ none
  | none ↦ elim s.resetting [
    | zero ↦ none
    | suc n ↦ some record s { event_ch = some reset_timer; serving = s.serving + 1; resetting = n }
  ]
]
step end_request s = elim s.serving [
  | zero ↦ none
  | suc n ↦
      let c = decrement s.counter in
      if eqb c 0
      then some record s { counter = c; serving = n; restarting = s.restarting + 1 }
      else some record s { counter = c; serving = n }
]
step send_start s = elim s.event_ch [
  | some _ ↦ none
  | none ↦ elim s.restarting [
    | zero ↦ none
    | suc n ↦ some record s { event_ch = some start_timer; restarting = n }
  ]
]
step cancel s = some record s { cancelling = s.cancelling + 1 }
step send_stop s = elim s.event_ch [
  | some _ ↦ none
  | none ↦ elim s.cancelling [
    | zero ↦ none
    | suc n ↦ some record s { event_ch = some stop; cancelling = n }
  ]
]
step expire s = elim s.timer [
  | waits ↦ some record s { notified = true }
  | never ↦ none
  | stopped ↦ none
]
step receive s = elim s.timer [
  | stopped ↦ none
  | _ ↦ elim s.event_ch [
    | none ↦ none
    | some event ↦ some record s { event_ch = none; timer = timer_for event }
  ]
]
step wait s = if s.notified then some record s { notified = false } else none

-- The steps of all goroutines, in the order in which they happen.
unfoldable pub steps : List Action → State → Option State
unfolding step
steps [] s = some s
steps (a ∷ later) s = elim (step a s) [ none ↦ none | some t ↦ steps later t ]

-- startRequest and endRequest, called to their ends
pub data Call : Type 0 where
  begin finish : Call

-- Handler: what it calls for a request, around the next handler. The second call is deferred, so that
-- it stands also for a next handler that panics. `skip` is nil, or SkipFunc.
unfoldable pub handler : {Request : Type 0} → Option (Request → Bool) → Request → List Call
handler none r = begin ∷ finish ∷ []
handler (some skip) r = if not (skip r) then begin ∷ finish ∷ [] else []

unfoldable pub handlers : {Request : Type 0} → Option (Request → Bool) → List Request → List Call
unfolding handler
handlers skip [] = []
handlers skip (r ∷ rs) = handler skip r ++ handlers skip rs
