-- ===== src/Idle/Race.antt =====
-- What the order of the events can do to the timer, and what becomes of callers after Cancel.
use wundergraph.Prelude.{
  ◌≤◌, ◌≡◌, ◌≢◌, refl, Bool, true, none, some, arith, Option-cases, inl, inr, List, [], ◌∷◌,
}
use wundergraph.Idle.{
  Timer, waits, never, stopped, State, Action, start_request, send_reset, end_request, send_start,
  cancel, send_stop, expire, receive, wait, step, steps, timer_for,
}

-- No caller waits, no event is on its way, and the goroutine of the timer runs.
abbrev pub IsQuiet : State → Type 0
IsQuiet s =
    (s.event_ch ≡ none)
    × (s.timer ≢ stopped)
    × (s.resetting ≡ 0)
    × (s.restarting ≡ 0)
    × (s.cancelling ≡ 0)

-- One request is in service, and nothing is pending.
abbrev pub one_served : Bool → Timer → State
one_served notified timer = record {
  counter = 1;
  event_ch = none;
  notified = notified;
  timer = timer;
  serving = 1;
  resetting = 0;
  restarting = 0;
  cancelling = 0;
}

-- A request ends as another begins: the second sends its event first.
abbrev pub overtaking : List Action
overtaking = end_request ∷ start_request ∷ send_reset ∷ receive ∷ send_start ∷ receive ∷ expire ∷ []

steps-overtaking_from :
    (notified : Bool) (timer : Timer)
    → timer ≢ stopped
    → steps overtaking (one_served notified timer) ≡ some (one_served true waits)
unfolding steps step timer_for
steps-overtaking_from notified waits h = refl
steps-overtaking_from notified never h = refl
steps-overtaking_from notified stopped h = absurd (h refl)

quiet-eq :
    (s : State) → IsQuiet s → s.counter ≡ 1 → s.serving ≡ 1 → s ≡ one_served s.notified s.timer
quiet-eq s (empty, running, r, t, c) one served = λ i. record s {
  counter = one i;
  event_ch = empty i;
  serving = served i;
  resetting = r i;
  restarting = t i;
  cancelling = c i;
}

-- While one request is in service, nothing else is pending and the timer's goroutine runs, its end
-- and the begin of another can send their events in the wrong order: the timer then runs although a
-- request is in service, and reports the timeout during it.
steps-overtaking :
    (s : State)
    → IsQuiet s
    → s.counter ≡ 1
    → s.serving ≡ 1
    → (s' : State) × (steps overtaking s ≡ some s')
      × IsQuiet s'
      × (s'.counter ≡ 1)
      × (s'.serving ≡ 1)
      × (s'.notified ≡ true)
steps-overtaking s (empty, running, r, t, c) one served = (
  one_served true waits,
  rw (quiet-eq s (empty, running, r, t, c) one served)
      (steps-overtaking_from s.notified s.timer running),
  (refl, (λ e. cc), refl, refl, refl),
  refl,
  refl,
  refl,
)

-- The goroutine of the timer has returned, and left an event in the channel.
abbrev pub IsClogged : State → Type 0
IsClogged s = (s.timer ≡ stopped) × (s.event_ch ≢ none)

step-IsClogged :
    (a : Action) (s s' : State)
    → IsClogged s
    → step a s ≡ some s'
    → IsClogged s' × (s.resetting ≤ s'.resetting)
unfolding step
step-IsClogged start_request s s' h e = ground arith
step-IsClogged send_reset s s' h e = ground arith
step-IsClogged end_request s s' h e = ground arith
step-IsClogged send_start s s' h e = ground arith
step-IsClogged cancel s s' h e = ground arith
step-IsClogged send_stop s s' h e = ground arith
step-IsClogged expire s s' h e = ground arith
step-IsClogged receive s s' h e = ground arith
step-IsClogged wait s s' h e = ground arith

-- Once the goroutine of the timer has got `stop` and an event fills the channel, no later step
-- takes it out, and the number of requests that wait to send an event of their own, before they are
-- served, never falls again.
steps-IsClogged :
    (actions : List Action) (s s' : State)
    → IsClogged s
    → steps actions s ≡ some s'
    → IsClogged s' × (s.resetting ≤ s'.resetting)
unfolding steps
steps-IsClogged [] s s' h e = ground arith
steps-IsClogged (a ∷ later) s s' h e = elim (Option-cases (step a s)) [
  | inl e' ↦ absurd (ground arith)
  | inr (t, taken) ↦
      let (clogged, more) = step-IsClogged a s t h taken in
      let (still, most) = steps-IsClogged later t s' clogged (ground arith) in (still, omega arith)
]
