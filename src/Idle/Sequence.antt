-- ===== src/Idle/Sequence.antt =====
-- Requests whose calls do not overlap: the timer runs exactly while none is in service.
use wundergraph.Prelude.{
  ℕ, zero, suc, ◌+◌, ◌<◌, ◌≡◌, refl, ◌∙◌, Bool, Option, none, some, arith, eqb, List, [], ◌∷◌,
  Bool-cases, inl, inr, length, if◌then◌else◌,
}
use wundergraph.Idle.{
  Timer, waits, never, State, start_request, send_reset, end_request, send_start, receive, step,
  steps, Call, begin, finish, handler, handlers,
}

-- A call of startRequest or endRequest with all that follows from it: its event, if it sends one, is
-- received before the next call.
unfoldable pub call : Call → State → Option State
unfolding step steps
call begin s = elim (step start_request s) [
  | none ↦ none
  | some t ↦ if eqb t.resetting s.resetting then some t else steps (send_reset ∷ receive ∷ []) t
]
call finish s = elim (step end_request s) [
  | none ↦ none
  | some t ↦ if eqb t.restarting s.restarting then some t else steps (send_start ∷ receive ∷ []) t
]

unfoldable pub calls : List Call → State → Option State
calls [] s = some s
calls (c ∷ cs) s = elim (call c s) [ none ↦ none | some t ↦ calls cs t ]

-- The view from outside: how many requests are in service.
unfoldable pub in_service : List Call → ℕ → Option ℕ
in_service [] n = some n
in_service (begin ∷ cs) n = in_service cs (suc n)
in_service (finish ∷ cs) zero = none
in_service (finish ∷ cs) (suc n) = in_service cs n

abbrev pub timer_of : ℕ → Timer
timer_of zero = waits
timer_of (suc _) = never

-- n requests are in service, and the timer runs if there are none.
abbrev pub settled : Bool → ℕ → State
settled notified n = record {
  counter = n;
  event_ch = none;
  notified = notified;
  timer = timer_of n;
  serving = n;
  resetting = 0;
  restarting = 0;
  cancelling = 0;
}

abbrev pub settled_at : Bool → Option ℕ → Option State
settled_at b none = none
settled_at b (some n) = some (settled b n)

call-begin :
    (b : Bool) (n : ℕ)
    → suc n < 18446744073709551616
    → call begin (settled b n) ≡ some (settled b (suc n))
unfolding call step steps
call-begin b zero h = refl
call-begin b (suc n) h = ground arith

call-finish :
    (b : Bool) (n : ℕ)
    → suc n < 18446744073709551616
    → call finish (settled b (suc n)) ≡ some (settled b n)
unfolding call step steps
call-finish b zero h = refl
call-finish b (suc n) h = ground arith

-- Calls that do not overlap take the middleware through the states of a counter: after any of them,
-- as long as there are fewer than 2^64, the timer runs if no request is in service and does not if
-- one is, and a request that did not begin does not end.
pub calls-settled :
    (cs : List Call) (b : Bool) (n : ℕ)
    → n + length cs < 18446744073709551616
    → calls cs (settled b n) ≡ settled_at b (in_service cs n)
unfolding calls in_service
calls-settled [] b n h = refl
calls-settled (begin ∷ cs) b n h =
    rw (call-begin b n (omega arith), calls) (calls-settled cs b (suc n) (omega arith))
calls-settled (finish ∷ cs) b zero h = unfold call step in refl
calls-settled (finish ∷ cs) b (suc n) h =
    rw (call-finish b n (omega arith), calls) (calls-settled cs b n (omega arith))

call_twice :
    (b : Bool) (n : ℕ) (cs : List Call)
    → suc n < 18446744073709551616
    → calls (begin ∷ finish ∷ cs) (settled b n) ≡ calls cs (settled b n)
unfolding calls
call_twice b n cs h = rw (call-begin b n h, calls) (rw (call-finish b n h, calls) refl)

-- Handling requests one after another leaves the middleware as it was, with its timer running if
-- it did and not if not, whichever of the requests are skipped and also if their handlers panic.
calls-handlers :
    {Request : Type 0} (skip : Option (Request → Bool)) (rs : List Request) (b : Bool) (n : ℕ)
    → suc n < 18446744073709551616
    → calls (handlers skip rs) (settled b n) ≡ some (settled b n)
unfolding handlers handler
calls-handlers skip [] b n h = unfold calls in refl
calls-handlers none (r ∷ rs) b n h =
    call_twice b n (handlers none rs) h ∙ calls-handlers none rs b n h
calls-handlers (some skip) (r ∷ rs) b n h = elim (Bool-cases (skip r)) [
  | inl e ↦ rw e (calls-handlers (some skip) rs b n h)
  | inr e ↦ rw e (call_twice b n (handlers (some skip) rs) h ∙ calls-handlers (some skip) rs b n h)
]
