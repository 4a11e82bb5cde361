-- ===== src/Idle/Counter.antt =====
-- What the counter of the middleware counts.
use wundergraph.Prelude.{◌+◌, ◌%◌, ◌≡◌, refl, some, arith}
use wundergraph.Idle.{
  State, initial, Action, start_request, send_reset, end_request, send_start, cancel, send_stop,
  expire, receive, wait, step,
}

-- The states that the middleware can be in.
pub data IsReachable : State → Type 0 where
  at_start : IsReachable initial
  after : (a : Action) (s s' : State) → IsReachable s → step a s ≡ some s' → IsReachable s'

abbrev pub CountsRequests : State → Type 0
CountsRequests s = s.counter ≡ (s.serving + s.resetting) % 18446744073709551616

step-CountsRequests :
    (a : Action) (s s' : State) → CountsRequests s → step a s ≡ some s' → CountsRequests s'
unfolding step
step-CountsRequests start_request s s' h e = ground arith
step-CountsRequests send_reset s s' h e = ground arith
step-CountsRequests end_request s s' h e = ground arith
step-CountsRequests send_start s s' h e = ground arith
step-CountsRequests cancel s s' h e = ground arith
step-CountsRequests send_stop s s' h e = ground arith
step-CountsRequests expire s s' h e = ground arith
step-CountsRequests receive s s' h e = ground arith
step-CountsRequests wait s s' h e = ground arith

IsReachable→CountsRequests : (s : State) → IsReachable s → CountsRequests s
IsReachable→CountsRequests s at_start = refl
IsReachable→CountsRequests s (after a t _ r e) =
    step-CountsRequests a t s (IsReachable→CountsRequests t r) e

-- Whatever goroutines run, and in whatever order, the counter is the number of requests that have
-- begun and not ended, modulo 2^64: those in service and those that wait for room in the channel
-- before they are served.
pub IsReachable-counter :
    (s : State) → IsReachable s → s.counter ≡ (s.serving + s.resetting) % 18446744073709551616
IsReachable-counter s r = IsReachable→CountsRequests s r
