-- ===== src/Idle/Tests.antt =====
-- The idle timeout at concrete runs.
use wundergraph.Prelude.{◌+◌, ◌%◌, ◌≡◌, refl, false, some, [], ◌∷◌, arith}
use wundergraph.Idle.{start_timer, stopped, State, initial, start_request, step, begin, finish}
use wundergraph.Idle.Counter.{IsReachable, at_start, after, IsReachable-counter}
use wundergraph.Idle.Sequence.{calls, in_service, settled, settled_at, calls-settled}

-- one request that has begun and waits to send its event
abbrev waiting : State
waiting = record initial { counter = 1; resetting = 1 }

waiting-IsReachable : IsReachable waiting
unfolding step
waiting-IsReachable = after start_request initial waiting at_start refl

IsReachable-counter_example :
    waiting.counter ≡ (waiting.serving + waiting.resetting) % 18446744073709551616
IsReachable-counter_example = IsReachable-counter waiting waiting-IsReachable

-- a middleware that was stopped, with an event after that
abbrev clogged : State
clogged = record initial {
  timer = stopped;
  event_ch = some start_timer;
  counter = 1;
  resetting = 1;
}

abbrev clogged_later : State
clogged_later = record clogged { counter = 2; serving = 1 }

calls-settled_example :
    calls (begin ∷ begin ∷ finish ∷ finish ∷ begin ∷ []) (settled false 0)
    ≡ settled_at false (in_service (begin ∷ begin ∷ finish ∷ finish ∷ begin ∷ []) 0)
calls-settled_example =
    calls-settled (begin ∷ begin ∷ finish ∷ finish ∷ begin ∷ []) false 0 (omega arith)
