-- ===== src/Mediator/Calls.antt =====
-- The calls that a mediator receives, and its runs over a list of them.
use actor_model_server.Base.{ℕ, Bool, List, [], ◌∷◌, ◌++◌}
use actor_model_server.Mediator.{Mediator, Event, start_transaction, on_participant_ready, on_timer}

pub data Call : Type 0 where
  start : List ℕ → ℕ → Call
  ready : ℕ → ℕ → Bool → Call
  timer : Call

-- A call with the time at which it is made.
unfoldable pub step : ℕ → Call → Mediator → Mediator × List Event
step now (start pids timeout) m = start_transaction pids timeout now m
step now (ready tid pid success) m = on_participant_ready tid pid success now m
step now timer m = on_timer now m

unfoldable pub run : List (ℕ × Call) → Mediator → Mediator × List Event
run [] m = (m, [])
run ((now, c) ∷ cs) m =
    let (m', sent) = step now c m in let (m'', rest) = run cs m' in (m'', sent ++ rest)
