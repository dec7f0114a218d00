-- ===== src/ServerCore/Loops/Stopping.antt =====
-- `StopServer` against the loops that it waits for.
use actor_model_server.Base.{
  ℕ, zero, suc, ◌<◌, ◌≡◌, refl, Bool, true, false, Option, none, some, List, arith, Option-cases,
  inl, inr,
}
use actor_model_server.ServerCore.Registry.{ServerCore}
use actor_model_server.ServerCore.Threads.{stop_io_threads, run_logic_thread}
use actor_model_server.ServerCore.Threads.Stopping.{run_logic_thread-wakes}
use actor_model_server.ServerCore.Loops.{stop_waits, run_release_thread, join_threads, stop_server}

logic_thread_goes_on :
    (rounds thread : ℕ) (core : ServerCore)
    → (run_logic_thread false (stop_waits rounds) thread core).1 ≡ false
logic_thread_goes_on rounds thread core =
    rw (run_logic_thread-wakes (stop_waits rounds) thread core) refl

join_threads_blocks :
    (rounds thread n : ℕ) (core : ServerCore)
    → 0 < n
    → join_threads false rounds thread n core ≡ false
unfolding join_threads
join_threads_blocks rounds thread zero core h = absurd (omega arith)
join_threads_blocks rounds thread (suc n) core h = rw (logic_thread_goes_on rounds thread core) refl

all_join : (rounds thread n : ℕ) (core : ServerCore) → join_threads true rounds thread n core ≡ true
unfolding join_threads run_logic_thread run_release_thread
all_join rounds thread zero core = refl
all_join rounds thread (suc n) core = all_join rounds (suc thread) n core

abbrev pub is_some {ℓ} : {A : Type ℓ} → Option A → Bool
is_some none = false
is_some (some a) = true

-- `StopServer` never returns on a server with a logic thread, as long as `isStop` is false, which no
-- code of the server changes: whatever I/O threads there are, whichever take the keys, and however
-- many rounds the logic and release threads make after the stop event is set. Were `isStop` true,
-- `StopServer` would return exactly if its I/O threads end.
pub stop_server_never_returns :
    (rounds : ℕ) (io_threads takers : List ℕ) (core : ServerCore)
    → 0 < core.num_of_logic_thread
    → (stop_server false rounds io_threads takers core ≡ false)
      × (stop_server true rounds io_threads takers core
          ≡ is_some (stop_io_threads io_threads takers io_threads core))
unfolding stop_server
stop_server_never_returns rounds io_threads takers core h =
    elim (Option-cases (stop_io_threads io_threads takers io_threads core)) [
      | inl e ↦ rw (e, stop_server) (refl, refl)
      | inr (left, e) ↦
          rw (e, stop_server)
            (
              join_threads_blocks rounds 0 core.num_of_logic_thread core h,
              all_join rounds 0 core.num_of_logic_thread core,
            )
    ]
