-- ===== src/ServerCore/Threads/Stopping.antt =====
-- How the threads end.
use actor_model_server.Base.{ℕ, ◌≡◌, ◌≢◌, refl, true, false, none, List, [], ◌∷◌, ◌++◌, arith}
use actor_model_server.Base.UnorderedMap.{member}
use actor_model_server.ServerCore.Registry.{ServerCore, CoreEvent, wake_logic_thread}
use actor_model_server.ServerCore.Threads.{
  io_round, without, after_post, stop_io_threads, Wait, timeout, stop_event, invalid, logic_round,
  run_logic_thread,
}

member-without :
    (i taker : ℕ) (running : List ℕ)
    → taker ≢ i
    → member i running ≡ true
    → member i (without taker running) ≡ true
unfolding without
member-without i taker [] ne h = h
member-without i taker (t ∷ ts) ne h = ground (arith, member-without i taker ts ne)

-- If the key that `StopServer` posts for its first I/O thread, which still runs, is taken by
-- another one, `StopServer` does not come to its end: the join of the first waits with no key left
-- for it.
pub stop_io_threads_blocks :
    (i taker : ℕ) (is takers running : List ℕ) (core : ServerCore)
    → taker ≢ i
    → member i running ≡ true
    → stop_io_threads (i ∷ is) (taker ∷ takers) running core ≡ none
unfolding stop_io_threads after_post io_round
stop_io_threads_blocks i taker is takers running core ne h =
    rw (member-without i taker running ne h) refl

abbrev pub wakes : List Wait → ℕ → ServerCore → List CoreEvent
wakes [] thread core = []
wakes (timeout ∷ ws) thread core = wake_logic_thread thread core ++ wakes ws thread core
wakes (stop_event ∷ ws) thread core = wakes ws thread core
wakes (invalid ∷ ws) thread core = wakes ws thread core

-- A logic thread wakes its actors once for each timeout and for nothing else, and whatever its waits
-- return, the stop event included, it does not end: only `isStop` would end it.
pub run_logic_thread-wakes :
    (waits : List Wait) (thread : ℕ) (core : ServerCore)
    → run_logic_thread false waits thread core ≡ (wakes waits thread core, false)
unfolding run_logic_thread logic_round
run_logic_thread-wakes [] thread core = refl
run_logic_thread-wakes (timeout ∷ ws) thread core = rw (run_logic_thread-wakes ws thread core) refl
run_logic_thread-wakes (stop_event ∷ ws) thread core =
    rw (run_logic_thread-wakes ws thread core) refl
run_logic_thread-wakes (invalid ∷ ws) thread core = rw (run_logic_thread-wakes ws thread core) refl
