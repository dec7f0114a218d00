-- ===== src/ServerCore/Loops/Releasing.antt =====
-- What a release thread does over all its rounds.
use actor_model_server.Base.{ℕ, ◌+◌, ◌≡◌, Bool, true, false, List, [], ◌∷◌}
use actor_model_server.ServerCore.Registry.{ServerCore, release_session}
use actor_model_server.ServerCore.Loops.{
  ReleaseWait, queue_event, release_stop_event, release_invalid, release_sessions, release_round,
  run_release_thread,
}
use actor_model_server.ServerCore.Registry.Accounting.{
  Accounts-refl, Accounts-trans, disconnections, one_if_there, IsThreadOk, Accounts,
  release_queued-Accounts, erase_all_session-Accounts, release_session-Accounts,
}

release_sessions-Accounts :
    (thread : ℕ) (ids : List ℕ) (core : ServerCore)
    → IsThreadOk thread core
    → Accounts thread core (release_sessions ids thread core) []
unfolding release_sessions
release_sessions-Accounts thread [] core ok = Accounts-refl thread core ok
release_sessions-Accounts thread (id ∷ ids) core ok =
    let one = release_session-Accounts thread id core ok in
    Accounts-trans [] [] one
      (release_sessions-Accounts thread ids (release_session id thread core) one.ok)

release_round-Accounts :
    (wait : ReleaseWait) (thread : ℕ) (core : ServerCore)
    → IsThreadOk thread core
    → Accounts thread core (release_round wait thread core).0 (release_round wait thread core).1
unfolding release_round
release_round-Accounts queue_event thread core ok = release_queued-Accounts thread core ok
release_round-Accounts release_stop_event thread core ok = erase_all_session-Accounts thread core ok
release_round-Accounts release_invalid thread core ok = Accounts-refl thread core ok

run_release_thread-Accounts :
    (is_stop : Bool) (rounds : List (List ℕ × ReleaseWait)) (thread : ℕ) (core : ServerCore)
    → IsThreadOk thread core
    → Accounts thread core
        (run_release_thread is_stop rounds thread core).0
        (run_release_thread is_stop rounds thread core).1
unfolding run_release_thread
run_release_thread-Accounts true rounds thread core ok = Accounts-refl thread core ok
run_release_thread-Accounts false [] thread core ok = Accounts-refl thread core ok
run_release_thread-Accounts false ((ids, wait) ∷ rounds) thread core ok =
    let pushed = release_sessions-Accounts thread ids core ok in
    let woken = release_round-Accounts wait thread (release_sessions ids thread core) pushed.ok in
    let rest = run_release_thread-Accounts false rounds thread _ woken.ok in
    Accounts-trans (release_round wait thread (release_sessions ids thread core)).1 _
      (Accounts-trans [] _ pushed woken) rest

-- Over any rounds of a release thread, with any sessions handed to it in between, often or never,
-- and the stop event among them: a session is disconnected once if it leaves the thread's map, and
-- not at all otherwise. No session comes into the map.
pub run_release_thread_balances :
    (rounds : List (List ℕ × ReleaseWait)) (thread id : ℕ) (core : ServerCore)
    → IsThreadOk thread core
    → let (core', events, ended) = run_release_thread false rounds thread core in
      disconnections id events + one_if_there id (core'.session_map thread)
      ≡ one_if_there id (core.session_map thread)
run_release_thread_balances rounds thread id core ok =
    (run_release_thread-Accounts false rounds thread core ok).balance id
