-- ===== src/ServerCore/Loops/Unset.antt =====
-- The accept thread before the session factory is set.
use actor_model_server.Base.{◌≡◌, refl, none, List, [], ◌∷◌}
use actor_model_server.NetLib.{RingOps, QueueOps}
use actor_model_server.ServerCore.Registry.{ServerCore}
use actor_model_server.ServerCore.Loops.{
  ThreadEnd, running, returned, terminated, AcceptResult, client, interrupted, accept_failed,
  create_session, accept_ends, run_accept_thread,
}

-- Without a factory: how the thread stands.
abbrev pub end_without_factory : List AcceptResult → ThreadEnd
end_without_factory [] = running
end_without_factory (client sock cell port posted ∷ results) = terminated
end_without_factory (interrupted ∷ results) = returned
end_without_factory (accept_failed ∷ results) = end_without_factory results

-- Without a factory, the first socket that `accept` gives ends the process, and no session is made.
pub run_accept_thread_unset :
    (ring : RingOps) (queue : QueueOps) {M : Type 0} (W : Type 0) (m : M)
    (results : List AcceptResult) (core : ServerCore)
    → let loop = run_accept_thread ring queue {W = W} none m results core in
      (loop.accept_end ≡ end_without_factory results) × (loop.core ≡ core)
unfolding run_accept_thread create_session accept_ends
run_accept_thread_unset ring queue W m [] core = (refl, refl)
run_accept_thread_unset ring queue W m (interrupted ∷ results) core = (refl, refl)
run_accept_thread_unset ring queue W m (accept_failed ∷ results) core =
    run_accept_thread_unset ring queue W m results core
run_accept_thread_unset ring queue W m (client sock cell port posted ∷ results) core = (refl, refl)
