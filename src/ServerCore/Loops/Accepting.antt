-- ===== src/ServerCore/Loops/Accepting.antt =====
-- The accept thread over all its rounds.
use actor_model_server.Base.{
  ℕ, ◌≡◌, refl, sym, subst, ap, ◌∙◌, map-append, Bool, Option, none, some, List, [], ◌∷◌, ◌++◌, map,
  ◌+◌, length, Option-cases, inl, inr,
}
use actor_model_server.NetLib.{RingOps, QueueOps}
use actor_model_server.ServerCore.Startup.{
  PortHandle, null_handle, invalid_handle_value, port_handle,
}
use actor_model_server.Base.Int.{pos}
use actor_model_server.ServerCore.Registry.{ServerCore, Handle, actor_created, find_session}
use actor_model_server.ServerCore.Registry.Insertion.{
  insert_sessions, insert_sessions-append, or_else, first_of, find_session-insert_sessions,
  insert_sessions-num_of_user, insert_sessions-non_network_actor_map,
}
use actor_model_server.ServerCore.Threads.{Newcomer, accept_round}
use actor_model_server.ServerCore.Loops.{
  ThreadEnd, running, returned, AcceptResult, client, interrupted, accept_failed, create_session,
  of_factory, AcceptLoop, before_loop, accept_ends, run_accept_thread,
}

abbrev pub end_with_factory : List AcceptResult → ThreadEnd
end_with_factory [] = running
end_with_factory (client sock cell port posted ∷ results) = end_with_factory results
end_with_factory (interrupted ∷ results) = returned
end_with_factory (accept_failed ∷ results) = end_with_factory results

module _ (ring : RingOps) (queue : QueueOps) {M W : Type 0} where
  -- The handle of the session of a socket for which `CreateIoCompletionPort` gave that.
  abbrev pub handle_of : PortHandle → Option (Newcomer queue M W × ring.Ring) → List Handle
  handle_of invalid_handle_value made = []
  handle_of null_handle none = []
  handle_of null_handle (some (n, r)) = n.handle ∷ []
  handle_of port_handle none = []
  handle_of port_handle (some (n, r)) = n.handle ∷ []

  -- The sessions of all those sockets before `accept` is interrupted.
  abbrev pub accepted_handles :
      (ℕ → Option (Newcomer queue M W × ring.Ring)) → List AcceptResult → List Handle
  accepted_handles factory [] = []
  accepted_handles factory (client sock cell port posted ∷ results) =
      handle_of port (factory sock) ++ accepted_handles factory results
  accepted_handles factory (interrupted ∷ results) = []
  accepted_handles factory (accept_failed ∷ results) = accepted_handles factory results

  accept_round_core :
      (cell : ℕ) (port : PortHandle) (posted : Bool) (r : ring.Ring) (m : M)
      (n : Newcomer queue M W) (core : ServerCore)
      → ((accept_round ring queue cell port posted r m n core).core
          ≡ insert_sessions (handle_of port (some (n, r))) core)
        × ((accept_round ring queue cell port posted r m n core).created
            ≡ map actor_created (handle_of port (some (n, r))))
  unfolding accept_round
  accept_round_core cell null_handle posted r m n core = (refl, refl)
  accept_round_core cell invalid_handle_value posted r m n core = (refl, refl)
  accept_round_core cell port_handle posted r m n core = (refl, refl)

  run_accept_thread_no_session :
      (factory : ℕ → Option (Newcomer queue M W × ring.Ring)) (m : M) (sock : ℕ) (cell : ℕ)
      (port : PortHandle) (posted : Bool) (results : List AcceptResult) (core : ServerCore)
      → factory sock ≡ none
      → run_accept_thread ring queue (some factory) m (client sock cell port posted ∷ results) core
        ≡ run_accept_thread ring queue (some factory) m results core
  unfolding run_accept_thread create_session of_factory
  run_accept_thread_no_session factory m sock cell port posted results core e =
      rw (e, run_accept_thread) refl

  run_accept_thread_session :
      (factory : ℕ → Option (Newcomer queue M W × ring.Ring)) (m : M) (sock : ℕ) (cell : ℕ)
      (port : PortHandle) (posted : Bool) (results : List AcceptResult) (core : ServerCore)
      (n : Newcomer queue M W) (r : ring.Ring)
      → factory sock ≡ some (n, r)
      → let round = accept_round ring queue cell port posted r m n core in
        run_accept_thread ring queue (some factory) m (client sock cell port posted ∷ results) core
        ≡ before_loop ring queue round
            (run_accept_thread ring queue (some factory) m results round.core)
  unfolding run_accept_thread create_session of_factory
  run_accept_thread_session factory m sock cell port posted results core n r e =
      rw (e, run_accept_thread) refl

  abbrev Registers : AcceptLoop queue M W → List Handle → ThreadEnd → ServerCore → Type 0
  Registers loop handles how core =
      (loop.core ≡ insert_sessions handles core)
      × (loop.created ≡ map actor_created handles)
      × (loop.accept_end ≡ how)

  before_loop-Registers :
      (cell : ℕ) (port : PortHandle) (posted : Bool) (r : ring.Ring) (m : M)
      (n : Newcomer queue M W) (rest : AcceptLoop queue M W) (handles : List Handle)
      (how : ThreadEnd) (core : ServerCore)
      → let round = accept_round ring queue cell port posted r m n core in
        Registers rest handles how round.core
        → Registers
            (before_loop ring queue round rest)
            (handle_of port (some (n, r)) ++ handles)
            how
            core
  unfolding before_loop
  before_loop-Registers cell port posted r m n rest handles how core h =
      let hs = handle_of port (some (n, r)) in
      let here = accept_round_core cell port posted r m n core in
      (
        h.0 ∙ ap (insert_sessions handles) here.0 ∙ sym (insert_sessions-append hs handles core),
        (λ i. here.1 i ++ h.1 i) ∙ sym (map-append actor_created hs handles),
        h.2,
      )

  no_session-Registers :
      (port : PortHandle) (loop : AcceptLoop queue M W) (handles : List Handle) (how : ThreadEnd)
      (core : ServerCore)
      → Registers loop handles how core
      → Registers loop (handle_of port none ++ handles) how core
  no_session-Registers null_handle loop handles how core h = h
  no_session-Registers invalid_handle_value loop handles how core h = h
  no_session-Registers port_handle loop handles how core h = h

  run_accept_thread-insert_sessions :
      (factory : ℕ → Option (Newcomer queue M W × ring.Ring)) (m : M) (results : List AcceptResult)
      (core : ServerCore)
      → let loop = run_accept_thread ring queue (some factory) m results core in
        let handles = accepted_handles factory results in
        (loop.core ≡ insert_sessions handles core)
        × (loop.created ≡ map actor_created handles)
        × (loop.accept_end ≡ end_with_factory results)
  unfolding run_accept_thread create_session of_factory before_loop accept_ends
  run_accept_thread-insert_sessions factory m [] core = (refl, refl, refl)
  run_accept_thread-insert_sessions factory m (interrupted ∷ results) core = (refl, refl, refl)
  run_accept_thread-insert_sessions factory m (accept_failed ∷ results) core =
      run_accept_thread-insert_sessions factory m results core
  run_accept_thread-insert_sessions factory m (client sock cell port posted ∷ results) core =
      let later = accepted_handles factory results in
      let how = end_with_factory results in
      elim (Option-cases (factory sock)) [
        | inl nothing ↦
            subst
              (λ made.
                Registers
                  (run_accept_thread ring queue (some factory) m
                    (client sock cell port posted ∷ results) core)
                  (handle_of port made ++ later) how core)
              (sym nothing)
              (subst (λ loop. Registers loop (handle_of port none ++ later) how core)
                (sym (
                  run_accept_thread_no_session factory m sock cell port posted results core
                    nothing))
                (no_session-Registers port
                  (run_accept_thread ring queue (some factory) m results core) later how core
                  (run_accept_thread-insert_sessions factory m results core)))
        | inr ((n, r), gives) ↦
            let round = accept_round ring queue cell port posted r m n core in
            subst
              (λ made.
                Registers
                  (run_accept_thread ring queue (some factory) m
                    (client sock cell port posted ∷ results) core)
                  (handle_of port made ++ later) how core)
              (sym gives)
              (subst (λ loop. Registers loop (handle_of port (some (n, r)) ++ later) how core)
                (sym (
                  run_accept_thread_session factory m sock cell port posted results core n r gives))
                (before_loop-Registers cell port posted r m n
                  (run_accept_thread ring queue (some factory) m results round.core) later how core
                  (run_accept_thread-insert_sessions factory m results round.core)))
      ]

  -- With a factory, for every id and thread: a session that the server has there is still found after
  -- the accept thread's rounds, and otherwise the first new session of that id on that thread is. The
  -- new sessions are those that the factory made before `accept` was interrupted, for whose sockets
  -- `CreateIoCompletionPort` gave anything but INVALID_HANDLE_VALUE: so also those of sockets that were
  -- not registered, for which it gave NULL. Each of them counts one user, and `OnActorCreated` is called
  -- directly once for each of them, in the order of the sockets, and for no other. The maps of other
  -- actors are as they were, and the thread ends exactly when `accept` is interrupted.
  pub run_accept_thread_registers :
      (factory : ℕ → Option (Newcomer queue M W × ring.Ring)) (m : M) (results : List AcceptResult)
      (core : ServerCore) (id thread users : ℕ)
      → core.num_of_user ≡ pos users
      → let loop = run_accept_thread ring queue (some factory) m results core in
        let handles = accepted_handles factory results in
        (find_session id thread loop.core
          ≡ or_else (find_session id thread core) (first_of id thread handles))
        × (loop.core.num_of_user ≡ pos (users + length handles))
        × (loop.core.non_network_actor_map ≡ core.non_network_actor_map)
        × (loop.created ≡ map actor_created handles)
        × (loop.accept_end ≡ end_with_factory results)
  run_accept_thread_registers factory m results core id thread users counted =
      let handles = accepted_handles factory results in
      let h = run_accept_thread-insert_sessions factory m results core in
      (
        ap (find_session id thread) h.0 ∙ find_session-insert_sessions id thread handles core,
        ap (λ (c : ServerCore). c.num_of_user) h.0
            ∙ insert_sessions-num_of_user handles users core counted,
        ap (λ (c : ServerCore). c.non_network_actor_map) h.0
            ∙ insert_sessions-non_network_actor_map handles core,
        h.1,
        h.2,
      )
