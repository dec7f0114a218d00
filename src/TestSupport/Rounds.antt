-- ===== src/TestSupport/Rounds.antt =====
-- A round of the test's timers beside a round of a logic thread, and the registrations.
use actor_model_server.Base.{
  ℕ, ◌+◌, ◌-◌, ◌≡◌, refl, sym, ap, ◌∙◌, some, List, [], ◌∷◌, ◌++◌, append_assoc, append-nil, arith,
  ◌==◌, if◌then◌else◌,
}
use actor_model_server.Base.UnorderedMap.{values}
use actor_model_server.ServerCore.Registry.{Handle, ServerCore, wake_logic_thread}
use actor_model_server.ServerCore.Registry.Lookup.{wake_logic_thread-timer_round, timer_round}
use actor_model_server.TestSupport.{
  TestInterface, register_session, unregister_session, erase_first, register_non_network_actor,
  tick, tear_down, pre_timer_for_test, on_timer_for_test, post_timer_for_test,
}

abbrev pub register_sessions : List Handle → TestInterface → TestInterface
register_sessions [] t = t
register_sessions (h ∷ hs) t = register_sessions hs (register_session (some h) t)

abbrev pub register_actors : List Handle → TestInterface → TestInterface
register_actors [] t = t
register_actors (h ∷ hs) t = register_actors hs (register_non_network_actor (some h) t)

register_sessions_lem :
    (hs : List Handle) (t : TestInterface)
    → register_sessions hs t ≡ record t { test_session_list = t.test_session_list ++ hs }
unfolding register_session
register_sessions_lem [] t =
    ap (λ l. record t { test_session_list = l }) (sym (append-nil t.test_session_list))
register_sessions_lem (h ∷ hs) t =
    register_sessions_lem hs (register_session (some h) t)
    ∙ ap (λ l. record t { test_session_list = l }) (append_assoc t.test_session_list (h ∷ []) hs)

register_actors_lem :
    (hs : List Handle) (t : TestInterface)
    → register_actors hs t
      ≡ record t { test_non_network_actor_list = t.test_non_network_actor_list ++ hs }
unfolding register_non_network_actor
register_actors_lem [] t =
    ap (λ l. record t { test_non_network_actor_list = l })
      (sym (append-nil t.test_non_network_actor_list))
register_actors_lem (h ∷ hs) t =
    register_actors_lem hs (register_non_network_actor (some h) t)
    ∙ ap (λ l. record t { test_non_network_actor_list = l })
        (append_assoc t.test_non_network_actor_list (h ∷ []) hs)

tick-timer_round :
    (t : TestInterface) → tick t ≡ timer_round t.test_session_list t.test_non_network_actor_list
unfolding tick pre_timer_for_test on_timer_for_test post_timer_for_test
tick-timer_round t = refl

-- A test interface on which the sessions and the other actors of a thread are registered, after
-- `TearDown`, in the order of the thread's maps and whatever was registered before, makes in one
-- `Tick` exactly the calls that the server's logic thread makes when it wakes, in the same order.
pub tick-wake_logic_thread :
    (thread : ℕ) (core : ServerCore) (t : TestInterface)
    → tick (
        register_actors
          (values (core.non_network_actor_map thread))
          (register_sessions (values (core.session_map thread)) (tear_down t)))
      ≡ wake_logic_thread thread core
unfolding tear_down
tick-wake_logic_thread thread core t =
    let sessions = values (core.session_map thread) in
    let actors = values (core.non_network_actor_map thread) in
    ap tick (
      register_actors_lem actors (register_sessions sessions (tear_down t))
      ∙ ap
          (λ (u : TestInterface). record u {
            test_non_network_actor_list = u.test_non_network_actor_list ++ actors;
          })
          (register_sessions_lem sessions (tear_down t)))
    ∙ tick-timer_round
        (record { test_session_list = sessions; test_non_network_actor_list = actors })
    ∙ sym (wake_logic_thread-timer_round thread core)

abbrev pub registrations : ℕ → List Handle → ℕ
registrations id [] = 0
registrations id (h ∷ hs) = (if h.actor_id == id then 1 else 0) + registrations id hs

registrations-append :
    (id : ℕ) (xs ys : List Handle)
    → registrations id (xs ++ ys) ≡ registrations id xs + registrations id ys
registrations-append id [] ys = omega arith
registrations-append id (h ∷ xs) ys = omega (arith, registrations-append id xs ys)

registrations-erase_first :
    (id : ℕ) (h : Handle) (hs : List Handle)
    → registrations id (erase_first h hs)
      ≡ registrations id hs - (if h.actor_id == id then 1 else 0)
unfolding erase_first
registrations-erase_first id h [] = omega arith
registrations-erase_first id h (g ∷ gs) = ground (arith, registrations-erase_first id h gs)

-- Registering and unregistering a session counts: each `UnregisterSession` takes back one
-- registration of the session, and none of another one, and nothing where there is none.
pub unregister-register_session :
    (id : ℕ) (h : Handle) (t : TestInterface)
    → (registrations id (register_session (some h) t).test_session_list
        ≡ registrations id t.test_session_list + (if h.actor_id == id then 1 else 0))
      × (registrations id (unregister_session (some h) t).test_session_list
          ≡ registrations id t.test_session_list - (if h.actor_id == id then 1 else 0))
unfolding register_session unregister_session
unregister-register_session id h t = (
  omega (arith, registrations-append id t.test_session_list (h ∷ [])),
  registrations-erase_first id h t.test_session_list,
)
