-- ===== src/ServerCore/Startup/Failing.antt =====
-- When `StartServer` fails, and what it leaves running.
use actor_model_server.Base.{
  ℕ, ◌≡◌, refl, ap, ◌∙◌, Bool, true, false, Option, none, some, ◌&&◌, not, arith,
}
use actor_model_server.ServerCore.Startup.{
  OptionFile, NetworkAnswers, PortHandle, null_handle, invalid_handle_value, port_handle, Started,
  and_then, get_value, option_parsing, init_network, init_threads, set_session_factory, create_port,
  start_server, is_invalid_handle_value,
}

abbrev pub is_some {ℓ} : {A : Type ℓ} → Option A → Bool
is_some none = false
is_some (some a) = true

abbrev pub has_all : Option OptionFile → Bool
has_all none = false
has_all (some f) =
    is_some f.bind_port
    && (is_some f.worker_thread
        && (is_some f.using_worker_thread
            && (is_some f.logic_thread && (is_some f.packet_code && is_some f.packet_key))))

abbrev pub all_succeed : NetworkAnswers → Bool
all_succeed a = a.startup_succeeds && (a.socket_succeeds && (a.bind_succeeds && a.listen_succeeds))

abbrev pub value_or : ℕ → Option ℕ → ℕ
value_or n none = n
value_or n (some m) = m

module _ (Factory : Type 0) where
  option_parsing_answers :
      (file : Option OptionFile) (s : Started Factory)
      → (option_parsing Factory file s).1 ≡ has_all file
  unfolding option_parsing and_then get_value
  option_parsing_answers none s = refl
  option_parsing_answers (some f) s = ground arith

  init_network_answers :
      (answers : NetworkAnswers) (s : Started Factory)
      → (init_network Factory answers s).1 ≡ all_succeed answers
  unfolding init_network
  init_network_answers answers s = ground arith

  and_then_answers :
      (r : Started Factory × Bool) (next : Started Factory → Started Factory × Bool)
      → (and_then Factory r next).1 ≡ (r.1 && (next r.0).1)
  unfolding and_then
  and_then_answers (s, true) next = refl
  and_then_answers (s, false) next = refl

  and_then_goes_on :
      (r : Started Factory × Bool) (next : Started Factory → Started Factory × Bool)
      → r.1 ≡ true
      → and_then Factory r next ≡ next r.0
  unfolding and_then
  and_then_goes_on (s, true) next e = refl
  and_then_goes_on (s, false) next e = cc

  set_session_factory_answers :
      (factory : Option Factory) (s : Started Factory)
      → (set_session_factory Factory factory s).1 ≡ is_some factory
  unfolding set_session_factory
  set_session_factory_answers none s = refl
  set_session_factory_answers (some f) s = refl

  create_port_answers :
      (handle : PortHandle) (s : Started Factory)
      → (create_port Factory handle s).1 ≡ not (is_invalid_handle_value handle)
  unfolding create_port
  create_port_answers null_handle s = refl
  create_port_answers invalid_handle_value s = refl
  create_port_answers port_handle s = refl

  -- `StartServer` returns true exactly if the option file opens and has its six values, the four
  -- calls of the network succeed, there is a session factory, and the completion port is not
  -- INVALID_HANDLE_VALUE.
  pub start_server_lem :
      (file : Option OptionFile) (answers : NetworkAnswers) (factory : Option Factory)
      (handle : PortHandle) (s : Started Factory)
      → (start_server Factory file answers factory handle s).1 ≡ (
          has_all file
          && (all_succeed answers && (is_some factory && not (is_invalid_handle_value handle))))
  unfolding start_server init_threads
  start_server_lem file answers factory handle s =
      let parsed = option_parsing Factory file s in
      let network = and_then Factory parsed (init_network Factory answers) in
      let threads = and_then Factory network (init_threads Factory) in
      let ready = and_then Factory threads (set_session_factory Factory factory) in
      ground (
        arith,
        option_parsing_answers file s,
        and_then_answers parsed (init_network Factory answers),
        init_network_answers answers parsed.0,
        and_then_answers network (init_threads Factory),
        and_then_answers threads (set_session_factory Factory factory),
        set_session_factory_answers factory threads.0,
        and_then_answers ready (create_port Factory handle),
        create_port_answers handle ready.0,
      )

  set_session_factory_keeps :
      (factory : Option Factory) (s : Started Factory)
      → ((set_session_factory Factory factory s).0.accept_thread ≡ s.accept_thread)
        × ((set_session_factory Factory factory s).0.is_listening ≡ s.is_listening)
  unfolding set_session_factory
  set_session_factory_keeps none s = (refl, refl)
  set_session_factory_keeps (some f) s = (refl, refl)

  create_port_keeps :
      (handle : PortHandle) (s : Started Factory)
      → ((create_port Factory handle s).0.accept_thread ≡ s.accept_thread)
        × ((create_port Factory handle s).0.is_listening ≡ s.is_listening)
  unfolding create_port
  create_port_keeps null_handle s = (refl, refl)
  create_port_keeps invalid_handle_value s = (refl, refl)
  create_port_keeps port_handle s = (refl, refl)

  init_network_listens :
      (answers : NetworkAnswers) (s : Started Factory)
      → all_succeed answers ≡ true
      → ((init_network Factory answers s).0.is_listening ≡ true)
  unfolding init_network
  init_network_listens answers s h = ground arith

  and_then_keeps :
      (P : Started Factory → Type 0) (r : Started Factory × Bool)
      (next : Started Factory → Started Factory × Bool)
      → P r.0
      → ((s : Started Factory) → P s → P (next s).0)
      → P (and_then Factory r next).0
  unfolding and_then
  and_then_keeps P (s, true) next h keeps = keeps s h
  and_then_keeps P (s, false) next h keeps = h

  abbrev Listens : Started Factory → Type 0
  Listens s = (s.accept_thread ≡ true) × (s.is_listening ≡ true)

  -- Once options and network are in order, `StartServer` leaves the accept thread running on a
  -- listening socket, whether it succeeds or not; it fails then exactly if there is no session
  -- factory or the completion port is INVALID_HANDLE_VALUE. So it succeeds with a null port.
  pub start_server_leaves_threads :
      (file : Option OptionFile) (answers : NetworkAnswers) (factory : Option Factory)
      (handle : PortHandle) (s : Started Factory)
      → has_all file ≡ true
      → all_succeed answers ≡ true
      → let (s', started) = start_server Factory file answers factory handle s in
        (s'.accept_thread ≡ true)
        × (s'.is_listening ≡ true)
        × (started ≡ (is_some factory && not (is_invalid_handle_value handle)))
  unfolding start_server init_threads
  start_server_leaves_threads file answers factory handle s parses connects =
      let parsed = option_parsing Factory file s in
      let network = and_then Factory parsed (init_network Factory answers) in
      let threads = and_then Factory network (init_threads Factory) in
      let ready = and_then Factory threads (set_session_factory Factory factory) in
      let e =
        and_then_goes_on parsed (init_network Factory answers)
          (option_parsing_answers file s ∙ parses) in
      let e' = and_then_goes_on network (init_threads Factory) (
        ap (λ (r : Started Factory × Bool). r.1) e
        ∙ init_network_answers answers parsed.0
        ∙ connects) in
      let listening : Listens threads.0 = (
        ap (λ (r : Started Factory × Bool). r.0.accept_thread) e',
        ap (λ (r : Started Factory × Bool). r.0.is_listening) e'
            ∙ ap (λ (r : Started Factory × Bool). r.0.is_listening) e
            ∙ init_network_listens answers parsed.0 connects,
      ) in
      let set_up : Listens ready.0 =
        and_then_keeps Listens threads (set_session_factory Factory factory) listening (λ t h. (
          (set_session_factory_keeps factory t).0 ∙ h.0,
          (set_session_factory_keeps factory t).1 ∙ h.1,
        )) in
      let done : Listens (and_then Factory ready (create_port Factory handle)).0 =
        and_then_keeps Listens ready (create_port Factory handle) set_up
          (λ t h. ((create_port_keeps handle t).0 ∙ h.0, (create_port_keeps handle t).1 ∙ h.1)) in
      (done.0, done.1, start_server_lem file answers factory handle s ∙ ground arith)
