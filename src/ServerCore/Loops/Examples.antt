-- ===== src/ServerCore/Loops/Examples.antt =====
-- The loops of a server of two logic threads.
use actor_model_server.Base.{
  ℕ, ◌+◌, ◌≡◌, refl, true, false, none, some, List, [], ◌∷◌, arith, Bool, Option, if◌then◌else◌,
  ◌==◌,
}
use actor_model_server.Base.Int.{pos}
use actor_model_server.NetLib.Instances.{list_ring, list_queue}
use actor_model_server.Session.{io_none_sending}
use actor_model_server.ServerCore.RecvPath.{recv_overlapped}
use actor_model_server.Base.UnorderedMap.{find, contains}
use actor_model_server.ServerCore.Registry.{ServerCore, Handle, actor_created, find_session}
use actor_model_server.ServerCore.Registry.Accounting.{disconnections, one_if_there}
use actor_model_server.ServerCore.Threads.{
  Newcomer, accept_round, allocate_key, stop_io_threads, io_round, keyed_round, found_round,
}
use actor_model_server.ServerCore.Startup.{null_handle, invalid_handle_value, port_handle}
use actor_model_server.ServerCore.Loops.{
  AcceptResult, client, interrupted, accept_failed, running, returned, Completion,
  run_accept_thread, run_io_thread, queue_event, release_stop_event, run_release_thread,
  stop_server,
}
use actor_model_server.ServerCore.Loops.Accepting.{run_accept_thread_registers}
use actor_model_server.ServerCore.Loops.Keys.{
  run_io_thread_frees, freed_keys, occurrences, completions_of,
}
use actor_model_server.ServerCore.Loops.Releasing.{run_release_thread_balances}
use actor_model_server.ServerCore.Loops.Stopping.{stop_server_never_returns, is_some}

abbrev player : ℕ → Handle
player id = record { actor_id = id; thread_id = 1 }

abbrev server : ServerCore
server = record {
  num_of_logic_thread = 2;
  num_of_user = pos 2;
  session_map = λ t. (3, player 3) ∷ (5, player 5) ∷ [];
  non_network_actor_map = λ t. [];
  release_threads_queue = λ t. [];
}

abbrev newcomer : ℕ → Newcomer list_queue ℕ ℕ
newcomer id = record {
  handle = player id;
  session = record {
    sock_open = true;
    io_count = pos 0;
    is_using_session = false;
    recv_stored_queue = [];
    buffer_count = 0;
    io_mode = io_none_sending;
    send_queue = [];
    send_buffer_store = [];
  };
  actor = record { consumer_queue = []; store_queue = []; is_stop = false; world = 0 };
}

-- It refuses the socket 8.
abbrev factory : ℕ → Option (Newcomer list_queue ℕ ℕ × List ℕ)
factory sock = if sock == 8 then none else some (newcomer sock, [])

-- Two sockets have a session of the id 7, the factory refuses the socket 8, the socket 9 is not
-- registered, and the one of 11 cannot be.
abbrev arrivals : List AcceptResult
arrivals =
    client 7 40 port_handle true
    ∷ client 8 41 port_handle true
    ∷ accept_failed
    ∷ client 9 42 null_handle false
    ∷ client 7 43 port_handle true
    ∷ client 11 44 invalid_handle_value true
    ∷ interrupted
    ∷ client 13 45 port_handle true
    ∷ []

run_accept_thread_registers_example :
    let loop = run_accept_thread list_ring list_queue (some factory) 0 arrivals server in
    (find_session 9 1 loop.core ≡ some (player 9))
    × (loop.core.num_of_user ≡ pos 5)
    × (loop.core.non_network_actor_map ≡ server.non_network_actor_map)
    × (loop.created
        ≡ actor_created (player 7) ∷ actor_created (player 9) ∷ actor_created (player 7) ∷ [])
    × (loop.accept_end ≡ returned)
unfolding find_session find
run_accept_thread_registers_example =
    run_accept_thread_registers list_ring list_queue factory 0 arrivals server 9 1 2 refl

-- Two completions of the session 3, whose key is in the cell 40, and one of another between them.
abbrev completion : ℕ → ℕ → Completion
completion cell id = record {
  iocp_retval = true;
  overlapped = some recv_overlapped;
  key = some (cell, record { session_id = id; key_thread_id = 1 });
  core = server;
}

abbrev completions : List (Bool × Completion)
completions = (true, completion 40 3) ∷ (false, completion 41 5) ∷ (true, completion 40 3) ∷ []

run_io_thread_frees_example :
    (occurrences 40 (freed_keys (run_io_thread none (completions_of completions)).0) ≡ 2)
    × ((run_io_thread none (completions_of completions)).1 ≡ running)
unfolding io_round keyed_round found_round find_session find accept_round allocate_key
run_io_thread_frees_example =
    run_io_thread_frees list_ring list_queue 40 port_handle true [] 0 (newcomer 3) server
      completions (refl, (refl, (refl, tt))) (refl, (refl, (refl, tt)))

-- The session 3 is handed over twice, and the stop event follows.
run_release_thread_balances_example :
    disconnections 3
        (run_release_thread false
          ((3 ∷ 4 ∷ [], queue_event) ∷ (3 ∷ [], queue_event) ∷ ([], release_stop_event) ∷ [])
          1
          server).1
      + one_if_there 3 (
          (run_release_thread false
              ((3 ∷ 4 ∷ [], queue_event) ∷ (3 ∷ [], queue_event) ∷ ([], release_stop_event) ∷ [])
              1
              server).0.session_map
            1)
    ≡ one_if_there 3 (server.session_map 1)
unfolding contains
run_release_thread_balances_example =
    run_release_thread_balances
      ((3 ∷ 4 ∷ [], queue_event) ∷ (3 ∷ [], queue_event) ∷ ([], release_stop_event) ∷ []) 1 3 server
      (record { unique = (refl, (refl, tt)); named = (refl, (refl, tt)); own = tt })

stop_server_never_returns_example :
    (stop_server false 1000 (0 ∷ []) (0 ∷ []) server ≡ false)
    × (stop_server true 1000 (0 ∷ []) (0 ∷ []) server
        ≡ is_some (stop_io_threads (0 ∷ []) (0 ∷ []) (0 ∷ []) server))
stop_server_never_returns_example =
    stop_server_never_returns 1000 (0 ∷ []) (0 ∷ []) server (omega arith)
