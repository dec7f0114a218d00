-- ===== src/ServerCore/Startup/Examples.antt =====
-- A server that is started without a session factory.
use actor_model_server.Base.{ℕ, ◌≡◌, refl, true, false, some, none}
use actor_model_server.ServerCore.Startup.{
  OptionFile, NetworkAnswers, port_handle, before_start, start_server,
}
use actor_model_server.ServerCore.Startup.Failing.{start_server_leaves_threads}

abbrev options : OptionFile
options = record {
  bind_port = some 6000;
  worker_thread = some 4;
  using_worker_thread = some 2;
  logic_thread = some 2;
  packet_code = some 119;
  packet_key = some 50;
}

abbrev all_well : NetworkAnswers
all_well = record {
  startup_succeeds = true;
  socket_succeeds = true;
  bind_succeeds = true;
  listen_succeeds = true;
}

start_server_leaves_threads_example :
    ((start_server ℕ (some options) all_well none port_handle (before_start ℕ)).0.accept_thread
      ≡ true)
    × ((start_server ℕ (some options) all_well none port_handle (before_start ℕ)).0.is_listening
        ≡ true)
    × ((start_server ℕ (some options) all_well none port_handle (before_start ℕ)).1 ≡ false)
start_server_leaves_threads_example =
    start_server_leaves_threads ℕ (some options) all_well none port_handle (before_start ℕ) refl
      refl
