-- ===== src/ServerCore/Threads/Examples.antt =====
-- The threads of a server of two logic threads at concrete inputs.
use actor_model_server.Base.{ℕ, ◌≡◌, refl, true, false, some, [], ◌∷◌}
use actor_model_server.Base.Int.{pos}
use actor_model_server.Base.UnorderedMap.{find}
use actor_model_server.NetLib.Instances.{list_ring, list_queue}
use actor_model_server.Session.{io_none_sending}
use actor_model_server.Session.Logs.{releases}
use actor_model_server.ServerCore.Startup.{null_handle}
use actor_model_server.ServerCore.Registry.{ServerCore, actor_created, find_session}
use actor_model_server.ServerCore.Threads.{Newcomer, accept_round}
use actor_model_server.ServerCore.Threads.Accepting.{accept_round_registered}

abbrev server : ServerCore
server = record {
  num_of_logic_thread = 2;
  num_of_user = pos 0;
  session_map = λ t. [];
  non_network_actor_map = λ t. [];
  release_threads_queue = λ t. [];
}

abbrev guest : Newcomer list_queue ℕ ℕ
guest = record {
  handle = record { actor_id = 1; thread_id = 1 };
  session = record {
    sock_open = true;
    io_count = pos 0;
    is_using_session = false;
    recv_stored_queue = [];
    buffer_count = 0;
    io_mode = io_none_sending;
    send_queue = [];
    send_buffer_store = [];
  };
  actor = record { consumer_queue = []; store_queue = []; is_stop = false; world = 0 };
}

-- The socket could not be registered, and the first receive fails.
accept_round_registered_example :
    (find_session 1 1
        (accept_round list_ring list_queue 40 null_handle false [] 8 guest server).core
      ≡ some guest.handle)
    × ((accept_round list_ring list_queue 40 null_handle false [] 8 guest
          server).newcomer.session.io_count
        ≡ pos 0)
    × (releases (accept_round list_ring list_queue 40 null_handle false [] 8 guest server).io
        ≡ true)
    × ((accept_round list_ring list_queue 40 null_handle false [] 8 guest server).created
        ≡ actor_created guest.handle ∷ [])
    × ((accept_round list_ring list_queue 40 null_handle false [] 8 guest
          server).newcomer.actor.store_queue
        ≡ some 8 ∷ [])
unfolding find_session find
accept_round_registered_example =
    accept_round_registered list_ring list_queue 40 null_handle false [] 8 guest server refl refl
      refl refl
