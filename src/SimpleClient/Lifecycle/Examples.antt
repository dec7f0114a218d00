-- ===== src/SimpleClient/Lifecycle/Examples.antt =====
-- A client that the server refuses.
use actor_model_server.Base.{◌≡◌, true, false, [], ◌∷◌, ◌&&◌}
use actor_model_server.SimpleClient.Sending.{connect_to_server}
use actor_model_server.SimpleClient.Lifecycle.{fresh, start_client, start_client_lem}

start_client_lem_example :
    ((start_client true true true (false ∷ []) fresh).1
      ≡ (true && (true && (true && connect_to_server (false ∷ [])))))
    × ((start_client true true true (false ∷ []) fresh).0 ≡ record {
      need_stop = false;
      wsa_started = (start_client true true true (false ∷ []) fresh).1;
      socket_open = (start_client true true true (false ∷ []) fresh).1;
      send_event_open = true;
      is_connected = (start_client true true true (false ∷ []) fresh).1;
      recv_thread = (start_client true true true (false ∷ []) fresh).1;
      send_thread = (start_client true true true (false ∷ []) fresh).1;
      logic_thread = true;
    })
start_client_lem_example = start_client_lem true true true (false ∷ [])
