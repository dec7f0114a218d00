-- ===== src/Contents/Player/Examples.antt =====
-- A player that receives a Ping with a byte behind its id, and a packet of the id 3.
use actor_model_server.Base.{ℕ, ◌≡◌, refl, true, none, some, List, [], ◌∷◌, ◌++◌, arith}
use actor_model_server.Base.Int.{pos}
use actor_model_server.Base.UnorderedMap.{Map}
use actor_model_server.NetLib.Instances.{list_queue, list_queue-QueueLaws}
use actor_model_server.Actor.Packets.{MessageFactory, PacketMessage, create_message_from_packet}
use actor_model_server.Actor.Packets.Dispatch.{le32}
use actor_model_server.Actor.Packets.Instances.{list_buffer, list_buffer-NetBufferLaws}
use actor_model_server.Session.{Session, io_none_sending, wsa_send}
use actor_model_server.Contents.Player.{PacketHandler, new_player, call}
use actor_model_server.Contents.Player.Answering.{new_player_answers}

abbrev connected : Session list_queue
connected = record {
  sock_open = true;
  io_count = pos 1;
  is_using_session = true;
  recv_stored_queue = [];
  buffer_count = 0;
  io_mode = io_none_sending;
  send_queue = [];
  send_buffer_store = [];
}

-- A buffer is named by its first byte.
abbrev first_byte : List ℕ → ℕ
first_byte [] = 0
first_byte (b ∷ bs) = b

new_player_answers_example :
    (factories : Map (MessageFactory PacketHandler)) × (m : PacketMessage PacketHandler)
    × (left : Session list_queue) × (new_player ≡ some factories)
    × (create_message_from_packet list_buffer (le32 1 ++ 9 ∷ []) factories ≡ some m)
    × (create_message_from_packet list_buffer (le32 3) factories ≡ none)
    × (call list_queue le32 true first_byte (λ a. 0) 100 true m connected
        ≡ some (left, wsa_send (2 ∷ []) ∷ [], true))
unfolding list_queue-QueueLaws
new_player_answers_example =
    new_player_answers list_queue list_queue-QueueLaws list_buffer list_buffer-NetBufferLaws le32
      first_byte (λ a. 0) 100 (le32 1 ++ 9 ∷ []) (le32 3) (9 ∷ []) connected refl (omega arith)
      (λ e. absurd (omega (arith, e))) refl refl
