-- ===== src/TestSupport/Examples.antt =====
-- A packet that a test sends to an actor.
use actor_model_server.Base.{ℕ, ◌≡◌, refl, false, some, List, [], ◌∷◌}
use actor_model_server.Base.UnorderedMap.{find}
use actor_model_server.Deserializer.{
  deserialize, deserialize_impl, primitive, deserialize_one, read_primitive, value,
}
use actor_model_server.Actor.{Actor, Action, stops, process_message, send_message}
use actor_model_server.Actor.Packets.{
  MessageFactory, PacketMessage, handle, ignored, create_message_from_packet, find_function_object,
  apply_factory, message_of,
}
use actor_model_server.Base.UnorderedMap.{Map}
use actor_model_server.Actor.Packets.Instances.{list_buffer}
use actor_model_server.TestSupport.{send_packet_for_test}
use actor_model_server.TestSupport.Packets.{send_packet_for_test_delivers}

-- The handler takes a byte as the new world and stops the actor.
abbrev invoke : PacketMessage ℕ → ℕ → ℕ × List (Action (PacketMessage ℕ))
invoke ignored w = (w, [])
invoke (handle h []) w = (w, [])
invoke (handle h (a ∷ args)) w = (h, stops ∷ [])

abbrev factories : Map (MessageFactory ℕ)
factories = (3, record { handler = 50; types = primitive 1 ∷ [] }) ∷ []

abbrev actor : Actor (PacketMessage ℕ) ℕ
actor = record { consumer_queue = []; store_queue = []; is_stop = false; world = 1 }

abbrev message : PacketMessage ℕ
message = handle 50 (value (9 ∷ []) ∷ [])

send_packet_for_test_delivers_example :
    send_packet_for_test list_buffer invoke (3 ∷ 0 ∷ 0 ∷ 0 ∷ 9 ∷ []) factories actor
    ≡ process_message invoke (send_message (some message) actor).0
unfolding create_message_from_packet find_function_object apply_factory message_of find deserialize
    deserialize_impl deserialize_one read_primitive
send_packet_for_test_delivers_example =
    send_packet_for_test_delivers list_buffer invoke (3 ∷ 0 ∷ 0 ∷ 0 ∷ 9 ∷ []) factories message
      actor refl refl refl refl
