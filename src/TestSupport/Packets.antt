-- ===== src/TestSupport/Packets.antt =====
-- A packet that a test sends beside one that comes over the network.
use actor_model_server.Base.{◌≡◌, false, some, List, []}
use actor_model_server.Base.UnorderedMap.{Map}
use actor_model_server.Actor.{Actor, Action, send_message, process_message}
use actor_model_server.Actor.Delivery.{process_one}
use actor_model_server.Actor.Packets.{
  NetBufferOps, MessageFactory, PacketMessage, create_message_from_packet,
}
use actor_model_server.TestSupport.{run_for_test, send_packet_for_test}

module _ (buffers : NetBufferOps) {H W : Type 0}
    (invoke : PacketMessage H → W → W × List (Action (PacketMessage H))) where
  -- On an actor that runs and has no messages, a packet that a test sends does what the same packet
  -- does when its message goes through the mailbox and the mailbox is processed: the handler's
  -- effect on the world, the messages that it sends to the actor, which wait, and its `Stop`.
  pub send_packet_for_test_delivers :
      (b : buffers.Buffer) (factories : Map (MessageFactory H)) (m : PacketMessage H)
      (a : Actor (PacketMessage H) W)
      → create_message_from_packet buffers b factories ≡ some m
      → a.is_stop ≡ false
      → a.store_queue ≡ []
      → a.consumer_queue ≡ []
      → send_packet_for_test buffers invoke b factories a
        ≡ process_message invoke (send_message (some m) a).0
  unfolding send_packet_for_test run_for_test send_message
  send_packet_for_test_delivers b factories m a makes on empty idle =
      rw (makes, run_for_test) (process_one invoke m a on empty idle)
