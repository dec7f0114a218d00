-- ===== src/ServerCore/RecvPath/Examples.antt =====
-- The server's receive path on a packet of id 3 whose handler takes a byte.
use actor_model_server.Base.{Bool, if◌then◌else◌}
use actor_model_server.Session.{IoEvent}
use actor_model_server.ServerCore.RecvPath.Termination.{
  on_recv_io_completed_balances, releases, released_at,
}
use actor_model_server.Base.{ℕ, ◌-◌, ◌≡◌, refl, true, false, some, List, [], ◌∷◌, arith, ◌-◌}
use actor_model_server.Base.Int.{pos}
use actor_model_server.Base.UnorderedMap.{find}
use actor_model_server.Deserializer.{
  primitive, value, deserialize, deserialize_impl, deserialize_one, read_primitive,
}
use actor_model_server.NetLib.{PacketFormat}
use actor_model_server.NetLib.Instances.{list_ring, list_ring-RingLaws, list_queue}
use actor_model_server.Actor.Packets.{
  handle, create_message_from_packet, find_function_object, apply_factory, message_of,
}
use actor_model_server.Actor.Packets.Instances.{list_buffer}
use actor_model_server.Session.{io_none_sending, wsa_recv}
use actor_model_server.SimpleClient.{ended, packet_round}
use actor_model_server.SimpleClient.Receiving.{Frame, IsFrame}
use actor_model_server.ServerCore.RecvPath.{Connection, on_recv_io_completed, recv_stream_to_buffer}
use actor_model_server.ServerCore.RecvPath.Delivery.{on_recv_io_completed_delivers}
use actor_model_server.ServerCore.RecvPath.Truncation.{recv_stream_to_buffer_takes_part}

abbrev plain : PacketFormat
plain = record { header_size = 5; default_size = 16; decode = λ header payload. some payload }

abbrev ping : Frame
ping = record {
  header = 119 ∷ 5 ∷ 0 ∷ 50 ∷ 0 ∷ [];
  payload = 3 ∷ 0 ∷ 0 ∷ 0 ∷ 9 ∷ [];
  packet = 3 ∷ 0 ∷ 0 ∷ 0 ∷ 9 ∷ [];
}

ping-IsFrame : IsFrame plain ping
ping-IsFrame = record {
  header_length = refl;
  stated = refl;
  not_empty = omega arith;
  fits = omega arith;
  decodes = refl;
}

-- One byte of a packet is in the ring, and a message is in the mailbox.
abbrev connection : Connection list_ring list_queue ℕ ℕ
connection = record {
  session = record {
    sock_open = true;
    io_count = pos 1;
    is_using_session = false;
    recv_stored_queue = [];
    buffer_count = 0;
    io_mode = io_none_sending;
    send_queue = [];
    send_buffer_store = [];
  };
  ring_buffer = 119 ∷ [];
  actor = record {
    consumer_queue = [];
    store_queue = some (handle 5 []) ∷ [];
    is_stop = false;
    world = 0;
  };
  factories = (3, record { handler = 77; types = primitive 1 ∷ [] }) ∷ [];
}

pings :
    create_message_from_packet list_buffer (3 ∷ 0 ∷ 0 ∷ 0 ∷ 9 ∷ []) connection.factories
    ≡ some (handle 77 (value (9 ∷ []) ∷ []))
unfolding create_message_from_packet find_function_object find apply_factory message_of deserialize
    deserialize_impl deserialize_one read_primitive
pings = refl

on_recv_io_completed_delivers_example :
    (left : List ℕ) × (on_recv_io_completed list_ring list_queue plain list_buffer
        (λ bs. bs)
        (5 ∷ 0 ∷ 50 ∷ 0 ∷ 3 ∷ 0 ∷ 0 ∷ 0 ∷ 9 ∷ 119 ∷ 5 ∷ [])
        true
        connection
      ≡ some (
        record connection {
          ring_buffer = left;
          actor = record connection.actor {
            store_queue = some (handle 5 []) ∷ some (handle 77 (value (9 ∷ []) ∷ [])) ∷ [];
          };
        },
        wsa_recv
              (list_ring.get_not_broken_put_size left)
              (list_ring.get_free_size left - list_ring.get_not_broken_put_size left)
            ∷ [],
        true,
      ))
    × (left ≡ 119 ∷ 5 ∷ [])
unfolding list_ring-RingLaws
on_recv_io_completed_delivers_example =
    on_recv_io_completed_delivers list_ring list_ring-RingLaws list_queue plain list_buffer
      (λ bs. bs) (ping ∷ []) (handle 77 (value (9 ∷ []) ∷ []) ∷ []) (119 ∷ 5 ∷ [])
      (5 ∷ 0 ∷ 50 ∷ 0 ∷ 3 ∷ 0 ∷ 0 ∷ 0 ∷ 9 ∷ 119 ∷ 5 ∷ []) 0 connection (ping-IsFrame, tt)
      (pings, tt) (omega arith) refl (omega arith) refl refl

recv_stream_to_buffer_takes_part_example :
    (packet_round list_ring plain 7 (119 ∷ 5 ∷ 0 ∷ 50 ∷ 0 ∷ 3 ∷ 0 ∷ [])
      ≡ ended true (119 ∷ 5 ∷ 0 ∷ 50 ∷ 0 ∷ 3 ∷ 0 ∷ []))
    × (recv_stream_to_buffer list_ring plain 7 (119 ∷ 5 ∷ 0 ∷ 50 ∷ 0 ∷ 3 ∷ 0 ∷ [])
        ≡ record { packet = some (3 ∷ 0 ∷ []); ring = []; rest_size = 0 })
    × (◌≡◌ {A = List ℕ} [] [])
unfolding list_ring-RingLaws
recv_stream_to_buffer_takes_part_example =
    recv_stream_to_buffer_takes_part list_ring list_ring-RingLaws plain
      (119 ∷ 5 ∷ 0 ∷ 50 ∷ 0 ∷ 3 ∷ 0 ∷ []) (119 ∷ 5 ∷ 0 ∷ 50 ∷ 0 ∷ []) (3 ∷ 0 ∷ []) (3 ∷ 0 ∷ []) 7
      refl refl refl (omega arith) (omega arith) (omega arith) refl

-- A packet without a handler, on a session with one I/O.
on_recv_io_completed_balances_example :
    (c : Connection list_ring list_queue ℕ ℕ) × (events : List IoEvent) × (result : Bool)
    × (on_recv_io_completed list_ring list_queue plain list_buffer
          (λ bs. bs)
          (5 ∷ 0 ∷ 50 ∷ 0 ∷ 4 ∷ 0 ∷ 0 ∷ 0 ∷ 9 ∷ [])
          true
          connection
        ≡ some (c, events, result))
    × (c.session.io_count ≡ (if result then pos 1 else pos 0))
    × (releases events ≡ (if result then 0 else released_at 0))
on_recv_io_completed_balances_example =
    on_recv_io_completed_balances list_ring list_queue plain list_buffer (λ bs. bs)
      (5 ∷ 0 ∷ 50 ∷ 0 ∷ 4 ∷ 0 ∷ 0 ∷ 0 ∷ 9 ∷ []) true 0 connection (omega arith) refl
