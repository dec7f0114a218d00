-- ===== src/ServerCore/Timers/Serving/Examples.antt =====
-- A packet that comes in two receives with a round of the logic thread between them.
use actor_model_server.Base.{ℕ, ◌+◌, ◌≡◌, refl, true, some, List, [], ◌∷◌, ◌++◌, arith}
use actor_model_server.Base.Int.{pos}
use actor_model_server.Base.UnorderedMap.{Map, find}
use actor_model_server.Deserializer.{
  primitive, value, deserialize, deserialize_impl, deserialize_one, read_primitive,
}
use actor_model_server.NetLib.{PacketFormat}
use actor_model_server.NetLib.Instances.{list_ring, list_ring-RingLaws, list_queue}
use actor_model_server.Actor.{Action}
use actor_model_server.Actor.Quiet.{IsQuiet}
use actor_model_server.Actor.Packets.{
  MessageFactory, PacketMessage, ignored, handle, create_message_from_packet, find_function_object,
  apply_factory, message_of,
}
use actor_model_server.Actor.Packets.Instances.{list_buffer}
use actor_model_server.Session.{Session, IoEvent, io_none_sending}
use actor_model_server.SimpleClient.Receiving.{Frame, IsFrame}
use actor_model_server.ServerCore.Timers.Serving.{wakes, run_session}
use actor_model_server.ServerCore.Timers.Serving.Executing.{
  Turn, arrives, thinks, steps_of, serving, run_session_executes,
}

abbrev plain : PacketFormat
plain = record { header_size = 5; default_size = 16; decode = λ header payload. some payload }

abbrev nine : Frame
nine = record {
  header = 119 ∷ 5 ∷ 0 ∷ 50 ∷ 0 ∷ [];
  payload = 3 ∷ 0 ∷ 0 ∷ 0 ∷ 9 ∷ [];
  packet = 3 ∷ 0 ∷ 0 ∷ 0 ∷ 9 ∷ [];
}

nine-IsFrame : IsFrame plain nine
nine-IsFrame = record {
  header_length = refl;
  stated = refl;
  not_empty = omega arith;
  fits = omega arith;
  decodes = refl;
}

-- Each call of a handler adds the handler's number.
abbrev add_up : PacketMessage ℕ → ℕ → ℕ × List (Action (PacketMessage ℕ))
add_up ignored w = (w, [])
add_up (handle h args) w = (w + h, [])

add_up-IsQuiet : IsQuiet add_up
add_up-IsQuiet ignored w = refl
add_up-IsQuiet (handle h args) w = refl

abbrev idle : Session list_queue
idle = record {
  sock_open = true;
  io_count = pos 1;
  is_using_session = true;
  recv_stored_queue = [];
  buffer_count = 0;
  io_mode = io_none_sending;
  send_queue = [];
  send_buffer_store = [];
}

abbrev factories : Map (MessageFactory ℕ)
factories = (3, record { handler = 77; types = primitive 1 ∷ [] }) ∷ []

abbrev byte : PacketMessage ℕ
byte = handle 77 (value (9 ∷ []) ∷ [])

makes_byte : create_message_from_packet list_buffer nine.packet factories ≡ some byte
unfolding create_message_from_packet find_function_object find apply_factory message_of deserialize
    deserialize_impl deserialize_one read_primitive
makes_byte = refl

abbrev turns : List (Turn ℕ)
turns =
    arrives (119 ∷ 5 ∷ 0 ∷ []) [] [] (119 ∷ 5 ∷ 0 ∷ [])
    ∷ thinks
    ∷ arrives (50 ∷ 0 ∷ 3 ∷ 0 ∷ 0 ∷ 0 ∷ 9 ∷ 119 ∷ []) (nine ∷ []) (byte ∷ []) (119 ∷ [])
    ∷ []

run_session_executes_example :
    (left : List ℕ) × (events : List IoEvent) × (run_session list_ring list_queue plain list_buffer
        (λ bs. bs)
        add_up
        (steps_of turns ++ wakes ∷ [])
        (serving list_ring list_queue idle factories [] (handle 5 [] ∷ []) 1)
      ≡ some (serving list_ring list_queue idle factories left [] 83, events))
    × (left ≡ 119 ∷ [])
unfolding list_ring-RingLaws
run_session_executes_example =
    run_session_executes list_ring list_ring-RingLaws list_queue plain list_buffer (λ bs. bs) add_up
      turns idle factories [] (handle 5 [] ∷ []) 1 0 add_up-IsQuiet refl
      (
        tt,
        tt,
        omega arith,
        refl,
        omega arith,
        ((nine-IsFrame, tt), (makes_byte, tt), omega arith, refl, omega arith, tt),
      )
