-- ===== src/Client/Logic/Examples.antt =====
-- Two packets in three pieces, with rounds of the logic thread in between. The packet of a single
-- byte is that of an actor, the other one is unknown.
use actor_model_server.Base.{
  ℕ, ◌≡◌, refl, true, false, some, List, [], ◌∷◌, ◌++◌, arith, length, ◌==◌, if◌then◌else◌,
}
use actor_model_server.NetLib.{PacketFormat}
use actor_model_server.NetLib.Instances.{list_ring, list_ring-RingLaws}
use actor_model_server.SimpleClient.{received}
use actor_model_server.SimpleClient.Receiving.{Frame, IsFrame, packets}
use actor_model_server.Client.{Packet, appear_actor, other}
use actor_model_server.Client.Logic.{Running, ClientStep, receives, thinks, run_client}
use actor_model_server.Client.Logic.Draining.{handled}
use actor_model_server.Client.Logic.Interleaving.{results, Refines, run_client-Refines}
use actor_model_server.Client.Logic.Streams.{run_client_handles_stream}

abbrev plain : PacketFormat
plain = record { header_size = 5; default_size = 16; decode = λ header payload. some payload }

abbrev hello : Frame
hello = record {
  header = 119 ∷ 2 ∷ 0 ∷ 50 ∷ 0 ∷ [];
  payload = 104 ∷ 105 ∷ [];
  packet = 104 ∷ 105 ∷ [];
}

abbrev bye : Frame
bye = record { header = 119 ∷ 1 ∷ 0 ∷ 50 ∷ 0 ∷ []; payload = 98 ∷ []; packet = 98 ∷ [] }

hello-IsFrame : IsFrame plain hello
hello-IsFrame = record {
  header_length = refl;
  stated = refl;
  not_empty = omega arith;
  fits = omega arith;
  decodes = refl;
}

bye-IsFrame : IsFrame plain bye
bye-IsFrame = record {
  header_length = refl;
  stated = refl;
  not_empty = omega arith;
  fits = omega arith;
  decodes = refl;
}

abbrev read : List ℕ → Packet
read bs = if length bs == 1 then appear_actor 4 1 else other 9

abbrev idle : Running list_ring
idle = record {
  receiver = record { ring = []; recv_buffer_queue = []; need_stop = false; socket_open = true };
  actors = [];
  events = [];
}

abbrev chunks : List (List ℕ)
chunks = (119 ∷ 2 ∷ 0 ∷ []) ∷ (50 ∷ 0 ∷ 104 ∷ 105 ∷ 119 ∷ 1 ∷ []) ∷ (0 ∷ 50 ∷ 0 ∷ 98 ∷ []) ∷ []

abbrev steps : List ClientStep
steps =
    receives (received (119 ∷ 2 ∷ 0 ∷ []))
    ∷ thinks
    ∷ receives (received (50 ∷ 0 ∷ 104 ∷ 105 ∷ 119 ∷ 1 ∷ []))
    ∷ thinks
    ∷ receives (received (0 ∷ 50 ∷ 0 ∷ 98 ∷ []))
    ∷ []

run_client-Refines_example :
    (s : Running list_ring) × (done : List (List ℕ)) × (run_client list_ring plain read steps idle
      ≡ some s)
    × Refines list_ring plain read (results steps) idle s done
run_client-Refines_example = run_client-Refines list_ring plain read steps idle (omega arith)

run_client_handles_stream_example :
    (s : Running list_ring) × (run_client list_ring plain read (steps ++ thinks ∷ []) idle ≡ some s)
    × (s.actors ≡ (handled read (packets (hello ∷ bye ∷ [])) []).0)
    × (s.events ≡ (handled read (packets (hello ∷ bye ∷ [])) []).1)
    × (s.receiver.recv_buffer_queue ≡ [])
unfolding list_ring-RingLaws
run_client_handles_stream_example =
    run_client_handles_stream list_ring list_ring-RingLaws plain read 6 (hello ∷ bye ∷ []) chunks
      steps idle refl refl refl refl (omega arith) (hello-IsFrame, (bye-IsFrame, tt))
      (omega arith, (omega arith, (omega arith, tt)))
      (omega arith, (omega arith, (omega arith, tt))) refl
