-- ===== src/SimpleClient/Examples.antt =====
-- The client's receive path on two packets, with a header of five bytes and a `Decode` that gives
-- the payload.
use actor_model_server.Base.{ℕ, ◌≡◌, refl, true, false, some, List, [], ◌∷◌, arith, map}
use actor_model_server.NetLib.{PacketFormat}
use actor_model_server.NetLib.Instances.{list_ring, list_ring-RingLaws}
use actor_model_server.SimpleClient.{Receiver, received, run_recv_thread}
use actor_model_server.SimpleClient.Receiving.{Frame, IsFrame}
use actor_model_server.SimpleClient.Reassembly.{reassembly}

abbrev plain : PacketFormat
plain = record { header_size = 5; default_size = 16; decode = λ header payload. some payload }

abbrev hello : Frame
hello = record {
  header = 119 ∷ 2 ∷ 0 ∷ 50 ∷ 0 ∷ [];
  payload = 104 ∷ 105 ∷ [];
  packet = 104 ∷ 105 ∷ [];
}

abbrev bye : Frame
bye = record { header = 119 ∷ 1 ∷ 0 ∷ 50 ∷ 0 ∷ []; payload = 98 ∷ []; packet = 98 ∷ [] }

hello-IsFrame : IsFrame plain hello
hello-IsFrame = record {
  header_length = refl;
  stated = refl;
  not_empty = omega arith;
  fits = omega arith;
  decodes = refl;
}

bye-IsFrame : IsFrame plain bye
bye-IsFrame = record {
  header_length = refl;
  stated = refl;
  not_empty = omega arith;
  fits = omega arith;
  decodes = refl;
}

abbrev chunks : List (List ℕ)
chunks = (119 ∷ 2 ∷ 0 ∷ []) ∷ (50 ∷ 0 ∷ 104 ∷ 105 ∷ 119 ∷ 1 ∷ []) ∷ (0 ∷ 50 ∷ 0 ∷ 98 ∷ []) ∷ []

abbrev idle_client : Receiver list_ring
idle_client = record { ring = []; recv_buffer_queue = []; need_stop = false; socket_open = true }

reassembly_example :
    (c : Receiver list_ring) × (run_recv_thread list_ring plain (map received chunks) idle_client
      ≡ some c)
    × (c.recv_buffer_queue ≡ (104 ∷ 105 ∷ []) ∷ (98 ∷ []) ∷ [])
    × (c.ring ≡ [])
    × (c.need_stop ≡ false)
unfolding list_ring-RingLaws
reassembly_example =
    reassembly list_ring list_ring-RingLaws plain 6 (hello ∷ bye ∷ []) chunks idle_client refl refl
      refl (hello-IsFrame, (bye-IsFrame, tt)) (omega arith, (omega arith, (omega arith, tt)))
      (omega arith, (omega arith, (omega arith, tt))) refl
