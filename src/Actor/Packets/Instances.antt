-- ===== src/Actor/Packets/Instances.antt =====
-- A `NetBuffer` for which the laws of Actor/Packets.antt hold.
use actor_model_server.Base.{ℕ, refl, List, take, drop, length, length-drop, arith}
use actor_model_server.Deserializer.{little_endian}
use actor_model_server.Actor.Packets.{NetBufferOps, NetBufferLaws}

-- A buffer that is its unread bytes.
abbrev pub list_buffer : NetBufferOps
list_buffer = record {
  Buffer = List ℕ;
  get_use_size = length;
  get_read_buffer_ptr = λ b. b;
  read_packet_id = λ b. (little_endian (take 4 b), drop 4 b);
}

pub list_buffer-NetBufferLaws : NetBufferLaws list_buffer
list_buffer-NetBufferLaws = record {
  backed = λ b. omega arith;
  reads = λ b h. (refl, refl, omega (arith, length-drop 4 b));
}
