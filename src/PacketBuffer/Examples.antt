-- ===== src/PacketBuffer/Examples.antt =====
-- A packet of one byte at the address 100, in two memories that differ in that byte.
use actor_model_server.Base.{
  ℕ, ◌≤◌, ◌≡◌, true, some, List, [], ◌∷◌, ◌++◌, ltb, if◌then◌else◌, arith,
}
use actor_model_server.PacketBuffer.{
  IPacket, bytes_at, client_packet_buffer, build_packet_buffer, client_packet_buffer_misses,
}

abbrev one_byte : IPacket
one_byte = record { address = 100; packet_id = 3; packet_size = 1 }

abbrev with_byte : ℕ → ℕ → ℕ
with_byte b a = if ltb a 109 then b else 0

abbrev plain_id : ℕ → List ℕ
plain_id n = n ∷ 0 ∷ 0 ∷ 0 ∷ []

same_beyond : (a : ℕ) → 109 ≤ a → with_byte 7 a ≡ with_byte 9 a
same_beyond a h = ground arith

client_packet_buffer_misses_example :
    (client_packet_buffer plain_id (with_byte 7) one_byte
      ≡ client_packet_buffer plain_id (with_byte 9) one_byte)
    × (build_packet_buffer plain_id true (with_byte 7) one_byte
        ≡ some (plain_id 3 ++ bytes_at (with_byte 7) 108 1))
client_packet_buffer_misses_example =
    client_packet_buffer_misses plain_id (with_byte 7) (with_byte 9) one_byte (omega arith)
      same_beyond
