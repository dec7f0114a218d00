-- ===== src/PacketBuffer.antt =====
-- ActorModelServer/ActorModelServer/Session.cpp, `BuildPacketBuffer`, and TestClient/Client.cpp,
-- `SendPacket`: how a packet object becomes the contents of a buffer, before `Encode`. A packet is an
-- object in memory, a function of addresses; what `operator<<` writes for its id is a parameter.
mod Examples
use actor_model_server.Base.{
  ℕ, zero, suc, ◌+◌, ◌*◌, ◌≤◌, ◌≡◌, refl, sym, ap, ◌∙◌, Bool, true, false, Option, none, some, List,
  [], ◌∷◌, ◌++◌, arith, if◌then◌else◌, length,
}

-- Where the object stands, and what `GetPacketId` and `GetPacketSize` answer: the size is that of the
-- object without its first 8 bytes, which hold the pointer to its virtual functions.
pub record IPacket : Type 0 where
  pub address : ℕ
  pub packet_id : ℕ
  pub packet_size : ℕ

-- `sizeof(IPacket)`: the pointer to the virtual functions.
abbrev pub size_of_i_packet : ℕ
size_of_i_packet = 8

-- `WriteBuffer(from, size)`.
abbrev pub bytes_at : (ℕ → ℕ) → ℕ → ℕ → List ℕ
bytes_at memory from zero = []
bytes_at memory from (suc n) = memory from ∷ bytes_at memory (from + 1) n

bytes_at_same :
    (memory memory' : ℕ → ℕ) (from : ℕ) (n : ℕ)
    → ((a : ℕ) → from ≤ a → memory a ≡ memory' a)
    → bytes_at memory from n ≡ bytes_at memory' from n
bytes_at_same memory memory' from zero same = refl
bytes_at_same memory memory' from (suc n) same = λ i.
    same from (omega arith) i
    ∷ bytes_at_same memory memory' (from + 1) n (λ a h. same a (omega arith)) i

module _ (id_bytes : ℕ → List ℕ) where
  -- `reinterpret_cast<char*>(&packet) + 8`; nothing where `Alloc` gives a null pointer.
  unfoldable pub build_packet_buffer : Bool → (ℕ → ℕ) → IPacket → Option (List ℕ)
  build_packet_buffer allocated memory p =
      if allocated
      then some (id_bytes p.packet_id ++ bytes_at memory (p.address + 8) p.packet_size)
      else none

  -- `reinterpret_cast<char*>(&packet + sizeof(char*))`, which steps over 8 objects.
  pub client_packet_buffer : (ℕ → ℕ) → IPacket → List ℕ
  client_packet_buffer memory p =
      id_bytes p.packet_id ++ bytes_at memory (p.address + 8 * size_of_i_packet) p.packet_size

  -- What the client sends for a packet of at most 56 bytes does not depend on the packet's object:
  -- memories that differ in nothing but the object give the same buffer. The session sends the
  -- object's bytes behind the pointer.
  pub client_packet_buffer_misses :
      (memory memory' : ℕ → ℕ) (p : IPacket)
      → p.packet_size ≤ 56
      → ((a : ℕ) → p.address + 8 + p.packet_size ≤ a → memory a ≡ memory' a)
      → (client_packet_buffer memory p ≡ client_packet_buffer memory' p)
        × (build_packet_buffer true memory p
            ≡ some (id_bytes p.packet_id ++ bytes_at memory (p.address + 8) p.packet_size))
  unfolding client_packet_buffer build_packet_buffer
  client_packet_buffer_misses memory memory' p small same = (
    ap (◌++◌ (id_bytes p.packet_id)) (
        bytes_at_same memory memory' (p.address + 8 * size_of_i_packet) p.packet_size
          (λ a h. same a (omega arith))),
    refl,
  )
