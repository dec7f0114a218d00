-- ===== src/Actor/Packets.antt =====
-- The packet handlers of an actor: `RegisterPacketHandler`, `CreateMessageFromPacket` and
-- `FindFunctionObject`. `NetBuffer` is not in this repository: its three operations that the code
-- uses here are a parameter, with what the code relies on as `NetBufferLaws`.
pub mod Dispatch
pub mod Instances
use actor_model_server.Base.{
  ℕ, ◌+◌, ◌-◌, ◌*◌, ◌≤◌, ◌≡◌, refl, Bool, true, false, Option, none, some, List, [], ◌∷◌, ◌++◌,
  take, drop, length, ltb, if◌then◌else◌,
}
use actor_model_server.Base.UnorderedMap.{Map, find, contains, assign}
use actor_model_server.Deserializer.{ArgType, Arg, little_endian, deserialize}

pub record NetBufferOps : Type 1 where
  pub Buffer : Type 0
  pub get_use_size : Buffer → ℕ
  -- The memory from `GetReadBufferPtr()` on.
  pub get_read_buffer_ptr : Buffer → List ℕ
  -- `operator>>` into a 32-bit value.
  pub read_packet_id : Buffer → ℕ × Buffer

-- Unread bytes are there, and reading four bytes gives their little-endian value and moves on.
pub record NetBufferLaws (ops : NetBufferOps) : Type 0 where
  pub backed : (b : ops.Buffer) → ops.get_use_size b ≤ length (ops.get_read_buffer_ptr b)
  pub reads :
      (b : ops.Buffer)
      → 4 ≤ ops.get_use_size b
      → ((ops.read_packet_id b).0 ≡ little_endian (take 4 (ops.get_read_buffer_ptr b)))
        × (ops.get_read_buffer_ptr (ops.read_packet_id b).1 ≡ drop 4 (ops.get_read_buffer_ptr b))
        × (ops.get_use_size (ops.read_packet_id b).1 + 4 ≡ ops.get_use_size b)

-- A registered member function `H` with its parameter types.
pub record MessageFactory (H : Type 0) : Type 0 where
  pub handler : H
  pub types : List ArgType

-- The message that a factory makes: the handler bound to its arguments, or the empty function of
-- a packet that cannot be read.
pub data PacketMessage (H : Type 0) : Type 0 where
  ignored : PacketMessage H
  handle : H → List Arg → PacketMessage H

module _ {H : Type 0} where
  -- `none`: the `std::runtime_error` for an id that is registered already.
  pub register_packet_handler :
      ℕ → MessageFactory H → Map (MessageFactory H) → Option (Map (MessageFactory H))
  register_packet_handler id f factories =
      if contains id factories then none else some (assign id f factories)

  unfoldable pub message_of : H → Option (List Arg) → PacketMessage H
  message_of h none = ignored
  message_of h (some args) = handle h args

  module _ (ops : NetBufferOps) where
    open ops use {Buffer, get_use_size, get_read_buffer_ptr, read_packet_id}

    -- `itor->second(this, &buffer)`.
    unfoldable pub apply_factory : MessageFactory H → Buffer → PacketMessage H
    apply_factory f b =
        message_of f.handler (deserialize f.types (get_read_buffer_ptr b) (get_use_size b))

    unfoldable pub find_function_object :
        ℕ → Buffer → Map (MessageFactory H) → Option (PacketMessage H)
    find_function_object id b factories = elim (find id factories) [
      | none ↦ none
      | some f ↦ some (apply_factory f b)
    ]

    unfoldable pub create_message_from_packet :
        Buffer → Map (MessageFactory H) → Option (PacketMessage H)
    create_message_from_packet b factories =
        if ltb (get_use_size b) 4
        then none
        else (let (id, b') = read_packet_id b in find_function_object id b' factories)
