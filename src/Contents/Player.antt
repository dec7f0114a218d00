-- ===== src/Contents/Player.antt =====
-- ContentsServer/Player.cpp, PacketHandlerRegister.cpp and PacketHandler.cpp: the packets that a
-- player handles, with the `Pong` of Common/Protocol.h. The player's other handlers are empty in the
-- code. A buffer that `Alloc` gives is a number: `place` is the one that holds the bytes written.
mod Answering
mod Examples
use actor_model_server.Base.{ℕ, Bool, true, Option, none, some, List, []}
use actor_model_server.Base.UnorderedMap.{Map}
use actor_model_server.NetLib.{QueueOps}
use actor_model_server.Actor.Packets.{
  MessageFactory, PacketMessage, ignored, handle, register_packet_handler,
}
use actor_model_server.PacketBuffer.{IPacket, build_packet_buffer}
use actor_model_server.Session.{Session, IoEvent, send_packet}

-- The member functions that are registered.
pub data PacketHandler : Type 0 where
  handle_ping : PacketHandler

pub register_all_packet_handler :
    Map (MessageFactory PacketHandler) → Option (Map (MessageFactory PacketHandler))
register_all_packet_handler factories =
    register_packet_handler 1 (record { handler = handle_ping; types = [] }) factories

-- `Player::Player`: its message factories.
pub new_player : Option (Map (MessageFactory PacketHandler))
unfolding register_all_packet_handler
new_player = register_all_packet_handler []

-- A `Pong` at an address; `sizeof(Pong) - 8` is 0.
pub pong : ℕ → IPacket
pong address = record { address = address; packet_id = 2; packet_size = 0 }

module _ (ops : QueueOps) (id_bytes : ℕ → List ℕ) (allocated : Bool) (place : List ℕ → ℕ)
    (memory : ℕ → ℕ) (address : ℕ) (posted : Bool) where
  -- `Player::HandlePing`, on the player's session.
  pub send_pong : Session ops → Option (Session ops × List IoEvent × Bool)
  send_pong s = elim (build_packet_buffer id_bytes allocated memory (pong address)) [
    | none ↦ send_packet ops none posted s
    | some bytes ↦ send_packet ops (some (place bytes)) posted s
  ]

  -- A message of a player is called.
  pub call : PacketMessage PacketHandler → Session ops → Option (Session ops × List IoEvent × Bool)
  unfolding send_pong
  call ignored s = some (s, [], true)
  call (handle handle_ping args) s = send_pong s
