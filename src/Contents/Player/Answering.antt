-- ===== src/Contents/Player/Answering.antt =====
-- What a player does with the packets that it receives.
use actor_model_server.Base.{
  ℕ, ◌≤◌, ◌≡◌, ◌≢◌, refl, ◌∙◌, true, some, none, List, [], ◌∷◌, ◌++◌, arith, ◌==◌, if◌then◌else◌,
  sym, ap, inr, append-nil,
}
use mathlib.Core.Option.{some-injective}
use actor_model_server.Base.UnorderedMap.{Map, find, contains}
use actor_model_server.NetLib.{QueueOps, QueueLaws}
use actor_model_server.Actor.Packets.{
  NetBufferOps, NetBufferLaws, MessageFactory, PacketMessage, handle, create_message_from_packet,
}
use actor_model_server.Actor.Packets.Dispatch.{
  le32, create_message_from_packet_dispatches, create_message_from_packet_refuses,
  find-register_packet_handler,
}
use actor_model_server.Session.{Session, io_none_sending, wsa_send, send_packet}
use actor_model_server.Session.Single.{send_packet_single}
use actor_model_server.PacketBuffer.{build_packet_buffer}
use actor_model_server.Contents.Player.{
  PacketHandler, handle_ping, register_all_packet_handler, new_player, call, pong, send_pong,
}

module _ (ops : QueueOps) (laws : QueueLaws ops) (net : NetBufferOps) (net_laws : NetBufferLaws net)
    (id_bytes : ℕ → List ℕ) (place : List ℕ → ℕ) (memory : ℕ → ℕ) (address : ℕ) where
  pong_sent :
      (s : Session ops)
      → call ops id_bytes true place memory address true (handle handle_ping []) s
        ≡ send_packet ops (some (place (id_bytes 2))) true s
  unfolding call send_pong build_packet_buffer pong
  pong_sent s = rw (append-nil (id_bytes 2)) refl

  -- A new player takes a packet of the id of a `Ping`, whatever bytes follow the id, for a message
  -- that, called on a session that has nothing to send and no send under way, sends one buffer,
  -- which holds the id of a `Pong` and nothing else, where `Alloc` gives a buffer and `WSASend`
  -- succeeds. A packet of another id makes no message.
  pub new_player_answers :
      (b b' : net.Buffer) (rest : List ℕ) (s : Session ops)
      → net.get_read_buffer_ptr b ≡ le32 1 ++ rest
      → 4 ≤ net.get_use_size b
      → (net.read_packet_id b').0 ≢ 1
      → s.io_mode ≡ io_none_sending
      → laws.contents s.send_queue ≡ []
      → (factories : Map (MessageFactory PacketHandler)) × (m : PacketMessage PacketHandler)
        × (left : Session ops) × (new_player ≡ some factories)
        × (create_message_from_packet net b factories ≡ some m)
        × (create_message_from_packet net b' factories ≡ none)
        × (call ops id_bytes true place memory address true m s
            ≡ some (left, wsa_send (place (id_bytes 2) ∷ []) ∷ [], true))
  unfolding new_player register_all_packet_handler find contains
  new_player_answers b b' rest s layout long other idle empty =
      let ping : MessageFactory PacketHandler = record { handler = handle_ping; types = [] } in
      let here = find-register_packet_handler 1 1 ping ping [] refl in
      let there = find-register_packet_handler 1 (net.read_packet_id b').0 ping ping [] refl in
      let same : there.0 ≡ here.0 = some-injective _ _ (sym there.1 ∙ here.1) in
      let absent : (if 1 == (net.read_packet_id b').0 then some ping else none) ≡ none =
        ground arith in
      let unknown : find (net.read_packet_id b').0 here.0 ≡ none =
        ap (find (net.read_packet_id b').0) (sym same) ∙ there.2 ∙ absent in
      let sent = send_packet_single ops laws (place (id_bytes 2)) s idle empty in
      (
        here.0,
        handle handle_ping [],
        sent.0,
        here.1,
        create_message_from_packet_dispatches net net_laws b here.0 1 ping [] rest here.2 tt layout
            (omega arith),
        create_message_from_packet_refuses net net_laws b' here.0 (inr unknown),
        pong_sent s ∙ sent.1,
      )
