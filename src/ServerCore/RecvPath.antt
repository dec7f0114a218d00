-- ===== src/ServerCore/RecvPath.antt =====
-- `ServerCore::RecvStreamToBuffer`, `OnRecvIoCompleted` and `OnIoCompleted`: from the bytes of a
-- completed `WSARecv` to messages in the session's mailbox. A `NetBuffer` that holds a decoded packet
-- is `holding` of its bytes.
pub mod Delivery
pub mod Truncation
pub mod Termination
mod Examples
use actor_model_server.Base.{
  ℕ, zero, suc, ◌+◌, ◌-◌, Bool, true, false, Option, none, some, List, [], ◌∷◌, ◌++◌, length, ltb,
  ◌&&◌, if◌then◌else◌,
}
use actor_model_server.Base.UnorderedMap.{Map}
use actor_model_server.NetLib.{RingOps, QueueOps, PacketFormat}
use actor_model_server.Actor.{Actor, send_message}
use actor_model_server.Actor.Packets.{
  NetBufferOps, MessageFactory, PacketMessage, create_message_from_packet,
}
use actor_model_server.Session.{Session, IoEvent, do_recv, decrease_io_count, on_send_io_completed}
use actor_model_server.SimpleClient.{payload_length_of}

-- The packet that is in the buffer, if any, the ring and `restSize`.
pub record Streamed (ops : RingOps) : Type 0 where
  pub packet : Option (List ℕ)
  pub ring : ops.Ring
  pub rest_size : ℕ

module _ (ops : RingOps) (format : PacketFormat) where
  open ops use {Ring, peek, remove_data, dequeue}
  open format use {header_size, default_size, decode}

  pub decode_streamed : List ℕ → ℕ → List ℕ × Ring → Streamed ops
  decode_streamed header rest (payload, ring) = elim (decode header payload) [
    | none ↦ record { packet = none; ring = ring; rest_size = rest }
    | some packet ↦ record {
      packet = some packet;
      ring = ring;
      rest_size = rest - (length payload + header_size);
    }
  ]

  pub recv_stream_to_buffer : ℕ → Ring → Streamed ops
  unfolding decode_streamed
  recv_stream_to_buffer rest ring =
      let header = peek header_size ring in
      let payload_length = payload_length_of header in
      if ltb rest (payload_length + header_size) && ltb default_size payload_length
      then record { packet = none; ring = ring; rest_size = rest }
      else decode_streamed header rest (dequeue payload_length (remove_data header_size ring))

-- A session as the receive path sees it, `W` being the state that its handlers work on.
pub record Connection (ring : RingOps) (queue : QueueOps) (H W : Type 0) : Type 0 where
  pub session : Session queue
  pub ring_buffer : ring.Ring
  pub actor : Actor (PacketMessage H) W
  pub factories : Map (MessageFactory H)

-- `OVERLAPPED*`, compared with the two of the session.
pub data Overlapped : Type 0 where
  recv_overlapped send_overlapped other_overlapped : Overlapped

module _ (ring : RingOps) (queue : QueueOps) (format : PacketFormat) (buffers : NetBufferOps)
    (holding : List ℕ → buffers.Buffer) {H W : Type 0} where
  open format use {header_size}

  -- `messageSendSuccess`, with the session that a round leaves.
  pub send_created :
      Option (PacketMessage H) → Connection ring queue H W → Bool × Connection ring queue H W
  send_created none c = (false, c)
  send_created (some m) c =
      let (actor, accepted) = send_message (some m) c.actor in
      (accepted, record c { actor = actor })

  pub send_streamed : Option (List ℕ) → Connection ring queue H W → Bool × Connection ring queue H W
  send_streamed none c = (false, c)
  send_streamed (some packet) c =
      send_created (create_message_from_packet buffers (holding packet) c.factories) c

  -- The loop of `OnRecvIoCompleted`: false where a round fails; `none`: the fuel ran out.
  pub recv_loop : ℕ → ℕ → Connection ring queue H W → Option (Bool × Connection ring queue H W)
  recv_loop zero rest c = none
  recv_loop (suc fuel) rest c =
      let streamed = recv_stream_to_buffer ring format rest c.ring_buffer in
      let (success, c') =
        send_streamed streamed.packet (record c { ring_buffer = streamed.ring }) in
      let again = recv_loop fuel streamed.rest_size c' in
      if ltb header_size rest then (if success then again else some (false, c')) else some (true, c)

  -- What follows the loop; `posted` is the result of `WSARecv`.
  pub after_recv_loop :
      Bool
      → Option (Bool × Connection ring queue H W)
      → Option (Connection ring queue H W × List IoEvent × Bool)
  after_recv_loop posted none = none
  after_recv_loop posted (some (false, c)) =
      let (session, events) = decrease_io_count queue c.session in
      some (record c { session = session }, events, false)
  after_recv_loop posted (some (true, c)) =
      let (s, events, result) = do_recv queue ring posted c.ring_buffer c.session in
      let (s', more) = decrease_io_count queue s in
      some (record c { session = s' }, events ++ more, result)

  -- `bytes` are the transferred ones, which `MoveWritePos` takes in.
  pub on_recv_io_completed :
      List ℕ
      → Bool
      → Connection ring queue H W
      → Option (Connection ring queue H W × List IoEvent × Bool)
  on_recv_io_completed bytes posted c =
      let filled = ring.receive bytes c.ring_buffer in
      let size = ring.get_use_size filled in
      after_recv_loop posted (recv_loop (suc size) size (record c { ring_buffer = filled }))

  pub on_io_completed :
      Overlapped
      → List ℕ
      → Bool
      → Connection ring queue H W
      → Option (Connection ring queue H W × List IoEvent × Bool)
  on_io_completed overlapped [] posted c =
      let (session, events) = decrease_io_count queue c.session in
      some (record c { session = session }, events, true)
  on_io_completed recv_overlapped (b ∷ bytes) posted c = on_recv_io_completed (b ∷ bytes) posted c
  on_io_completed send_overlapped (b ∷ bytes) posted c =
      elim (on_send_io_completed queue posted c.session) [
        | none ↦ none
        | some (session, events, result) ↦ some (record c { session = session }, events, result)
      ]
  on_io_completed other_overlapped (b ∷ bytes) posted c = some (c, [], false)
