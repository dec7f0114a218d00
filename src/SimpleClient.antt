-- ===== src/SimpleClient.antt =====
-- ActorModelServer/TestClient/SimpleClient.cpp and SimpleClient.h: the client's receive path, from
-- socket bytes to whole packets, and its send queue. A socket call's result is an argument. The
-- threads that call `DoRecv` and `DoSend` are sequences of these steps.
pub mod Receiving
pub mod Cutting
pub mod Reassembly
pub mod Sending
pub mod Lifecycle
pub mod Termination
pub mod Behind
mod Examples
use actor_model_server.Base.{
  ℕ, zero, suc, ◌+◌, ◌-◌, ◌*◌, Bool, true, false, Option, none, some, List, [], ◌∷◌, ◌++◌, take,
  drop, length, ltb, if◌then◌else◌,
}
use actor_model_server.Deserializer.{little_endian}
use actor_model_server.NetLib.{RingOps, PacketFormat}

-- What `recv` gives.
pub data RecvResult : Type 0 where
  received : List ℕ → RecvResult
  closed : RecvResult
  broken : RecvResult

-- The `WORD` at offset 1 of the header.
abbrev pub payload_length_of : List ℕ → ℕ
payload_length_of header = little_endian (take 2 (drop 1 header))

module _ (ops : RingOps) where
  pub record Receiver : Type 0 where
    pub ring : ops.Ring
    pub recv_buffer_queue : List (List ℕ)
    pub need_stop : Bool
    pub socket_open : Bool

-- The result of `MakePacketsFromRingBuffer`, with the ring and the packets that it leaves.
pub record Made (ops : RingOps) : Type 0 where
  pub success : Bool
  pub left : ops.Ring
  pub queue : List (List ℕ)

-- A round of the packet loop ends it, or gives a packet and the `restSize` of the next round.
pub data Round (ops : RingOps) : Type 0 where
  ended : Bool → ops.Ring → Round ops
  got : List ℕ → ops.Ring → ℕ → Round ops

module _ (ops : RingOps) (format : PacketFormat) where
  open ops use {Ring, get_use_size, get_free_size, peek, remove_data, dequeue, enqueue}
  open format use {header_size, default_size, decode}

  -- The end of a round, once the payload is out of the ring.
  pub decoded : List ℕ → ℕ → List ℕ × Ring → Round ops
  decoded header rest (payload, ring) = elim (decode header payload) [
    | none ↦ ended false ring
    | some packet ↦ got packet ring (rest - (length payload + header_size))
  ]

  -- One round of the loop of `MakePacketsFromRingBuffer`, `rest` being `restSize`.
  pub packet_round : ℕ → Ring → Round ops
  unfolding decoded
  packet_round rest ring =
      let header = peek header_size ring in
      let payload_length = payload_length_of header in
      if ltb header_size rest
      then (if ltb rest (payload_length + header_size)
          then (if ltb default_size payload_length then ended false ring else ended true ring)
          else decoded header rest (dequeue payload_length (remove_data header_size ring)))
      else ended true ring

  -- The loop; `none`: the fuel ran out.
  pub make_packets : ℕ → ℕ → Ring → List (List ℕ) → Option (Made ops)
  make_packets zero rest ring queue = none
  make_packets (suc fuel) rest ring queue = elim (packet_round rest ring) [
    | ended success left ↦ some (record { success = success; left = left; queue = queue })
    | got packet left rest' ↦ make_packets fuel rest' left (queue ++ packet ∷ [])
  ]

  pub make_packets_from_ring_buffer : Ring → List (List ℕ) → Option (Made ops)
  make_packets_from_ring_buffer ring queue =
      make_packets (suc (get_use_size ring)) (get_use_size ring) ring queue

  -- `closesocket(sessionSocket); needStop = true;`
  pub close_and_stop : Receiver ops → Receiver ops
  close_and_stop c = record c { need_stop = true; socket_open = false }

  pub after_made : Receiver ops → Option (Made ops) → Option (Receiver ops)
  after_made c none = none
  after_made c (some m) =
      let c' : Receiver ops = record c { ring = m.left; recv_buffer_queue = m.queue } in
      some (if m.success then c' else close_and_stop c')

  pub do_recv : RecvResult → Receiver ops → Option (Receiver ops)
  do_recv (received bytes) c =
      if ltb (get_free_size c.ring) (length bytes)
      then some (record c { need_stop = true })
      else (let ring = enqueue bytes c.ring in
          after_made (record c { ring = ring })
            (make_packets_from_ring_buffer ring c.recv_buffer_queue))
  do_recv closed c = some (close_and_stop c)
  do_recv broken c = some (close_and_stop c)

  -- `RunRecvThread` over the results of its `recv` calls.
  pub run_recv_thread : List RecvResult → Receiver ops → Option (Receiver ops)
  run_recv_thread [] c = some c
  run_recv_thread (r ∷ rs) c = elim c.need_stop [
    | true ↦ some c
    | false ↦ elim (do_recv r c) [ none ↦ none | some c' ↦ run_recv_thread rs c' ]
  ]
