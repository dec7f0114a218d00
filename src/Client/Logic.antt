-- ===== src/Client/Logic.antt =====
-- ActorModelServer/TestClient/Client.cpp, `RunLogicThread`, beside the receive thread of
-- SimpleClient.cpp: the logic thread takes packets out of the queue that the receive thread fills.
-- What `operator>>` reads of a packet's bytes is a parameter.
pub mod Draining
pub mod Interleaving
pub mod Streams
mod Examples
use actor_model_server.Base.{
  ℕ, zero, suc, Bool, true, false, Option, none, some, List, [], ◌∷◌, ◌++◌, map, length, ltb,
  if◌then◌else◌,
}
use actor_model_server.NetLib.{RingOps, PacketFormat}
use actor_model_server.SimpleClient.{RecvResult, Receiver, do_recv}
use actor_model_server.Client.{ActorMap, ClientEvent, Packet, process_logic}

-- `GetRecvBufferSize`.
abbrev pub get_recv_buffer_size : List (List ℕ) → ℕ
get_recv_buffer_size queue = length queue

-- `GetRecvBuffer`: the front of the queue and the rest. `front` of an empty queue is undefined; the
-- loop below asks for no more buffers than there are.
pub get_recv_buffer : List (List ℕ) → Option (List ℕ × List (List ℕ))
get_recv_buffer [] = none
get_recv_buffer (b ∷ queue) = some (b, queue)

-- The client's data that its two threads share, and what its logic has done.
pub record Running (ops : RingOps) : Type 0 where
  pub receiver : Receiver ops
  pub actors : ActorMap
  pub events : List ClientEvent

-- A round of one of the threads: of the receive thread, with what `recv` gives, or of the logic
-- thread.
pub data ClientStep : Type 0 where
  receives : RecvResult → ClientStep
  thinks : ClientStep

module _ (ops : RingOps) (format : PacketFormat) (read : List ℕ → Packet) where
  pub process_buffer : List ℕ → Running ops → Running ops
  process_buffer b s =
      let (actors, events) = process_logic (read b) s.actors in
      record s { actors = actors; events = s.events ++ events }

  -- The loop over the buffers that were counted.
  pub process_buffers : ℕ → Running ops → Running ops
  process_buffers zero s = s
  process_buffers (suc n) s = elim (get_recv_buffer s.receiver.recv_buffer_queue) [
    | none ↦ s
    | some (b, queue) ↦
        process_buffers n (
          process_buffer b
            (record s { receiver = record s.receiver { recv_buffer_queue = queue } }))
  ]

  -- A round of `RunLogicThread`.
  pub logic_round : Running ops → Running ops
  logic_round s =
      if s.receiver.need_stop
      then s
      else process_buffers (get_recv_buffer_size s.receiver.recv_buffer_queue) s

  pub after_recv : Running ops → Option (Receiver ops) → Option (Running ops)
  after_recv s none = none
  after_recv s (some receiver) = some (record s { receiver = receiver })

  pub receive_round : RecvResult → Running ops → Option (Running ops)
  unfolding after_recv
  receive_round r s = elim s.receiver.need_stop [
    | true ↦ some s
    | false ↦ after_recv s (do_recv ops format r s.receiver)
  ]

  -- The rounds of the two threads, in any order.
  pub run_client : List ClientStep → Running ops → Option (Running ops)
  run_client [] s = some s
  run_client (thinks ∷ steps) s = run_client steps (logic_round s)
  run_client (receives r ∷ steps) s = elim (receive_round r s) [
    | none ↦ none
    | some s' ↦ run_client steps s'
  ]
