-- ===== src/ServerCore/Timers/Serving.antt =====
-- The I/O threads and the logic thread of one session: completed receives, each a call of
-- `OnRecvIoCompleted`, and rounds of the logic thread, in any order.
mod Executing
mod Examples
use actor_model_server.Base.{Bool, Option, none, some, List, [], ◌∷◌, ◌++◌, ℕ}
use actor_model_server.NetLib.{RingOps, QueueOps, PacketFormat}
use actor_model_server.Actor.{Action}
use actor_model_server.Actor.Packets.{NetBufferOps, PacketMessage}
use actor_model_server.Session.{IoEvent}
use actor_model_server.ServerCore.RecvPath.{Connection, on_recv_io_completed}
use actor_model_server.ServerCore.Timers.{session_pre_timer, session_on_timer, session_post_timer}

-- The bytes of a completed receive with what the next `WSARecv` answers, or a round.
pub data SessionStep : Type 0 where
  completes : List ℕ → Bool → SessionStep
  wakes : SessionStep

module _ (ring : RingOps) (queue : QueueOps) (format : PacketFormat) (buffers : NetBufferOps)
    (holding : List ℕ → buffers.Buffer) {H W : Type 0}
    (invoke : PacketMessage H → W → W × List (Action (PacketMessage H))) where
  -- A round of the logic thread, as the session sees it.
  pub wake_session : Connection ring queue H W → Connection ring queue H W
  wake_session c = record c {
    actor = session_post_timer invoke (session_on_timer invoke (session_pre_timer invoke c.actor));
  }

  -- The session and the events, or `none` where the loop over the packets runs out of fuel.
  pub run_session :
      List SessionStep
      → Connection ring queue H W
      → Option (Connection ring queue H W × List IoEvent)
  run_session [] c = some (c, [])
  run_session (wakes ∷ steps) c = run_session steps (wake_session c)
  run_session (completes bytes posted ∷ steps) c =
      elim (on_recv_io_completed ring queue format buffers holding bytes posted c) [
        | none ↦ none
        | some (c', events, result) ↦ elim (run_session steps c') [
          | none ↦ none
          | some (c'', more) ↦ some (c'', events ++ more)
        ]
      ]
