-- ===== src/ServerCore/Timers/Serving/Executing.antt =====
-- A session's handlers see each packet of its stream once, in order.
use actor_model_server.Base.{
  ℕ, suc, ◌+◌, ◌-◌, ◌≤◌, ◌≡◌, refl, sym, ap, subst, ◌∙◌, true, false, some, List, [], ◌∷◌, ◌++◌,
  map, map-append, length, arith, All, append_assoc, append-nil, Bool,
}
use actor_model_server.Base.Int.{pos}
use actor_model_server.Base.UnorderedMap.{Map}
use actor_model_server.NetLib.{RingOps, RingLaws, QueueOps, PacketFormat}
use actor_model_server.Actor.{Action}
use actor_model_server.Actor.Delivery.{after_batch}
use actor_model_server.Actor.Quiet.{
  IsQuiet, after_batch-append, process_message_quiet, callable-map-some,
}
use actor_model_server.Actor.Packets.{NetBufferOps, MessageFactory, PacketMessage}
use actor_model_server.Session.{Session, IoEvent, wsa_recv}
use actor_model_server.SimpleClient.Receiving.{Frame, IsFrame, stream}
use actor_model_server.ServerCore.RecvPath.{Connection, on_recv_io_completed}
use actor_model_server.ServerCore.RecvPath.Delivery.{
  Makes, delivered, on_recv_io_completed_delivers,
}
use actor_model_server.ServerCore.Timers.{session_pre_timer, session_on_timer, session_post_timer}
use actor_model_server.ServerCore.Timers.Serving.{
  SessionStep, completes, wakes, wake_session, run_session,
}

-- A receive that completes whole packets, with the messages of those and the bytes behind them; or
-- a round.
pub data Turn (H : Type 0) : Type 0 where
  arrives : List ℕ → List Frame → List (PacketMessage H) → List ℕ → Turn H
  thinks : Turn H

abbrev pub steps_of : {H : Type 0} → List (Turn H) → List SessionStep
steps_of [] = []
steps_of (arrives bytes fs ms bs ∷ turns) = completes bytes true ∷ steps_of turns
steps_of (thinks ∷ turns) = wakes ∷ steps_of turns

abbrev pub messages_of : {H : Type 0} → List (Turn H) → List (PacketMessage H)
messages_of [] = []
messages_of (arrives bytes fs ms bs ∷ turns) = ms ++ messages_of turns
messages_of (thinks ∷ turns) = messages_of turns

abbrev pub rest_of : {H : Type 0} → List ℕ → List (Turn H) → List ℕ
rest_of held [] = held
rest_of held (arrives bytes fs ms bs ∷ turns) = rest_of bs turns
rest_of held (thinks ∷ turns) = rest_of held turns

module _ (ring : RingOps) (queue : QueueOps) {H W : Type 0} where
  -- A session that runs, with some messages in its mailbox.
  abbrev pub serving :
      Session queue
      → Map (MessageFactory H)
      → ring.Ring
      → List (PacketMessage H)
      → W
      → Connection ring queue H W
  serving session factories r pending w = record {
    session = session;
    ring_buffer = r;
    actor = record {
      consumer_queue = [];
      store_queue = map some pending;
      is_stop = false;
      world = w;
    };
    factories = factories;
  }

module _ (ring : RingOps) (laws : RingLaws ring) (queue : QueueOps) (format : PacketFormat)
    (buffers : NetBufferOps) (holding : List ℕ → buffers.Buffer) {H W : Type 0}
    (invoke : PacketMessage H → W → W × List (Action (PacketMessage H))) where
  -- With `held` in the ring, each receive makes whole packets and leaves at most a header's worth.
  abbrev pub AreWhole : Map (MessageFactory H) → List ℕ → List (Turn H) → Type 0
  AreWhole factories held [] = Unit
  AreWhole factories held (thinks ∷ turns) = AreWhole factories held turns
  AreWhole factories held (arrives bytes fs ms bs ∷ turns) =
      All (IsFrame format) fs
      × Makes buffers holding factories fs ms
      × (length bs ≤ format.header_size)
      × (held ++ bytes ≡ stream fs ++ bs)
      × (length held + length bytes ≤ laws.capacity)
      × AreWhole factories bs turns

  wake_session_quiet :
      (session : Session queue) (factories : Map (MessageFactory H)) (r : ring.Ring)
      (pending : List (PacketMessage H)) (w : W)
      → IsQuiet invoke
      → wake_session ring queue format buffers holding invoke
          (serving ring queue session factories r pending w)
        ≡ serving ring queue session factories r [] (after_batch invoke pending w)
  unfolding wake_session session_pre_timer session_on_timer session_post_timer
  wake_session_quiet session factories r pending w quiet = λ i. record {
    session = session;
    ring_buffer = r;
    actor =
        (process_message_quiet invoke (map some pending) w quiet
            ∙ ap
                (λ ms. record {
                  consumer_queue = [];
                  store_queue = [];
                  is_stop = false;
                  world = after_batch invoke ms w;
                })
                (callable-map-some pending))
          i;
    factories = factories;
  }

  delivered-serving :
      (session : Session queue) (factories : Map (MessageFactory H)) (r left : ring.Ring)
      (pending ms : List (PacketMessage H)) (w : W)
      → delivered ring laws queue format buffers holding left ms
          (serving ring queue session factories r pending w)
        ≡ serving ring queue session factories left (pending ++ ms) w
  delivered-serving session factories r left pending ms w = λ i. record {
    session = session;
    ring_buffer = left;
    actor = record {
      consumer_queue = [];
      store_queue = sym (map-append some pending ms) i;
      is_stop = false;
      world = w;
    };
    factories = factories;
  }

  run_session_completes :
      (bytes : List ℕ) (steps : List SessionStep) (c c' c'' : Connection ring queue H W)
      (events more : List IoEvent) (result : Bool)
      → on_recv_io_completed ring queue format buffers holding bytes true c
        ≡ some (c', events, result)
      → run_session ring queue format buffers holding invoke steps c' ≡ some (c'', more)
      → run_session ring queue format buffers holding invoke (completes bytes true ∷ steps) c
        ≡ some (c'', events ++ more)
  unfolding run_session
  run_session_completes bytes steps c c' c'' events more result e e' =
      rw (e, run_session) (rw (e', run_session) refl)

  -- A session is not stopped, has at least one I/O and some messages in its mailbox, and its handlers
  -- neither send it messages nor stop it. Receives arrive that each make whole packets with what the
  -- ring holds and leave at most a header's worth of bytes, each next `WSARecv` is posted, and the
  -- logic thread comes round at any points in between. After one more round the handlers have been called for the messages that
  -- waited and then for each packet of the stream, each once and in order, on the handlers' state;
  -- the mailbox is empty, the session is as it was, and the bytes behind the last packet are in the
  -- ring.
  pub run_session_executes :
      (turns : List (Turn H)) (session : Session queue) (factories : Map (MessageFactory H))
      (r : ring.Ring) (pending : List (PacketMessage H)) (w : W) (n : ℕ)
      → IsQuiet invoke
      → session.io_count ≡ pos (suc n)
      → AreWhole factories (laws.contents r) turns
      → (left : ring.Ring) × (events : List IoEvent) × (run_session ring queue format buffers
            holding invoke
            (steps_of turns ++ wakes ∷ [])
            (serving ring queue session factories r pending w)
          ≡ some (
            serving ring queue session factories left []
                (after_batch invoke (pending ++ messages_of turns) w),
            events,
          ))
        × (laws.contents left ≡ rest_of (laws.contents r) turns)
  unfolding run_session
  run_session_executes [] session factories r pending w n quiet io whole = (
    r,
    [],
    ap (λ c. some (c, []))
        (wake_session_quiet session factories r pending w quiet
          ∙ ap (λ ms. serving ring queue session factories r [] (after_batch invoke ms w))
              (sym (append-nil pending))),
    refl,
  )
  run_session_executes (thinks ∷ turns) session factories r pending w n quiet io whole =
      let rest =
        run_session_executes turns session factories r [] (after_batch invoke pending w) n quiet io
          whole in
      (
        rest.0,
        rest.1,
        ap (run_session ring queue format buffers holding invoke (steps_of turns ++ wakes ∷ []))
              (wake_session_quiet session factories r pending w quiet)
            ∙ rest.2
            ∙ ap (λ v. some (serving ring queue session factories rest.0 [] v, rest.1))
                (sym (after_batch-append invoke pending (messages_of turns) w)),
        rest.3,
      )
  run_session_executes (arrives bytes fs ms bs ∷ turns) session factories r pending w n quiet io
        whole =
      let (left, runs, behind) =
        on_recv_io_completed_delivers ring laws queue format buffers holding fs ms bs bytes n
          (serving ring queue session factories r pending w) whole.0 whole.1 whole.2 whole.3
          (omega (arith, laws.room r, whole.4)) refl io in
      let posted : List IoEvent =
        wsa_recv (ring.get_not_broken_put_size left)
          (ring.get_free_size left - ring.get_not_broken_put_size left)
        ∷ [] in
      let rest =
        run_session_executes turns session factories left (pending ++ ms) w n quiet io
          (subst (λ held. AreWhole factories held turns) (sym behind) whole.5) in
      (
        rest.0,
        posted ++ rest.1,
        run_session_completes bytes (steps_of turns ++ wakes ∷ []) _ _ _ posted rest.1 true runs (
              ap
                (run_session ring queue format buffers holding invoke
                  (steps_of turns ++ wakes ∷ []))
                (delivered-serving session factories r left pending ms w)
              ∙ rest.2)
            ∙ ap
                (λ ms'. some (
                  serving ring queue session factories rest.0 [] (after_batch invoke ms' w),
                  posted ++ rest.1,
                ))
                (append_assoc pending ms (messages_of turns)),
        rest.3 ∙ ap (λ held. rest_of held turns) behind,
      )
