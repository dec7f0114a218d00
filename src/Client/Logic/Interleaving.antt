-- ===== src/Client/Logic/Interleaving.antt =====
-- The client's two threads in any order, beside the receive thread alone.
use actor_model_server.Base.{
  ℕ, ◌<◌, ◌≡◌, refl, sym, ap, ◌∙◌, true, false, some, List, [], ◌∷◌, ◌++◌, arith, append_assoc,
  append-nil, Bool-cases, inl, inr,
}
use actor_model_server.NetLib.{RingOps, PacketFormat}
use actor_model_server.SimpleClient.{RecvResult, Receiver, do_recv, run_recv_thread}
use actor_model_server.SimpleClient.Termination.{
  run_recv_thread-nil, do_recv-some, run_recv_thread_next, run_recv_thread_stopped,
}
use actor_model_server.SimpleClient.Behind.{queue_behind, run_recv_thread_behind}
use actor_model_server.Client.{ActorMap, ClientEvent, Packet}
use actor_model_server.Client.Logic.{
  Running, ClientStep, receives, thinks, after_recv, receive_round, run_client,
}
use actor_model_server.Client.Logic.Draining.{
  handled, handled-append, drained, logic_round-drained, logic_round_stopped,
}

abbrev pub results : List ClientStep → List RecvResult
results [] = []
results (receives r ∷ steps) = r ∷ results steps
results (thinks ∷ steps) = results steps

module _ (ops : RingOps) (format : PacketFormat) (read : List ℕ → Packet) where
  -- What a run of the two threads is beside the receive thread alone: `done` are the packets that
  -- the logic thread has processed.
  pub record Refines (rs : List RecvResult) (s s' : Running ops) (done : List (List ℕ))
      : Type 0 where
    pub receives_the_same :
        run_recv_thread ops format rs s.receiver ≡ some (queue_behind ops done s'.receiver)
    pub actors_handled : s'.actors ≡ (handled read done s.actors).0
    pub events_handled : s'.events ≡ s.events ++ (handled read done s.actors).1

  Refines-drained :
      (rs : List RecvResult) (s s' : Running ops) (done : List (List ℕ))
      → Refines rs (drained ops format read s) s' done
      → Refines rs s s' (s.receiver.recv_buffer_queue ++ done)
  Refines-drained rs s s' done h =
      let queue = s.receiver.recv_buffer_queue in
      let both = handled-append read queue done s.actors in
      record {
        receives_the_same =
            ap (λ q. run_recv_thread ops format rs (record s.receiver { recv_buffer_queue = q }))
              (sym (append-nil queue))
            ∙ run_recv_thread_behind ops format queue rs _ _ h.receives_the_same
            ∙ ap (λ q. some (record s'.receiver { recv_buffer_queue = q }))
                (sym (append_assoc queue done s'.receiver.recv_buffer_queue));
        actors_handled =
            h.actors_handled ∙ ap (λ (r : ActorMap × List ClientEvent). r.0) (sym both);
        events_handled =
            h.events_handled
            ∙ append_assoc s.events _ _
            ∙ ap (λ (r : ActorMap × List ClientEvent). s.events ++ r.1) (sym both);
      }

  Refines-stopped :
      (rs : List RecvResult) (s s' : Running ops) (done : List (List ℕ))
      → s.receiver.need_stop ≡ true
      → (r : RecvResult) → Refines rs s s' done
      → Refines (r ∷ rs) s s' done
  Refines-stopped rs s s' done stopped r h = record {
    receives_the_same =
        run_recv_thread_stopped ops format (r ∷ rs) s.receiver stopped
        ∙ sym (run_recv_thread_stopped ops format rs s.receiver stopped)
        ∙ h.receives_the_same;
    actors_handled = h.actors_handled;
    events_handled = h.events_handled;
  }

  receive_round_stopped :
      (r : RecvResult) (s : Running ops)
      → s.receiver.need_stop ≡ true
      → receive_round ops format read r s ≡ some s
  unfolding receive_round
  receive_round_stopped r s stopped = ground arith

  receive_round_running :
      (r : RecvResult) (s : Running ops) (c : Receiver ops)
      → s.receiver.need_stop ≡ false
      → do_recv ops format r s.receiver ≡ some c
      → receive_round ops format read r s ≡ some (record s { receiver = c })
  unfolding receive_round after_recv
  receive_round_running r s c running e = ground arith

  pub run_client_next :
      (r : RecvResult) (steps : List ClientStep) (s s1 : Running ops)
      → receive_round ops format read r s ≡ some s1
      → run_client ops format read (receives r ∷ steps) s ≡ run_client ops format read steps s1
  unfolding run_client
  run_client_next r steps s s1 e = rw (e, run_client) refl

  -- Whatever the two threads do in whatever order, each of their rounds ends. The receive thread
  -- alone would have the same ring, and in its queue first the packets that the logic thread has
  -- processed and then those that are still in the queue: no packet is lost, doubled or overtaken.
  -- The client's actors and events are those of the packets that were processed, in that order.
  pub run_client-Refines :
      (steps : List ClientStep) (s : Running ops)
      → 0 < format.header_size
      → (s' : Running ops) × (done : List (List ℕ)) × (run_client ops format read steps s ≡ some s')
        × Refines (results steps) s s' done
  unfolding run_client
  run_client-Refines [] s h = (
    s,
    [],
    refl,
    record {
      receives_the_same = run_recv_thread-nil ops format s.receiver;
      actors_handled = refl;
      events_handled = sym (append-nil s.events);
    },
  )
  run_client-Refines (thinks ∷ steps) s h = elim (Bool-cases s.receiver.need_stop) [
    | inl stopped ↦
        let (s', done, runs, same) = run_client-Refines steps s h in
        (
          s',
          done,
          ap (run_client ops format read steps) (logic_round_stopped ops format read s stopped)
              ∙ runs,
          same,
        )
    | inr running ↦
        let (s', done, runs, same) = run_client-Refines steps (drained ops format read s) h in
        (
          s',
          s.receiver.recv_buffer_queue ++ done,
          ap (run_client ops format read steps) (logic_round-drained ops format read s running)
              ∙ runs,
          Refines-drained (results steps) s s' done same,
        )
  ]
  run_client-Refines (receives r ∷ steps) s h = elim (Bool-cases s.receiver.need_stop) [
    | inl stopped ↦
        let (s', done, runs, same) = run_client-Refines steps s h in
        (
          s',
          done,
          run_client_next r steps s s (receive_round_stopped r s stopped) ∙ runs,
          Refines-stopped (results steps) s s' done stopped r same,
        )
    | inr running ↦
        let (c, e, stops) = do_recv-some ops format r s.receiver h in
        let s1 : Running ops = record s { receiver = c } in
        let (s', done, runs, same) = run_client-Refines steps s1 h in
        (
          s',
          done,
          run_client_next r steps s s1 (receive_round_running r s c running e) ∙ runs,
          record {
            receives_the_same =
                run_recv_thread_next ops format r (results steps) s.receiver c running e
                ∙ same.receives_the_same;
            actors_handled = same.actors_handled;
            events_handled = same.events_handled;
          },
        )
  ]
