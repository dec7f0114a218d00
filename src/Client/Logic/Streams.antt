-- ===== src/Client/Logic/Streams.antt =====
-- From the bytes of a stream to the client's actors, the receive thread and the logic thread running
-- in any order.
use actor_model_server.Base.{
  ℕ, ◌≤◌, ◌<◌, ◌≡◌, refl, sym, ap, ◌∙◌, false, some, List, [], ◌∷◌, ◌++◌, length, arith,
  append_assoc, Option-cases, inl, inr, map, All,
}
use actor_model_server.NetLib.{RingOps, RingLaws, PacketFormat}
use actor_model_server.SimpleClient.{received, Receiver, run_recv_thread}
use actor_model_server.SimpleClient.Receiving.{Frame, IsFrame, stream, packets}
use actor_model_server.SimpleClient.Cutting.{concat}
use actor_model_server.SimpleClient.Reassembly.{reassembly, HasRoom}
use actor_model_server.SimpleClient.Behind.{queue_behind}
use actor_model_server.Client.{ActorMap, ClientEvent, Packet}
use actor_model_server.Client.Logic.{
  Running, logic_round, ClientStep, receives, thinks, receive_round, run_client,
}
use actor_model_server.Client.Logic.Draining.{handled, handled-append, drained, logic_round-drained}
use actor_model_server.Client.Logic.Interleaving.{
  results, Refines, run_client-Refines, run_client_next,
}

some_injective : {A : Type 0} {x y : A} → some x ≡ some y → x ≡ y
some_injective e = cc

module _ (ops : RingOps) (laws : RingLaws ops) (format : PacketFormat)
    (read : List ℕ → Packet) where
  open laws use {contents}

  run_client-append :
      (steps more : List ClientStep) (s s' : Running ops)
      → run_client ops format read steps s ≡ some s'
      → run_client ops format read (steps ++ more) s ≡ run_client ops format read more s'
  unfolding run_client
  run_client-append [] more s s' e = ground arith
  run_client-append (thinks ∷ steps) more s s' e =
      run_client-append steps more (logic_round ops format read s) s' e
  run_client-append (receives r ∷ steps) more s s' e =
      elim (Option-cases (receive_round ops format read r s)) [
        | inl lost ↦ absurd (ground arith)
        | inr (s1, runs) ↦
            run_client_next ops format read r (steps ++ more) s s1 runs
            ∙ run_client-append steps more s1 s'
                (sym (run_client_next ops format read r steps s s1 runs) ∙ e)
      ]

  -- The last round of the logic thread processes what is in the queue.
  last_round :
      (steps : List ClientStep) (s s' : Running ops) (done ps : List (List ℕ))
      → run_client ops format read steps s ≡ some s'
      → Refines ops format read (results steps) s s' done
      → s'.receiver.need_stop ≡ false
      → done ++ s'.receiver.recv_buffer_queue ≡ ps
      → (s'' : Running ops) × (run_client ops format read (steps ++ thinks ∷ []) s ≡ some s'')
        × (s''.actors ≡ (handled read ps s.actors).0)
        × (s''.events ≡ s.events ++ (handled read ps s.actors).1)
        × (s''.receiver.recv_buffer_queue ≡ [])
  unfolding run_client
  last_round steps s s' done ps runs same running whole =
      let queue = s'.receiver.recv_buffer_queue in
      let both = handled-append read done queue s.actors in
      let all = ap (λ bs. handled read bs s.actors) whole in
      (
        drained ops format read s',
        run_client-append steps (thinks ∷ []) s s' runs
            ∙ ap some (logic_round-drained ops format read s' running),
        ap (λ actors. (handled read queue actors).0) same.actors_handled
            ∙ ap (λ (r : ActorMap × List ClientEvent). r.0) (sym both ∙ all),
        (λ i. same.events_handled i ++ (handled read queue (same.actors_handled i)).1)
            ∙ append_assoc s.events _ _
            ∙ ap (λ (r : ActorMap × List ClientEvent). s.events ++ r.1) (sym both ∙ all),
        refl,
      )

  -- If a stream of whole packets reaches a running client that has nothing in its ring and queue, in
  -- pieces of at most `k` bytes with room for a packet and `k` bytes in the ring, and the two threads
  -- take turns in any order, then after one more round of the logic thread exactly the packets of the
  -- stream have been processed, each once and in order, and the queue is empty.
  pub run_client_handles_stream :
      (k : ℕ) (fs : List Frame) (chunks : List (List ℕ)) (steps : List ClientStep) (s : Running ops)
      → results steps ≡ map received chunks
      → s.receiver.need_stop ≡ false
      → contents s.receiver.ring ≡ []
      → s.receiver.recv_buffer_queue ≡ []
      → 0 < format.header_size
      → All (IsFrame format) fs
      → HasRoom ops laws format k fs
      → All (λ x. length x ≤ k) chunks
      → concat chunks ≡ stream fs
      → (s' : Running ops) × (run_client ops format read (steps ++ thinks ∷ []) s ≡ some s')
        × (s'.actors ≡ (handled read (packets fs) s.actors).0)
        × (s'.events ≡ s.events ++ (handled read (packets fs) s.actors).1)
        × (s'.receiver.recv_buffer_queue ≡ [])
  run_client_handles_stream k fs chunks steps s given running empty idle headed good room small e =
      let (s', done, runs, same) = run_client-Refines ops format read steps s headed in
      let (c, receives_all, queued, left, on) =
        reassembly ops laws format k fs chunks s.receiver running empty idle good room small e in
      let alone : c ≡ queue_behind ops done s'.receiver = some_injective (
        sym receives_all
        ∙ ap (λ rs. run_recv_thread ops format rs s.receiver) (sym given)
        ∙ same.receives_the_same) in
      last_round steps s s' done (packets fs) runs same
        (sym (ap (λ (r : Receiver ops). r.need_stop) alone) ∙ on)
        (sym (ap (λ (r : Receiver ops). r.recv_buffer_queue) alone) ∙ queued)
