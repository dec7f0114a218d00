-- ===== src/Client/Logic/Draining.antt =====
-- A round of the logic thread processes what is in the queue.
use actor_model_server.Base.{
  ℕ, ◌≡◌, refl, sym, ap, ◌∙◌, true, false, List, [], ◌∷◌, ◌++◌, length, append_assoc, append-nil,
  if◌then◌else◌,
}
use actor_model_server.NetLib.{RingOps, PacketFormat}
use actor_model_server.SimpleClient.{Receiver}
use actor_model_server.Client.{ActorMap, ClientEvent, Packet, process_logic}
use actor_model_server.Client.Logic.{
  get_recv_buffer, Running, process_buffer, process_buffers, logic_round,
}

module _ (read : List ℕ → Packet) where
  -- `ProcessLogic` for each packet.
  abbrev pub handled : List (List ℕ) → ActorMap → ActorMap × List ClientEvent
  handled [] actors = (actors, [])
  handled (b ∷ bs) actors =
      let (actors', events) = process_logic (read b) actors in
      let (actors'', more) = handled bs actors' in (actors'', events ++ more)

  pub handled-append :
      (xs ys : List (List ℕ)) (actors : ActorMap)
      → handled (xs ++ ys) actors ≡ (
        (handled ys (handled xs actors).0).0,
        (handled xs actors).1 ++ (handled ys (handled xs actors).0).1,
      )
  handled-append [] ys actors = refl
  handled-append (b ∷ xs) ys actors =
      let here = process_logic (read b) actors in
      let rest = handled-append xs ys here.0 in
      ap (λ (r : ActorMap × List ClientEvent). (r.0, here.1 ++ r.1)) rest
      ∙ ap (λ es. ((handled ys (handled xs here.0).0).0, es)) (sym (append_assoc here.1 _ _))

module _ (ops : RingOps) (format : PacketFormat) (read : List ℕ → Packet) where
  process_buffers-handled :
      (queue : List (List ℕ)) (c : Receiver ops) (actors : ActorMap) (events : List ClientEvent)
      → process_buffers ops format read (length queue) (record {
        receiver = record c { recv_buffer_queue = queue };
        actors = actors;
        events = events;
      })
        ≡ record {
          receiver = record c { recv_buffer_queue = [] };
          actors = (handled read queue actors).0;
          events = events ++ (handled read queue actors).1;
        }
  unfolding process_buffers process_buffer get_recv_buffer
  process_buffers-handled [] c actors events =
      ap
        (λ es. record {
          receiver = record c { recv_buffer_queue = [] };
          actors = actors;
          events = es;
        })
        (sym (append-nil events))
  process_buffers-handled (b ∷ queue) c actors events =
      let here = process_logic (read b) actors in
      process_buffers-handled queue c here.0 (events ++ here.1)
      ∙ ap
          (λ es. record {
            receiver = record c { recv_buffer_queue = [] };
            actors = (handled read queue here.0).0;
            events = es;
          })
          (append_assoc events here.1 (handled read queue here.0).1)

  abbrev pub drained : Running ops → Running ops
  drained s =
      let queue = s.receiver.recv_buffer_queue in
      record {
        receiver = record s.receiver { recv_buffer_queue = [] };
        actors = (handled read queue s.actors).0;
        events = s.events ++ (handled read queue s.actors).1;
      }

  pub logic_round-drained :
      (s : Running ops) → s.receiver.need_stop ≡ false → logic_round ops format read s ≡ drained s
  unfolding logic_round
  logic_round-drained s running =
      ap
        (λ b.
          if b then s else process_buffers ops format read (length s.receiver.recv_buffer_queue) s)
        running
      ∙ process_buffers-handled s.receiver.recv_buffer_queue s.receiver s.actors s.events

  pub logic_round_stopped :
      (s : Running ops) → s.receiver.need_stop ≡ true → logic_round ops format read s ≡ s
  unfolding logic_round
  logic_round_stopped s stopped =
      ap
        (λ b.
          if b then s else process_buffers ops format read (length s.receiver.recv_buffer_queue) s)
        stopped
