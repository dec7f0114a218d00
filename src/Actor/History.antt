-- ===== src/Actor/History.antt =====
-- An actor under any interleaving of sends, stops and logic ticks.
use actor_model_server.Base.{
  ◌≡◌, refl, sym, ap, subst, ◌∙◌, Bool, true, false, Option, List, [], ◌∷◌, ◌++◌, if◌then◌else◌,
  arith, append_assoc, append-nil,
}
use actor_model_server.Actor.{Actor, Action, send_message, stop, process_message}
use actor_model_server.Actor.Delivery.{
  callable, callable-append, arrivals, logged, process_message_batch,
}

pub data Op (M : Type 0) : Type 0 where
  send : Option M → Op M
  stop_actor : Op M
  tick : Op M

module _ {M W : Type 0} (invoke : M → W → W × List (Action M)) where
  unfoldable pub op_step : Op M → Actor M (W × List M) → Actor M (W × List M)
  op_step (send m) a = (send_message m a).0
  op_step stop_actor a = stop a
  op_step tick a = process_message (logged invoke) a

  unfoldable pub run : List (Op M) → Actor M (W × List M) → Actor M (W × List M)
  run [] a = a
  run (op ∷ ops) a = run ops (op_step op a)

  -- What one step adds to the accepted messages: those for which `SendMessage` returned true.
  abbrev pub newly : Op M → Actor M (W × List M) → List (Option M)
  newly (send m) a = if (send_message m a).1 then m ∷ [] else []
  newly stop_actor a = []
  newly tick a = if a.is_stop then [] else arrivals invoke (callable a.store_queue) a.world.0 false

  pub acceptances : List (Op M) → Actor M (W × List M) → List (Option M)
  acceptances [] a = []
  acceptances (op ∷ ops) a = newly op a ++ acceptances ops (op_step op a)

  abbrev idle_actor : List (Option M) → Bool → W → List M → Actor M (W × List M)
  idle_actor s b w log = record {
    consumer_queue = [];
    store_queue = s;
    is_stop = b;
    world = (w, log);
  }

  -- What has been executed, then what waits.
  abbrev line : Actor M (W × List M) → List M
  line a = a.world.1 ++ callable a.store_queue

  record Keeps (a a' : Actor M (W × List M)) (new : List (Option M)) : Type 0 where
    idle : a'.consumer_queue ≡ []
    in_order : line a' ≡ line a ++ callable new

  op_step-Keeps :
      (op : Op M) (s : List (Option M)) (b : Bool) (w : W) (log : List M)
      → Keeps
          (idle_actor s b w log)
          (op_step op (idle_actor s b w log))
          (newly op (idle_actor s b w log))
  unfolding op_step send_message stop
  op_step-Keeps (send m) s true w log = record { idle = refl; in_order = sym (append-nil _) }
  op_step-Keeps (send m) s false w log = record {
    idle = refl;
    in_order = ap (◌++◌ log) (callable-append s (m ∷ [])) ∙ sym (append_assoc log (callable s) _);
  }
  op_step-Keeps stop_actor s b w log = record { idle = refl; in_order = sym (append-nil _) }
  op_step-Keeps tick s true w log =
      unfold process_message in record { idle = refl; in_order = sym (append-nil _) }
  op_step-Keeps tick s false w log =
      rw (process_message_batch invoke s w log) (record { idle = refl; in_order = refl })

  -- Under any interleaving, the messages executed so far followed by those that wait are exactly
  -- the accepted ones that are not null, in the order of acceptance: none is lost, doubled or
  -- overtaken.
  pub run-fifo :
      (ops : List (Op M)) (a : Actor M (W × List M))
      → a.consumer_queue ≡ []
      → (run ops a).world.1 ++ callable (run ops a).store_queue
        ≡ (a.world.1 ++ callable a.store_queue) ++ callable (acceptances ops a)
  unfolding run acceptances
  run-fifo [] a e = sym (append-nil _)
  run-fifo (op ∷ ops) a e =
      let k = keeps in
      run-fifo ops (op_step op a) k.idle
      ∙ ap (λ (l : List M). l ++ callable (acceptances ops (op_step op a))) k.in_order
      ∙ append_assoc (line a) (callable (newly op a)) _
      ∙ ap (◌++◌ (line a)) (sym (callable-append (newly op a) (acceptances ops (op_step op a))))
    where
      same : idle_actor a.store_queue a.is_stop a.world.0 a.world.1 ≡ a
      same = ground arith

      keeps : Keeps a (op_step op a) (newly op a)
      keeps =
          subst (λ x. Keeps x (op_step op x) (newly op x)) same
            (op_step-Keeps op a.store_queue a.is_stop a.world.0 a.world.1)

  op_step_stopped :
      (op : Op M) (a : Actor M (W × List M))
      → a.is_stop ≡ true
      → (op_step op a ≡ a) × (newly op a ≡ [])
  unfolding op_step send_message stop process_message
  op_step_stopped (send m) a e = ground arith
  op_step_stopped stop_actor a e = ground arith
  op_step_stopped tick a e = ground arith

  -- A stopped actor stays as it is: it accepts nothing and executes nothing, whatever waits.
  pub run_stopped :
      (ops : List (Op M)) (a : Actor M (W × List M))
      → a.is_stop ≡ true
      → (run ops a ≡ a) × (callable (acceptances ops a) ≡ [])
  unfolding run acceptances
  run_stopped [] a e = (refl, refl)
  run_stopped (op ∷ ops) a e =
      let (same, silent) = op_step_stopped op a e in
      let (stays, quiet) = run_stopped ops a e in
      (ap (run ops) same ∙ stays, rw (silent, same) quiet)
