-- ===== src/Actor/Delivery.antt =====
-- The mailbox is a first-in first-out queue: every message that was accepted is executed once, in
-- the order of acceptance, or still waits.
use actor_model_server.Base.{
  ◌≡◌, refl, sym, subst, ap, ◌∙◌, Bool, true, false, ◌||◌, Option, none, some, List, [], ◌∷◌, ◌++◌,
  arith, append_assoc, append-nil,
}
use actor_model_server.Actor.{
  Actor, Action, sends, stops, send_message, stop, perform, call, consume, process_message,
}

-- The messages that are not null.
abbrev pub callable : {M : Type 0} → List (Option M) → List M
callable [] = []
callable (none ∷ ms) = callable ms
callable (some f ∷ ms) = f ∷ callable ms

pub callable-append :
    {M : Type 0} (xs ys : List (Option M)) → callable (xs ++ ys) ≡ callable xs ++ callable ys
callable-append [] ys = refl
callable-append (none ∷ xs) ys = callable-append xs ys
callable-append (some f ∷ xs) ys = ap (◌∷◌ f) (callable-append xs ys)

-- What an actor accepts of a list of actions: the messages sent before it is stopped.
abbrev pub accepted : {M : Type 0} → List (Action M) → Bool → List (Option M)
accepted [] stopped = []
accepted (sends m ∷ acts) true = accepted acts true
accepted (sends m ∷ acts) false = m ∷ accepted acts false
accepted (stops ∷ acts) stopped = accepted acts true

abbrev pub halts : {M : Type 0} → List (Action M) → Bool
halts [] = false
halts (sends m ∷ acts) = halts acts
halts (stops ∷ acts) = true

or_true : (b : Bool) → (b || true) ≡ true
or_true true = refl
or_true false = refl

pub perform_lem :
    {M W : Type 0} (acts : List (Action M)) (b : Bool) (c s : List (Option M)) (w : W)
    → perform acts (record { consumer_queue = c; store_queue = s; is_stop = b; world = w })
      ≡ record {
        consumer_queue = c;
        store_queue = s ++ accepted acts b;
        is_stop = b || halts acts;
        world = w;
      }
unfolding perform send_message stop
perform_lem [] true c s w = ground (arith, append-nil s)
perform_lem [] false c s w = ground (arith, append-nil s)
perform_lem (sends m ∷ acts) true c s w = perform_lem acts true c s w
perform_lem (sends m ∷ acts) false c s w =
    perform_lem acts false c (s ++ m ∷ []) w
    ∙ ground (arith, append_assoc s (m ∷ []) (accepted acts false))
perform_lem (stops ∷ acts) true c s w = perform_lem acts true c s w
perform_lem (stops ∷ acts) false c s w = perform_lem acts true c s w

module _ {M W : Type 0} (invoke : M → W → W × List (Action M)) where
  -- `invoke`, with a log of the messages that were executed.
  abbrev pub logged : M → W × List M → (W × List M) × List (Action M)
  logged f (w, log) = let (w', acts) = invoke f w in ((w', log ++ f ∷ []), acts)

  -- The worlds that a batch goes through, and what it accepts on the way.
  abbrev pub after_batch : List M → W → W
  after_batch [] w = w
  after_batch (f ∷ fs) w = after_batch fs (invoke f w).0

  abbrev pub arrivals : List M → W → Bool → List (Option M)
  arrivals [] w stopped = []
  arrivals (f ∷ fs) w stopped =
      let (w', acts) = invoke f w in accepted acts stopped ++ arrivals fs w' (stopped || halts acts)

  abbrev pub stopped_after : List M → W → Bool → Bool
  stopped_after [] w stopped = stopped
  stopped_after (f ∷ fs) w stopped =
      let (w', acts) = invoke f w in stopped_after fs w' (stopped || halts acts)

  consume_lem :
      (queue c s : List (Option M)) (b : Bool) (w : W) (log : List M)
      → consume logged queue
          (record { consumer_queue = c; store_queue = s; is_stop = b; world = (w, log) })
        ≡ record {
          consumer_queue = [];
          store_queue = s ++ arrivals (callable queue) w b;
          is_stop = stopped_after (callable queue) w b;
          world = (after_batch (callable queue) w, log ++ callable queue);
        }
  unfolding consume call
  consume_lem [] c s b w log = ground (arith, append-nil s, append-nil log)
  consume_lem (none ∷ queue) c s b w log = consume_lem queue c s b w log
  consume_lem (some f ∷ queue) c s b w log =
      let acts = (invoke f w).1 in
      ap (consume logged queue) (perform_lem acts b c s ((invoke f w).0, log ++ f ∷ []))
      ∙ consume_lem queue c (s ++ accepted acts b) (b || halts acts) (invoke f w).0 (log ++ f ∷ [])
      ∙ rw
          (
            append_assoc s (accepted acts b)
                (arrivals (callable queue) (invoke f w).0 (b || halts acts)),
            append_assoc log (f ∷ []) (callable queue),
          )
          refl

  -- One `ProcessMessage` of an actor that is not stopped executes exactly the messages that were
  -- stored when it began, each once and in order, null ones skipped; also when one of them stops
  -- the actor. What those messages send waits for the next time.
  pub process_message_batch :
      (s : List (Option M)) (w : W) (log : List M)
      → process_message logged
          (record { consumer_queue = []; store_queue = s; is_stop = false; world = (w, log) })
        ≡ record {
          consumer_queue = [];
          store_queue = arrivals (callable s) w false;
          is_stop = stopped_after (callable s) w false;
          world = (after_batch (callable s) w, log ++ callable s);
        }
  unfolding process_message
  process_message_batch s w log = consume_lem s s [] false w log

module _ {M W : Type 0} (invoke : M → W → W × List (Action M)) where
  abbrev empty_mailbox : W → Actor M W
  empty_mailbox w = record { consumer_queue = []; store_queue = []; is_stop = false; world = w }

  process_one_fresh :
      (m : M) (w : W)
      → call invoke m (empty_mailbox w)
        ≡ process_message invoke (send_message (some m) (empty_mailbox w)).0
  unfolding process_message consume call send_message
  process_one_fresh m w =
      let (w', acts) = invoke m w in
      perform_lem acts false [] [] w'
      ∙ ap (λ (x : Actor M W). record x { consumer_queue = [] })
          (sym (perform_lem acts false (some m ∷ []) [] w'))

  -- A message in an otherwise empty mailbox.
  pub process_one :
      (m : M) (a : Actor M W)
      → a.is_stop ≡ false
      → a.store_queue ≡ []
      → a.consumer_queue ≡ []
      → call invoke m a ≡ process_message invoke (send_message (some m) a).0
  process_one m a on empty idle =
      let same : empty_mailbox a.world ≡ a = λ i. record {
        consumer_queue = sym idle i;
        store_queue = sym empty i;
        is_stop = sym on i;
        world = a.world;
      } in
      subst (λ x. call invoke m x ≡ process_message invoke (send_message (some m) x).0) same
        (process_one_fresh m a.world)
