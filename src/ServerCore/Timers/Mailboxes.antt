-- ===== src/ServerCore/Timers/Mailboxes.antt =====
-- Which mailboxes a logic thread processes.
use actor_model_server.Base.{
  ℕ, false, ◌≡◌, refl, sym, ap, ◌∙◌, Option, none, some, List, [], ◌∷◌, ◌++◌, arith, ◌==◌,
  Bool-cases, inl, inr, append-nil, append_assoc, if◌then◌else◌,
}
use actor_model_server.Base.UnorderedMap.{Map, find}
use actor_model_server.Actor.{Actor, Action, send_message, process_message}
use actor_model_server.Actor.Delivery.{callable, callable-append, after_batch}
use actor_model_server.Actor.Quiet.{IsQuiet, after_batch-append, process_message_quiet}
use actor_model_server.ServerCore.Timers.{
  ThreadActors, ThreadStep, wakes, sends_session, sends_actor, session_pre_timer, session_on_timer,
  session_post_timer, non_network_timer, each_actor, pre_wake, on_wake, post_wake, send_to,
  run_rounds,
}

abbrev pub apply {ℓ} : {A : Type ℓ} → (A → A) → Option A → Option A
apply f none = none
apply f (some a) = some (f a)

apply_same {ℓ} : {A : Type ℓ} (o : Option A) → apply (λ a. a) o ≡ o
apply_same none = refl
apply_same (some a) = refl

-- An actor that runs, with some messages in its mailbox.
abbrev pub waiting_on : {M W : Type 0} → List (Option M) → W → Actor M W
waiting_on s w = record { consumer_queue = []; store_queue = s; is_stop = false; world = w }

abbrev pub sent_to_session : {M : Type 0} → ℕ → List (ThreadStep M) → List (Option M)
sent_to_session id [] = []
sent_to_session id (wakes ∷ steps) = sent_to_session id steps
sent_to_session id (sends_session k message ∷ steps) =
    (if k == id then message ∷ [] else []) ++ sent_to_session id steps
sent_to_session id (sends_actor k message ∷ steps) = sent_to_session id steps

abbrev pub sent_to_actor : {M : Type 0} → ℕ → List (ThreadStep M) → List (Option M)
sent_to_actor id [] = []
sent_to_actor id (wakes ∷ steps) = sent_to_actor id steps
sent_to_actor id (sends_session k message ∷ steps) = sent_to_actor id steps
sent_to_actor id (sends_actor k message ∷ steps) =
    (if k == id then message ∷ [] else []) ++ sent_to_actor id steps

module _ {M W : Type 0} (invoke : M → W → W × List (Action M)) where
  find-each_actor :
      (id : ℕ) (timer : Actor M W → Actor M W) (m : Map (Actor M W))
      → find id (each_actor invoke timer m) ≡ apply timer (find id m)
  unfolding find each_actor
  find-each_actor id timer [] = refl
  find-each_actor id timer ((j, a) ∷ m) = elim (Bool-cases (j == id)) [
    | inl here ↦ rw here refl
    | inr later ↦ rw later (find-each_actor id timer m)
  ]

  abbrev one_round : ThreadActors M W → ThreadActors M W
  one_round t = post_wake invoke (on_wake invoke (pre_wake invoke t))

  one_round_session :
      (id : ℕ) (t : ThreadActors M W)
      → find id (one_round t).sessions ≡ apply (process_message invoke) (find id t.sessions)
  unfolding post_wake on_wake pre_wake session_pre_timer session_on_timer session_post_timer
  one_round_session id t =
      let before = each_actor invoke (session_pre_timer invoke) t.sessions in
      find-each_actor id (session_post_timer invoke)
        (each_actor invoke (session_on_timer invoke) before)
      ∙ apply_same (find id (each_actor invoke (session_on_timer invoke) before))
      ∙ find-each_actor id (session_on_timer invoke) before
      ∙ ap (apply (process_message invoke)) (
          find-each_actor id (session_pre_timer invoke) t.sessions
          ∙ apply_same (find id t.sessions))

  one_round_other :
      (id : ℕ) (t : ThreadActors M W)
      → find id (one_round t).non_network_actors ≡ find id t.non_network_actors
  unfolding post_wake on_wake pre_wake non_network_timer
  one_round_other id t =
      let same : (m : Map (Actor M W))
          → find id (each_actor invoke (non_network_timer invoke) m) ≡ find id m =
        λ m. find-each_actor id (non_network_timer invoke) m ∙ apply_same (find id m) in
      same _ ∙ same _ ∙ same t.non_network_actors

  find-send_to :
      (id k : ℕ) (message : Option M) (m : Map (Actor M W))
      → find id (send_to invoke k message m)
        ≡ (if k == id then apply (λ a. (send_message message a).0) (find id m) else find id m)
  unfolding find send_to
  find-send_to id k message [] = ground arith
  find-send_to id k message ((j, a) ∷ m) = ground (arith, find-send_to id k message m)

  sent_waits :
      (message : Option M) (s : List (Option M)) (w : W)
      → (send_message message (waiting_on s w)).0 ≡ waiting_on (s ++ message ∷ []) w
  unfolding send_message
  sent_waits message s w = refl

  find-send_to_waiting :
      (id k : ℕ) (message : Option M) (m : Map (Actor M W)) (s : List (Option M)) (w : W)
      → find id m ≡ some (waiting_on s w)
      → find id (send_to invoke k message m)
        ≡ some (waiting_on (s ++ (if k == id then message ∷ [] else [])) w)
  find-send_to_waiting id k message m s w e = elim (Bool-cases (k == id)) [
    | inl own ↦ find-send_to id k message m ∙ rw (own, e) (ap some (sent_waits message s w))
    | inr other ↦
        find-send_to id k message m
        ∙ rw (other, e) (ap (λ q. some (waiting_on q w)) (sym (append-nil s)))
  ]

  one_round_waiting :
      (id : ℕ) (t : ThreadActors M W) (s : List (Option M)) (w : W)
      → IsQuiet invoke
      → find id t.sessions ≡ some (waiting_on s w)
      → find id (one_round t).sessions ≡ some (waiting_on [] (after_batch invoke (callable s) w))
  one_round_waiting id t s w quiet e =
      one_round_session id t
      ∙ ap (apply (process_message invoke)) e
      ∙ ap some (process_message_quiet invoke s w quiet)

  run_rounds_session :
      (id : ℕ) (steps : List (ThreadStep M)) (t : ThreadActors M W) (s : List (Option M)) (w : W)
      → IsQuiet invoke
      → find id t.sessions ≡ some (waiting_on s w)
      → find id (run_rounds invoke (steps ++ wakes ∷ []) t).sessions
        ≡ some (waiting_on [] (after_batch invoke (callable (s ++ sent_to_session id steps)) w))
  unfolding run_rounds
  run_rounds_session id [] t s w quiet e =
      one_round_waiting id t s w quiet e
      ∙ ap (λ q. some (waiting_on [] (after_batch invoke (callable q) w))) (sym (append-nil s))
  run_rounds_session id (wakes ∷ steps) t s w quiet e =
      run_rounds_session id steps (one_round t) [] (after_batch invoke (callable s) w) quiet
        (one_round_waiting id t s w quiet e)
      ∙ ap (λ v. some (waiting_on [] v))
          (sym (after_batch-append invoke (callable s) (callable (sent_to_session id steps)) w)
            ∙ ap (λ ms. after_batch invoke ms w)
                (sym (callable-append s (sent_to_session id steps))))
  run_rounds_session id (sends_session k message ∷ steps) t s w quiet e =
      let new = if k == id then message ∷ [] else [] in
      run_rounds_session id steps (record t { sessions = send_to invoke k message t.sessions })
        (s ++ new) w quiet (find-send_to_waiting id k message t.sessions s w e)
      ∙ ap (λ q. some (waiting_on [] (after_batch invoke (callable q) w)))
          (append_assoc s new (sent_to_session id steps))
  run_rounds_session id (sends_actor k message ∷ steps) t s w quiet e =
      run_rounds_session id steps _ s w quiet e

  run_rounds_actor :
      (id : ℕ) (steps : List (ThreadStep M)) (t : ThreadActors M W) (s : List (Option M)) (w : W)
      → find id t.non_network_actors ≡ some (waiting_on s w)
      → find id (run_rounds invoke (steps ++ wakes ∷ []) t).non_network_actors
        ≡ some (waiting_on (s ++ sent_to_actor id steps) w)
  unfolding run_rounds
  run_rounds_actor id [] t s w e =
      one_round_other id t ∙ e ∙ ap (λ q. some (waiting_on q w)) (sym (append-nil s))
  run_rounds_actor id (wakes ∷ steps) t s w e =
      run_rounds_actor id steps (one_round t) s w (one_round_other id t ∙ e)
  run_rounds_actor id (sends_session k message ∷ steps) t s w e = run_rounds_actor id steps _ s w e
  run_rounds_actor id (sends_actor k message ∷ steps) t s w e =
      let new = if k == id then message ∷ [] else [] in
      run_rounds_actor id steps
        (record t { non_network_actors = send_to invoke k message t.non_network_actors }) (s ++ new)
        w (find-send_to_waiting id k message t.non_network_actors s w e)
      ∙ ap (λ q. some (waiting_on q w)) (append_assoc s new (sent_to_actor id steps))

  -- A session and another actor of a logic thread run, with messages in their mailboxes; messages
  -- neither send to the actor nor stop it. Other threads send messages to any actors at any points
  -- between the thread's rounds. After one more round the session has executed the messages that
  -- waited and then those that were sent to it, null ones aside, each once and in order, and has an
  -- empty mailbox. The other actor has executed none: all that waited and all that were sent to it
  -- are in its mailbox.
  pub run_rounds_lem :
      (steps : List (ThreadStep M)) (t : ThreadActors M W) (session actor : ℕ)
      (s s' : List (Option M)) (w w' : W)
      → IsQuiet invoke
      → find session t.sessions ≡ some (waiting_on s w)
      → find actor t.non_network_actors ≡ some (waiting_on s' w')
      → let after = run_rounds invoke (steps ++ wakes ∷ []) t in
        (find session after.sessions
          ≡ some (
              waiting_on [] (after_batch invoke (callable (s ++ sent_to_session session steps)) w)))
        × (find actor after.non_network_actors
            ≡ some (waiting_on (s' ++ sent_to_actor actor steps) w'))
  run_rounds_lem steps t session actor s s' w w' quiet e e' =
      (run_rounds_session session steps t s w quiet e, run_rounds_actor actor steps t s' w' e')
