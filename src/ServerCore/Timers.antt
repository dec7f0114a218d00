-- ===== src/ServerCore/Timers.antt =====
-- A logic thread's round over the mailboxes of its actors: `PreWakeLogicThread`, `OnWakeLogicThread`
-- and `PostWakeLogicThread` with the `PreTimer`, `OnTimer` and `PostTimer` that they call, those of
-- SessionTimer.cpp and of NonNetworkActor.h, and the messages that other threads send between rounds.
-- `MediatorBase::OnTimer`, which looks for transactions that are too old, leaves the mailbox as it is
-- too; what it does else is in Mediator. A map's iteration order does not matter, as each actor has
-- its own state.
pub mod Mailboxes
pub mod Serving
mod Examples
use actor_model_server.Base.{ℕ, Option, List, [], ◌∷◌, ◌==◌, if◌then◌else◌}
use actor_model_server.Base.UnorderedMap.{Map}
use actor_model_server.Actor.{Actor, Action, send_message, process_message}

pub record ThreadActors (M W : Type 0) : Type 0 where
  pub sessions : Map (Actor M W)
  pub non_network_actors : Map (Actor M W)

-- A round of the thread, or a message to one of its sessions or of its other actors.
pub data ThreadStep (M : Type 0) : Type 0 where
  wakes : ThreadStep M
  sends_session sends_actor : ℕ → Option M → ThreadStep M

module _ {M W : Type 0} (invoke : M → W → W × List (Action M)) where
  pub session_pre_timer : Actor M W → Actor M W
  session_pre_timer a = a

  pub session_on_timer : Actor M W → Actor M W
  session_on_timer a = process_message invoke a

  pub session_post_timer : Actor M W → Actor M W
  session_post_timer a = a

  pub non_network_timer : Actor M W → Actor M W
  non_network_timer a = a

  -- The loop over the values of a map.
  pub each_actor : (Actor M W → Actor M W) → Map (Actor M W) → Map (Actor M W)
  each_actor timer [] = []
  each_actor timer ((id, a) ∷ m) = (id, timer a) ∷ each_actor timer m

  pub pre_wake : ThreadActors M W → ThreadActors M W
  pre_wake t = record {
    sessions = each_actor session_pre_timer t.sessions;
    non_network_actors = each_actor non_network_timer t.non_network_actors;
  }

  pub on_wake : ThreadActors M W → ThreadActors M W
  on_wake t = record {
    sessions = each_actor session_on_timer t.sessions;
    non_network_actors = each_actor non_network_timer t.non_network_actors;
  }

  pub post_wake : ThreadActors M W → ThreadActors M W
  post_wake t = record {
    sessions = each_actor session_post_timer t.sessions;
    non_network_actors = each_actor non_network_timer t.non_network_actors;
  }

  -- `SendMessage` by another thread, on the actor that it found by its id.
  pub send_to : ℕ → Option M → Map (Actor M W) → Map (Actor M W)
  send_to id message [] = []
  send_to id message ((k, a) ∷ m) =
      let rest = send_to id message m in
      if k == id then (k, (send_message message a).0) ∷ m else (k, a) ∷ rest

  -- The rounds of the thread, and what other threads send to its actors between them.
  pub run_rounds : List (ThreadStep M) → ThreadActors M W → ThreadActors M W
  run_rounds [] t = t
  run_rounds (wakes ∷ steps) t = run_rounds steps (post_wake (on_wake (pre_wake t)))
  run_rounds (sends_session id message ∷ steps) t =
      run_rounds steps (record t { sessions = send_to id message t.sessions })
  run_rounds (sends_actor id message ∷ steps) t =
      run_rounds steps (record t { non_network_actors = send_to id message t.non_network_actors })
