-- ===== src/Actor.antt =====
-- ActorModelServer/ActorModelServer/Actor.h and Actor.cpp: an actor's identity, its two message
-- queues, and its packet handlers. A `Message` (`std::function<void()>`) is a value of a type `M`,
-- a null one is `none`. What a message does when it is called is the parameter `invoke`: it changes
-- a world `W`, and sends messages to this actor or stops it, in some order. Sends of other threads
-- that arrive while a message runs are among those actions. A message that calls
-- `ProcessMessage` again, or that throws, is not modelled.
pub mod Delivery
pub mod History
pub mod Quiet
pub mod Packets
mod Examples
use actor_model_server.Base.{
  ℕ, ◌+◌, ◌%◌, ◌^◌, Bool, true, false, Option, none, some, List, [], ◌∷◌, ◌++◌, if◌then◌else◌,
}

-- `ActorIdGenerator::GenerateActorId`: `++actorIdGenerator` on an `unsigned long long` that starts
-- at 0. The generator's new value is the id.
pub generate_actor_id : ℕ → ℕ
generate_actor_id generator = (generator + 1) % 2 ^ 64

pub record Actor (M W : Type 0) : Type 0 where
  pub consumer_queue : List (Option M)
  pub store_queue : List (Option M)
  pub is_stop : Bool
  pub world : W

pub data Action (M : Type 0) : Type 0 where
  sends : Option M → Action M
  stops : Action M

module _ {M W : Type 0} where
  -- The body that the four `SendMessage` overloads share, once the message is bound.
  unfoldable pub send_message : Option M → Actor M W → Actor M W × Bool
  send_message m a =
      if a.is_stop then (a, false) else (record a { store_queue = a.store_queue ++ m ∷ [] }, true)

  pub stop : Actor M W → Actor M W
  stop a = record a { is_stop = true }

  pub perform : List (Action M) → Actor M W → Actor M W
  perform [] a = a
  perform (sends m ∷ acts) a = perform acts (send_message m a).0
  perform (stops ∷ acts) a = perform acts (stop a)

module _ {M W : Type 0} (invoke : M → W → W × List (Action M)) where
  -- `messageFunction()`.
  pub call : M → Actor M W → Actor M W
  call f a = let (world, acts) = invoke f a.world in perform acts (record a { world = world })

  -- The loop over `consumerQueue`, which nothing else touches while it runs. A null message is
  -- popped and skipped.
  pub consume : List (Option M) → Actor M W → Actor M W
  consume [] a = record a { consumer_queue = [] }
  consume (none ∷ queue) a = consume queue a
  consume (some f ∷ queue) a = consume queue (call f a)

  pub process_message : Actor M W → Actor M W
  process_message a =
      if a.is_stop
      then a
      else consume a.store_queue
          (record a { consumer_queue = a.store_queue; store_queue = a.consumer_queue })
