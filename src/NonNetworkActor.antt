-- ===== src/NonNetworkActor.antt =====
-- ActorModelServer/ActorModelServer/NonNetworkActor.h and NonNetworkActor.cpp, ActorCreator.h, and
-- PacketManager.h: actors without a session, how they come into the server's maps, and a table of
-- messages.
use actor_model_server.Base.{
  ℕ, ◌≡◌, refl, Bool, false, Option, none, some, List, [], ◌∷◌, if◌then◌else◌, not, Bool-cases, inl,
  inr,
}
use actor_model_server.Base.UnorderedMap.{Map, find}
use actor_model_server.ServerCore.Registry.{
  ServerCore, Handle, CoreEvent, actor_created, find_actor, get_target_thread_id,
  register_non_network_actor, unregister_non_network_actor,
}
use actor_model_server.ServerCore.Registry.Lookup.{find_actor-register_non_network_actor}

pub record NonNetworkActor : Type 0 where
  pub handle : Handle
  pub is_tester_actor : Bool

-- `NonNetworkActor::RegisterNonNetworkActor`: the server is not told of a tester.
pub register_actor : NonNetworkActor → ServerCore → ServerCore × List CoreEvent
register_actor a core =
    let (core', events, registered) =
      register_non_network_actor (some a.handle) a.handle.thread_id core in
    if not a.is_tester_actor then (core', events) else (core, [])

pub unregister_actor : NonNetworkActor → ServerCore → ServerCore × List CoreEvent
unregister_actor a core =
    let (core', events, unregistered) =
      unregister_non_network_actor (some a.handle) a.handle.thread_id core in
    if not a.is_tester_actor then (core', events) else (core, [])

-- The type that `ActorCreator::Create` makes: one derived from `NonNetworkActor`, or another actor.
pub data Made : Type 0 where
  non_network : NonNetworkActor → Made
  network : Handle → Made

pub create : Made → ServerCore → ServerCore × List CoreEvent
unfolding register_actor
create (non_network a) core = register_actor a core
create (network h) core = (core, actor_created h ∷ [])

-- `PacketManager::GetMessageFromPacket`: a null message where the id is not in the map. No code puts
-- an id into the map.
pub get_message_from_packet : {M : Type 0} → ℕ → Map M → Option M
get_message_from_packet id packet_handler_map = find id packet_handler_map

-- `ActorCreator::Create` of an actor without a session, whose thread is the one of its id and whose
-- id is not in use: the actor can be found and its `OnActorCreated` was called once, unless it is a
-- tester, for which nothing happens.
pub create_lem :
    (a : NonNetworkActor) (core : ServerCore)
    → a.handle.thread_id ≡ get_target_thread_id a.handle.actor_id core
    → find_actor a.handle.actor_id false core ≡ none
    → (find_actor a.handle.actor_id false (create (non_network a) core).0
        ≡ (if a.is_tester_actor then none else some a.handle))
      × ((create (non_network a) core).1
          ≡ (if a.is_tester_actor then [] else actor_created a.handle ∷ []))
unfolding create register_actor
create_lem a core own absent = elim (Bool-cases a.is_tester_actor) [
  | inl tester ↦ rw tester (absent, refl)
  | inr other ↦ rw other (find_actor-register_non_network_actor a.handle core own absent)
]
