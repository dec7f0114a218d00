-- ===== src/Client.antt =====
-- ActorModelServer/TestClient: ActorManager.cpp, Actor.h, Actor.cpp, ActorCreator.h,
-- ClientLogicHandler.cpp and ClientLogicProcess.cpp: the client's actors and the packets that add
-- and remove them. What `operator>>` reads of a packet is a record; what the code does to the outside
-- is the list of events that an operation returns.
pub mod Actors
pub mod Packets
pub mod Logic
mod Examples
use actor_model_server.Base.{
  ℕ, Bool, true, false, Option, none, some, List, [], ◌∷◌, ◌++◌, ◌==◌, if◌then◌else◌,
}
use actor_model_server.Base.UnorderedMap.{Map, find, assign, erase}

-- A `Player` of the client, the only actor that it makes.
pub record Player : Type 0 where
  pub actor_id : ℕ

pub data ClientEvent : Type 0 where
  actor_created actor_destroyed : Player → ClientEvent
  ping_sent unknown_type_logged create_failed_logged unknown_packet_logged : ClientEvent

abbrev pub ActorMap : Type 0
ActorMap = Map Player

pub find_actor : ℕ → ActorMap → Option Player
find_actor id actors = find id actors

pub add_actor : Option Player → ActorMap → ActorMap × List ClientEvent
add_actor none actors = (actors, [])
add_actor (some a) actors = (assign a.actor_id a actors, actor_created a ∷ [])

pub remove_actor : ℕ → ActorMap → ActorMap × List ClientEvent
remove_actor id actors = elim (find id actors) [
  | none ↦ (actors, [])
  | some a ↦ (erase id actors, actor_destroyed a ∷ [])
]

pub clear_all_actors : ActorMap → ActorMap
clear_all_actors actors = []

-- `Actor::Create<Player>`, which registers the actor.
pub create : ℕ → ActorMap → Player × ActorMap × List ClientEvent
create id actors =
    let a : Player = record { actor_id = id } in
    let (actors', events) = add_actor (some a) actors in (a, actors', events)

-- `enum ACTOR_TYPE`.
abbrev pub player : ℕ
player = 1

-- `ActorCreator::CreateActor`, which gives the type where `Create` takes the id.
pub create_actor : ℕ → ℕ → ActorMap → Option Player × ActorMap × List ClientEvent
create_actor actor_id actor_type actors =
    let (a, actors', events) = create actor_type actors in
    if actor_type == player
    then (some a, actors', events)
    else (none, actors, unknown_type_logged ∷ [])

-- The handler of APPEAR_ACTOR once `CreateActor` has returned.
pub add_created : Option Player × ActorMap × List ClientEvent → ActorMap × List ClientEvent
add_created (none, actors, events) = (actors, events ++ create_failed_logged ∷ [])
add_created (some a, actors, events) =
    let (actors', more) = add_actor (some a) actors in (actors', events ++ more)

-- A packet by its `PACKET_ID`, with what its handler reads.
pub data Packet : Type 0 where
  ping pong : Packet
  appear_actor : ℕ → ℕ → Packet
  disappear_actor : ℕ → Packet
  other : ℕ → Packet

-- `Client::ProcessLogic` with its handlers `Pong`, `AddActor` and `RemoveActor`; the case of
-- DISAPPEAR_ACTOR has no `break`.
pub process_logic : Packet → ActorMap → ActorMap × List ClientEvent
process_logic pong actors = (actors, ping_sent ∷ [])
process_logic (appear_actor id type) actors = add_created (create_actor id type actors)
process_logic (disappear_actor id) actors =
    let (actors', events) = remove_actor id actors in
    (actors', events ++ unknown_packet_logged ∷ [])
process_logic ping actors = (actors, unknown_packet_logged ∷ [])
process_logic (other id) actors = (actors, unknown_packet_logged ∷ [])
