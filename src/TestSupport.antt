-- ===== src/TestSupport.antt =====
-- ActorModelServer/ActorModelServer/TestSupport.h and TestSupport.cpp: the sessions and actors that a
-- test registers, a round of their timers, and a packet that is handled at once. A pointer is the
-- handle of its actor, nothing where it is null; pointers are equal where the ids are.
pub mod Rounds
pub mod Packets
mod Examples
use actor_model_server.Base.{
  ℕ, Bool, true, false, Option, none, some, List, [], ◌∷◌, ◌++◌, map, ◌==◌, if◌then◌else◌,
}
use actor_model_server.Base.UnorderedMap.{Map}
use actor_model_server.Actor.{Actor, Action, call}
use actor_model_server.Actor.Packets.{
  NetBufferOps, MessageFactory, PacketMessage, create_message_from_packet,
}
use actor_model_server.ServerCore.Registry.{Handle, CoreEvent, pre_timer, on_timer, post_timer}

pub record TestInterface : Type 0 where
  pub test_session_list : List Handle
  pub test_non_network_actor_list : List Handle

pub register_session : Option Handle → TestInterface → TestInterface
register_session none t = t
register_session (some h) t = record t { test_session_list = t.test_session_list ++ h ∷ [] }

-- `erase(std::ranges::find(list, pointer))`, where it is found: the first one.
pub erase_first : Handle → List Handle → List Handle
erase_first h [] = []
erase_first h (g ∷ gs) =
    let rest = erase_first h gs in if g.actor_id == h.actor_id then gs else g ∷ rest

pub unregister_session : Option Handle → TestInterface → TestInterface
unregister_session none t = t
unregister_session (some h) t = record t { test_session_list = erase_first h t.test_session_list }

pub register_non_network_actor : Option Handle → TestInterface → TestInterface
register_non_network_actor none t = t
register_non_network_actor (some h) t = record t {
  test_non_network_actor_list = t.test_non_network_actor_list ++ h ∷ [];
}

pub unregister_non_network_actor : Option Handle → TestInterface → TestInterface
unregister_non_network_actor none t = t
unregister_non_network_actor (some h) t = record t {
  test_non_network_actor_list = erase_first h t.test_non_network_actor_list;
}

pub pre_timer_for_test : TestInterface → List CoreEvent
pre_timer_for_test t =
    map pre_timer t.test_session_list ++ map pre_timer t.test_non_network_actor_list

pub on_timer_for_test : TestInterface → List CoreEvent
on_timer_for_test t = map on_timer t.test_session_list ++ map on_timer t.test_non_network_actor_list

pub post_timer_for_test : TestInterface → List CoreEvent
post_timer_for_test t =
    map post_timer t.test_session_list ++ map post_timer t.test_non_network_actor_list

pub tick : TestInterface → List CoreEvent
tick t = pre_timer_for_test t ++ (on_timer_for_test t ++ post_timer_for_test t)

pub tear_down : TestInterface → TestInterface
tear_down t = record { test_session_list = []; test_non_network_actor_list = [] }

module _ (buffers : NetBufferOps) {H W : Type 0}
    (invoke : PacketMessage H → W → W × List (Action (PacketMessage H))) where
  -- `msgOpt.value()()` or the log of a packet that makes no message. What a handler has done before
  -- it throws is done; the exception itself is caught and logged.
  pub run_for_test :
      Option (PacketMessage H) → Actor (PacketMessage H) W → Actor (PacketMessage H) W
  run_for_test none a = a
  run_for_test (some m) a = call invoke m a

  -- The buffer is what `InjectPacketForTest` makes of the packet.
  pub send_packet_for_test :
      buffers.Buffer
      → Map (MessageFactory H)
      → Actor (PacketMessage H) W
      → Actor (PacketMessage H) W
  send_packet_for_test b factories a =
      run_for_test (create_message_from_packet buffers b factories) a
