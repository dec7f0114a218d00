-- ===== src/Actor/Examples.antt =====
-- An actor and its packets at concrete inputs.
use actor_model_server.Base.{
  ℕ, ◌+◌, ◌≡◌, refl, true, false, none, some, List, [], ◌∷◌, ◌++◌, arith, if◌then◌else◌, ◌==◌,
}
use actor_model_server.Base.UnorderedMap.{Map, find}
use actor_model_server.Deserializer.{Arg, string, primitive, text, value}
use actor_model_server.Deserializer.RoundTrip.{encode_all}
use actor_model_server.Actor.{
  Actor, Action, sends, stops, send_message, stop, perform, call, consume, process_message,
}
use actor_model_server.Actor.Delivery.{logged, process_message_batch, callable}
use actor_model_server.Actor.History.{Op, send, tick, op_step, run, run-fifo, acceptances}
use actor_model_server.Actor.Packets.{MessageFactory, handle, create_message_from_packet}
use actor_model_server.Actor.Packets.Instances.{list_buffer, list_buffer-NetBufferLaws}
use actor_model_server.Actor.Packets.Dispatch.{le32, create_message_from_packet_dispatches}

-- Message 1 sends message 5 and a null message, message 2 stops the actor and then sends, and
-- every message adds its number to the world.
abbrev invoke : ℕ → ℕ → ℕ × List (Action ℕ)
invoke f w = (
  w + f,
  if f == 1
      then sends (some 5) ∷ sends none ∷ []
      else if f == 2
      then stops ∷ sends (some 6) ∷ []
      else [],
)

abbrev fresh : Actor ℕ (ℕ × List ℕ)
fresh = record { consumer_queue = []; store_queue = []; is_stop = false; world = (0, []) }

abbrev busy : List (Op ℕ)
busy =
    send (some 1)
    ∷ send none
    ∷ tick
    ∷ send (some 2)
    ∷ send (some 3)
    ∷ tick
    ∷ send (some 4)
    ∷ tick
    ∷ []

busy_runs : run invoke busy fresh ≡ record {
  consumer_queue = [];
  store_queue = [];
  is_stop = true;
  world = (11, 1 ∷ 5 ∷ 2 ∷ 3 ∷ []);
}
unfolding run op_step send_message stop process_message consume call perform
busy_runs = refl

process_message_batch_example :
    process_message (logged invoke) (record fresh { store_queue = some 2 ∷ none ∷ some 1 ∷ [] })
    ≡ record { consumer_queue = []; store_queue = []; is_stop = true; world = (3, 2 ∷ 1 ∷ []) }
process_message_batch_example = process_message_batch invoke (some 2 ∷ none ∷ some 1 ∷ []) 0 []

run-fifo_example :
    (run invoke busy fresh).world.1 ++ callable (run invoke busy fresh).store_queue
    ≡ callable (acceptances invoke busy fresh)
run-fifo_example = run-fifo invoke busy fresh refl

-- Handler 77 takes a string and a 64-bit number, and is registered for packet 3.
abbrev factories : Map (MessageFactory ℕ)
factories = (3, record { handler = 77; types = string ∷ primitive 8 ∷ [] }) ∷ []

abbrev args : List Arg
args = text (104 ∷ 105 ∷ []) ∷ value (1 ∷ 0 ∷ 0 ∷ 0 ∷ 0 ∷ 0 ∷ 0 ∷ 0 ∷ []) ∷ []

create_message_from_packet_dispatches_example :
    create_message_from_packet list_buffer (le32 3 ++ encode_all args ++ 9 ∷ []) factories
    ≡ some (handle 77 args)
unfolding find
create_message_from_packet_dispatches_example =
    create_message_from_packet_dispatches list_buffer list_buffer-NetBufferLaws
      (le32 3 ++ encode_all args ++ 9 ∷ []) factories 3
      (record { handler = 77; types = string ∷ primitive 8 ∷ [] }) args (9 ∷ []) refl
      (omega arith, (omega arith, tt)) refl (omega arith)
