-- ===== src/Ticker.antt =====
-- ActorModelServer/ActorModelServer/Ticker.h, Ticker.cpp, TimerEvent.h and TimerEvent.cpp: timer
-- events, their registration, and a round of the ticker's thread. The clock's milliseconds are an
-- argument of a round. A round's events are in the order of the list; the code's `std::map` has them
-- by id. Times are 64-bit and event ids 16-bit.
pub mod Rounds
pub mod Period
mod Examples
use actor_model_server.Base.{
  ℕ, ◌+◌, ◌*◌, ◌%◌, ◌^◌, Bool, true, false, Option, none, some, List, [], ◌∷◌, ◌++◌, leb,
  if◌then◌else◌,
}
use actor_model_server.Base.UnorderedMap.{Map, insert, erase, member}

pub record TimerEvent : Type 0 where
  pub timer_event_id : ℕ
  pub interval_ms : ℕ
  pub next_tick : ℕ

-- `TimerEventCreator::Create` with the generator's value, and the generator's next value.
pub create : ℕ → ℕ → TimerEvent × ℕ
create interval_ms generator = (
  record { timer_event_id = generator; interval_ms = interval_ms; next_tick = 0 },
  (generator + 1) % 2 ^ 16,
)

pub should_fire : ℕ → TimerEvent → Bool
should_fire current_tick e = leb e.next_tick current_tick

pub set_next_tick : ℕ → TimerEvent → TimerEvent
set_next_tick now_tick_ms e = record e { next_tick = (now_tick_ms + e.interval_ms) % 2 ^ 64 }

pub record Ticker : Type 0 where
  pub is_running : Bool
  pub tick_interval : ℕ
  pub now_ms : ℕ
  pub tick_count : ℕ
  pub timer_events : Map TimerEvent
  pub unregister_target_list : List ℕ

pub start : ℕ → ℕ → Ticker → Ticker
start interval_ms clock tk = record tk { tick_interval = interval_ms; now_ms = clock }

pub stop : Ticker → Ticker
stop tk = record tk { is_running = false; unregister_target_list = []; timer_events = [] }

-- `emplace` keeps an event that has the id already.
pub register_timer_event : Option TimerEvent → Ticker → Ticker × Bool
register_timer_event none tk = (tk, false)
register_timer_event (some e) tk =
    let e' = set_next_tick ((tk.now_ms + e.interval_ms) % 2 ^ 64) e in
    (record tk { timer_events = insert e.timer_event_id e' tk.timer_events }, true)

pub unregister_timer_event : ℕ → Ticker → Ticker
unregister_timer_event id tk =
    if member id tk.unregister_target_list
    then tk
    else record tk { unregister_target_list = tk.unregister_target_list ++ id ∷ [] }

pub erase_each : List ℕ → Map TimerEvent → Map TimerEvent
erase_each [] events = events
erase_each (id ∷ ids) events = erase_each ids (erase id events)

pub unregister_timer_event_impl : Ticker → Ticker
unregister_timer_event_impl tk = record tk {
  timer_events = erase_each tk.unregister_target_list tk.timer_events;
  unregister_target_list = [];
}

-- The loop over the events: the events after it, and the ids that fired.
pub fire_each : ℕ → Map TimerEvent → Map TimerEvent × List ℕ
fire_each now [] = ([], [])
fire_each now ((id, e) ∷ events) =
    let (events', fired) = fire_each now events in
    if should_fire now e
    then ((id, set_next_tick now e) ∷ events', id ∷ fired)
    else ((id, e) ∷ events', fired)

-- A round of the loop of `UpdateTick`, with the ids that fired.
pub update_tick : ℕ → Ticker → Ticker × List ℕ
update_tick clock tk =
    let tk' = unregister_timer_event_impl (record tk { now_ms = clock }) in
    let (events, fired) = fire_each clock tk'.timer_events in
    (record tk' { timer_events = events; tick_count = (tk'.tick_count + 1) % 2 ^ 64 }, fired)
