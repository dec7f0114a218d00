-- ===== src/Ticker/Rounds.antt =====
-- What a round of the ticker does for one event.
use actor_model_server.Base.{
  ℕ, ◌+◌, ◌%◌, ◌^◌, ◌≡◌, refl, ap, ◌∙◌, Bool, true, false, Option, none, some, List, [], ◌∷◌,
  if◌then◌else◌, arith, ◌&&◌, not, leb,
}
use actor_model_server.Base.UnorderedMap.{
  Map, find, contains, erase, member, IsMap, find-erase, erase-IsMap,
}
use actor_model_server.Ticker.{
  TimerEvent, Ticker, should_fire, set_next_tick, erase_each, unregister_timer_event_impl,
  fire_each, update_tick,
}

-- Whether an event that may be there fires, and what becomes of it.
abbrev pub fires : ℕ → Option TimerEvent → Bool
fires now none = false
fires now (some e) = leb e.next_tick now

abbrev pub after_fire : ℕ → Option TimerEvent → Option TimerEvent
after_fire now none = none
after_fire now (some e) =
    some
      (if leb e.next_tick now then record e { next_tick = (now + e.interval_ms) % 2 ^ 64 } else e)

find-erase_each :
    (id : ℕ) (ids : List ℕ) (events : Map TimerEvent)
    → find id (erase_each ids events) ≡ (if member id ids then none else find id events)
unfolding erase_each
find-erase_each id [] events = refl
find-erase_each id (k ∷ ids) events =
    find-erase_each id ids (erase k events) ∙ ground (arith, find-erase k id events)

erase_each-IsMap :
    (ids : List ℕ) (events : Map TimerEvent) → IsMap events → IsMap (erase_each ids events)
unfolding erase_each
erase_each-IsMap [] events h = h
erase_each-IsMap (k ∷ ids) events h = erase_each-IsMap ids (erase k events) (erase-IsMap k events h)

find-fire_each :
    (id now : ℕ) (events : Map TimerEvent)
    → find id (fire_each now events).0 ≡ after_fire now (find id events)
unfolding find fire_each should_fire set_next_tick
find-fire_each id now [] = refl
find-fire_each id now ((k, e) ∷ events) = ground (arith, find-fire_each id now events)

contains-fire_each :
    (id now : ℕ) (events : Map TimerEvent)
    → contains id (fire_each now events).0 ≡ contains id events
unfolding contains fire_each
contains-fire_each id now [] = refl
contains-fire_each id now ((k, e) ∷ events) = ground (arith, contains-fire_each id now events)

fire_each-IsMap :
    (now : ℕ) (events : Map TimerEvent) → IsMap events → IsMap (fire_each now events).0
unfolding fire_each
fire_each-IsMap now [] h = tt
fire_each-IsMap now ((k, e) ∷ events) h =
    ground (arith, fire_each-IsMap now events h.1, contains-fire_each k now events)

member-fired_absent :
    (id now : ℕ) (events : Map TimerEvent)
    → contains id events ≡ false
    → member id (fire_each now events).1 ≡ false
unfolding contains fire_each
member-fired_absent id now [] h = refl
member-fired_absent id now ((k, e) ∷ events) h = ground (arith, member-fired_absent id now events)

member-fired :
    (id now : ℕ) (events : Map TimerEvent)
    → IsMap events
    → member id (fire_each now events).1 ≡ fires now (find id events)
unfolding find fire_each should_fire
member-fired id now [] h = refl
member-fired id now ((k, e) ∷ events) h =
    ground (arith, member-fired id now events h.1, member-fired_absent id now events)

after_fire_kept :
    (now : ℕ) (b : Bool) (o : Option TimerEvent)
    → after_fire now (if b then none else o) ≡ (if b then none else after_fire now o)
after_fire_kept now true o = refl
after_fire_kept now false o = refl

fires_kept :
    (now : ℕ) (b : Bool) (o : Option TimerEvent)
    → fires now (if b then none else o) ≡ (not b && fires now o)
fires_kept now true o = refl
fires_kept now false o = refl

-- A round at time `clock`, for every id: an event that was unregistered is gone and does not fire;
-- any other fires exactly when its next tick is at most `clock`, and its next tick is `clock` and one
-- interval then, as 64 bits; one that does not fire stays as it is. The list of unregistered ids is empty
-- afterwards, one more round is counted, and the ids stay unique.
pub update_tick_lem :
    (id clock : ℕ) (tk : Ticker)
    → IsMap tk.timer_events
    → (find id (update_tick clock tk).0.timer_events ≡ (
        if member id tk.unregister_target_list
        then none
        else after_fire clock (find id tk.timer_events)))
      × (member id (update_tick clock tk).1
          ≡ (not (member id tk.unregister_target_list) && fires clock (find id tk.timer_events)))
      × ((update_tick clock tk).0.unregister_target_list ≡ [])
      × ((update_tick clock tk).0.tick_count ≡ (tk.tick_count + 1) % 2 ^ 64)
      × IsMap (update_tick clock tk).0.timer_events
unfolding update_tick unregister_timer_event_impl
update_tick_lem id clock tk u =
    let ids = tk.unregister_target_list in
    let left = erase_each ids tk.timer_events in
    let unique = erase_each-IsMap ids tk.timer_events u in
    (
      find-fire_each id clock left
          ∙ ap (after_fire clock) (find-erase_each id ids tk.timer_events)
          ∙ after_fire_kept clock (member id ids) (find id tk.timer_events),
      member-fired id clock left unique
          ∙ ap (fires clock) (find-erase_each id ids tk.timer_events)
          ∙ fires_kept clock (member id ids) (find id tk.timer_events),
      refl,
      refl,
      fire_each-IsMap clock left unique,
    )
