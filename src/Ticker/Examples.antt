-- ===== src/Ticker/Examples.antt =====
-- A ticker at 1000 ms with an event of 100 ms.
use actor_model_server.Base.{ℕ, ◌≡◌, refl, true, false, some, [], ◌∷◌, arith}
use actor_model_server.Base.UnorderedMap.{contains, find, member, IsMap}
use actor_model_server.Ticker.{TimerEvent, Ticker, register_timer_event, update_tick}
use actor_model_server.Ticker.Rounds.{update_tick_lem}
use actor_model_server.Ticker.Period.{register_timer_event_fires}

abbrev event : ℕ → ℕ → TimerEvent
event id next = record { timer_event_id = id; interval_ms = 100; next_tick = next }

abbrev ticker : Ticker
ticker = record {
  is_running = true;
  tick_interval = 16;
  now_ms = 1000;
  tick_count = 5;
  timer_events = (1, event 1 1010) ∷ (2, event 2 900) ∷ [];
  unregister_target_list = 2 ∷ [];
}

ticker-IsMap : IsMap ticker.timer_events
unfolding contains
ticker-IsMap = (refl, (refl, tt))

-- The event 1 is due at the very time of the round.
update_tick_lem_example :
    (find 1 (update_tick 1010 ticker).0.timer_events ≡ some (event 1 1110))
    × (member 1 (update_tick 1010 ticker).1 ≡ true)
    × ((update_tick 1010 ticker).0.unregister_target_list ≡ [])
    × ((update_tick 1010 ticker).0.tick_count ≡ 6)
    × IsMap (update_tick 1010 ticker).0.timer_events
unfolding find
update_tick_lem_example = update_tick_lem 1 1010 ticker ticker-IsMap

-- At 1100 ms, an interval after the registration, the new event does not fire.
register_timer_event_fires_example :
    member 3 (update_tick 1100 (register_timer_event (some (event 3 0)) ticker).0).1 ≡ false
unfolding find
register_timer_event_fires_example =
    register_timer_event_fires (event 3 0) ticker 1100 ticker-IsMap refl refl (omega arith)
