-- ===== src/Ticker/Period.antt =====
-- When a registered event fires first, and when it fires again.
use actor_model_server.Base.{
  ℕ, ◌+◌, ◌*◌, ◌%◌, ◌^◌, ◌<◌, ◌≡◌, refl, sym, ap, ◌∙◌, Bool, true, false, none, some, leb, arith,
  ◌&&◌, not,
}
use actor_model_server.Base.UnorderedMap.{
  find, member, IsMap, insert-IsMap, find-insert_self, insert_present,
}
use actor_model_server.Ticker.{
  TimerEvent, Ticker, should_fire, set_next_tick, register_timer_event, update_tick,
}
use actor_model_server.Ticker.Rounds.{fires, update_tick_lem}

small_mod : (n : ℕ) → n < 2 ^ 64 → n % 2 ^ 64 ≡ n
small_mod n h = omega arith

-- An event under a free id, which is not about to be unregistered, fires in the round that follows
-- its registration exactly when that round is two intervals or more after the ticker's time at the
-- registration (times being below 2^64): registration adds the interval twice.
pub register_timer_event_fires :
    (e : TimerEvent) (tk : Ticker) (clock : ℕ)
    → IsMap tk.timer_events
    → find e.timer_event_id tk.timer_events ≡ none
    → member e.timer_event_id tk.unregister_target_list ≡ false
    → tk.now_ms + 2 * e.interval_ms < 2 ^ 64
    → member e.timer_event_id (update_tick clock (register_timer_event (some e) tk).0).1
      ≡ leb (tk.now_ms + 2 * e.interval_ms) clock
unfolding register_timer_event should_fire set_next_tick
register_timer_event_fires e tk clock u absent kept small =
    let id = e.timer_event_id in
    let e' = set_next_tick ((tk.now_ms + e.interval_ms) % 2 ^ 64) e in
    let tk' = (register_timer_event (some e) tk).0 in
    let round = update_tick_lem id clock tk' (insert-IsMap id e' tk.timer_events u) in
    let there = find-insert_self id e' tk.timer_events absent in
    let next : e'.next_tick ≡ tk.now_ms + 2 * e.interval_ms = omega arith in
    round.1 ∙ rw (kept, there) (ap (λ n. leb n clock) next)

both : (m f : Bool) → (not m && f) ≡ true → (m ≡ false) × (f ≡ true)
both true f h = ground arith
both false f h = (refl, h)

-- An event that fires in a round fires in the round that follows exactly when that one is an
-- interval or more later, times being below 2^64.
pub update_tick_again :
    (id clock later : ℕ) (e : TimerEvent) (tk : Ticker)
    → IsMap tk.timer_events
    → find id tk.timer_events ≡ some e
    → member id (update_tick clock tk).1 ≡ true
    → clock + e.interval_ms < 2 ^ 64
    → member id (update_tick later (update_tick clock tk).0).1 ≡ leb (clock + e.interval_ms) later
unfolding should_fire set_next_tick
update_tick_again id clock later e tk u there fired small =
    let first = update_tick_lem id clock tk u in
    let second = update_tick_lem id later (update_tick clock tk).0 first.4 in
    let (kept, due) = both (member id tk.unregister_target_list) (should_fire clock e) (
      ap (λ o. not (member id tk.unregister_target_list) && fires clock o) (sym there)
      ∙ sym first.1
      ∙ fired) in
    let moved : find id (update_tick clock tk).0.timer_events ≡ some (set_next_tick clock e) =
      first.0 ∙ rw (kept, there) (rw due refl) in
    let next : (set_next_tick clock e).next_tick ≡ clock + e.interval_ms =
      small_mod (clock + e.interval_ms) small in
    second.1 ∙ rw (first.2, moved) (ap (λ n. leb n later) next)

-- An event whose id is registered already is dropped, and the call returns true all the same.
pub register_timer_event_drops :
    (e old : TimerEvent) (tk : Ticker)
    → find e.timer_event_id tk.timer_events ≡ some old
    → register_timer_event (some e) tk ≡ (tk, true)
unfolding register_timer_event
register_timer_event_drops e old tk h =
    rw
      (insert_present e.timer_event_id (set_next_tick ((tk.now_ms + e.interval_ms) % 2 ^ 64) e) old
        tk.timer_events h)
      refl
