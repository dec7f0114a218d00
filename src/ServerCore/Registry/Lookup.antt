-- ===== src/ServerCore/Registry/Lookup.antt =====
-- What the maps find after an actor is registered or a session inserted.
use actor_model_server.Base.{
  List, map, ◌++◌, ℕ, ◌≡◌, ◌≢◌, refl, sym, ap, ◌∙◌, true, false, none, some, [], ◌∷◌, ==_refl,
  arith,
}
use actor_model_server.Base.UnorderedMap.{
  values, Map, find, contains, insert, erase, find-insert_self, find-erase_self, find-contains,
  contains-erase,
}
use actor_model_server.ServerCore.Registry.{
  pre_timer, on_timer, post_timer, CoreEvent, wake_logic_thread, pre_wake_logic_thread,
  on_wake_logic_thread, post_wake_logic_thread, ServerCore, Handle, actor_created, actor_destroyed,
  set_at, get_target_thread_id, insert_session, find_session, find_actor, find_non_network_actor,
  register_non_network_actor, unregister_non_network_actor,
}

pub set_at_self {ℓ} : {X : Type ℓ} (t : ℕ) (x : X) (xs : ℕ → X) → set_at t x xs t ≡ x
set_at_self t x xs = rw (==_refl t) refl

pub set_at_same {ℓ} : {X : Type ℓ} (t n : ℕ) (x : X) (xs : ℕ → X) → t ≡ n → set_at t x xs n ≡ x
set_at_same t n x xs e = rw (sym e) (set_at_self t x xs)

pub set_at_other {ℓ} : {X : Type ℓ} (t n : ℕ) (x : X) (xs : ℕ → X) → t ≢ n → set_at t x xs n ≡ xs n
set_at_other t n x xs ne = ground arith

pub find_session-insert_session :
    (h : Handle) (core : ServerCore)
    → find_session h.actor_id h.thread_id core ≡ none
    → find_session h.actor_id h.thread_id (insert_session h core) ≡ some h
unfolding find_session insert_session
find_session-insert_session h core absent =
    ap (find h.actor_id) (set_at_self h.thread_id _ core.session_map)
    ∙ find-insert_self h.actor_id h (core.session_map h.thread_id) absent

-- A session inserted on its own thread is found by its id there, and only among the sessions.
pub find_actor-insert_session :
    (h : Handle) (r : ServerCore)
    → h.thread_id ≡ get_target_thread_id h.actor_id r
    → find h.actor_id (r.session_map h.thread_id) ≡ none
    → (find_actor h.actor_id true (insert_session h r) ≡ some h)
      × (find_actor h.actor_id false (insert_session h r) ≡ find_actor h.actor_id false r)
unfolding find_actor insert_session find_session find_non_network_actor get_target_thread_id
find_actor-insert_session h r own absent = (
  rw
      (
        sym own,
        set_at_self h.thread_id (insert h.actor_id h (r.session_map h.thread_id)) r.session_map,
      )
      (find-insert_self h.actor_id h (r.session_map h.thread_id) absent),
  refl,
)

abbrev with_actors : ℕ → Map Handle → ServerCore → ServerCore
with_actors t m r = record r { non_network_actor_map = set_at t m r.non_network_actor_map }

find_non_network_actor-with_actors :
    (id t : ℕ) (m : Map Handle) (r : ServerCore)
    → t ≡ get_target_thread_id id r
    → find_non_network_actor id (with_actors t m r) ≡ find id m
unfolding find_non_network_actor get_target_thread_id
find_non_network_actor-with_actors id t m r own =
    rw (sym own, set_at_self t m r.non_network_actor_map) refl

unregister_found :
    (h : Handle) (t : ℕ) (r : ServerCore)
    → contains h.actor_id (r.non_network_actor_map t) ≡ true
    → unregister_non_network_actor (some h) t r ≡ (
      with_actors t (erase h.actor_id (r.non_network_actor_map t)) r,
      actor_destroyed h ∷ [],
      true,
    )
unfolding unregister_non_network_actor
unregister_found h t r e = rw e refl

unregister_missing :
    (h : Handle) (t : ℕ) (r : ServerCore)
    → contains h.actor_id (r.non_network_actor_map t) ≡ false
    → unregister_non_network_actor (some h) t r ≡ (r, [], false)
unfolding unregister_non_network_actor
unregister_missing h t r e = rw e refl

-- An actor under a free id, registered on its own thread, is found there and created once.
pub find_actor-register_non_network_actor :
    (h : Handle) (r : ServerCore)
    → h.thread_id ≡ get_target_thread_id h.actor_id r
    → find_actor h.actor_id false r ≡ none
    → (find_actor h.actor_id false (register_non_network_actor (some h) h.thread_id r).0 ≡ some h)
      × ((register_non_network_actor (some h) h.thread_id r).1 ≡ actor_created h ∷ [])
unfolding find_actor register_non_network_actor find_non_network_actor get_target_thread_id
find_actor-register_non_network_actor h r own absent =
    let m = r.non_network_actor_map h.thread_id in
    let free : find h.actor_id m ≡ none =
      ap (λ t. find h.actor_id (r.non_network_actor_map t)) own ∙ absent in
    (
      find_non_network_actor-with_actors h.actor_id h.thread_id (insert h.actor_id h m) r own
          ∙ find-insert_self h.actor_id h m free,
      refl,
    )

-- An actor under a free id, registered on its own thread, is created once and found; unregistering
-- it there destroys it and the id is not found any more; a second time it is refused and changes
-- nothing.
pub unregister-register_non_network_actor :
    (h : Handle) (r : ServerCore)
    → h.thread_id ≡ get_target_thread_id h.actor_id r
    → find h.actor_id (r.non_network_actor_map h.thread_id) ≡ none
    → (there gone : ServerCore) × (register_non_network_actor (some h) h.thread_id r
        ≡ (there, actor_created h ∷ [], true))
      × (find_actor h.actor_id false there ≡ some h)
      × (unregister_non_network_actor (some h) h.thread_id there
          ≡ (gone, actor_destroyed h ∷ [], true))
      × (find_actor h.actor_id false gone ≡ none)
      × (unregister_non_network_actor (some h) h.thread_id gone ≡ (gone, [], false))
unfolding find_actor register_non_network_actor get_target_thread_id
unregister-register_non_network_actor h r own absent =
    let t = h.thread_id in
    let m = insert h.actor_id h (r.non_network_actor_map t) in
    let there = with_actors t m r in
    let at : there.non_network_actor_map t ≡ m = set_at_self t m r.non_network_actor_map in
    let m' = erase h.actor_id (there.non_network_actor_map t) in
    let gone = with_actors t m' there in
    let found = find-insert_self h.actor_id h (r.non_network_actor_map t) absent in
    let erased : contains h.actor_id m' ≡ false =
      contains-erase h.actor_id h.actor_id (there.non_network_actor_map t)
      ∙ rw (==_refl h.actor_id) refl in
    (
      there,
      gone,
      refl,
      find_non_network_actor-with_actors h.actor_id t m r own ∙ found,
      unregister_found h t there (ap (contains h.actor_id) at ∙ find-contains h.actor_id h m found),
      find_non_network_actor-with_actors h.actor_id t m' there own
          ∙ find-erase_self h.actor_id (there.non_network_actor_map t),
      unregister_missing h t gone
          (ap (contains h.actor_id) (set_at_self t m' there.non_network_actor_map) ∙ erased),
    )

-- The calls of one round of a logic thread, for its sessions and its other actors.
abbrev pub timer_round : List Handle → List Handle → List CoreEvent
timer_round sessions actors =
    (map pre_timer sessions ++ map pre_timer actors)
    ++ ((map on_timer sessions ++ map on_timer actors)
        ++ (map post_timer sessions ++ map post_timer actors))

pub wake_logic_thread-timer_round :
    (thread : ℕ) (r : ServerCore)
    → wake_logic_thread thread r
      ≡ timer_round (values (r.session_map thread)) (values (r.non_network_actor_map thread))
unfolding wake_logic_thread pre_wake_logic_thread on_wake_logic_thread post_wake_logic_thread
wake_logic_thread-timer_round thread r = refl
