-- ===== src/Client/Actors.antt =====
-- The map of the client's actors.
use actor_model_server.Base.{ℕ, ◌≡◌, refl, none, some, [], ◌∷◌, ◌==◌, if◌then◌else◌}
use actor_model_server.Base.UnorderedMap.{
  find, assign, erase, find-assign, find-assign_self, find-erase_self,
}
use actor_model_server.Client.{
  Player, actor_created, actor_destroyed, ActorMap, find_actor, add_actor, remove_actor,
}

remove_actor_found :
    (id : ℕ) (a : Player) (actors : ActorMap)
    → find id actors ≡ some a
    → remove_actor id actors ≡ (erase id actors, actor_destroyed a ∷ [])
unfolding remove_actor
remove_actor_found id a actors e = rw (e, remove_actor) refl

remove_actor_missing :
    (id : ℕ) (actors : ActorMap) → find id actors ≡ none → remove_actor id actors ≡ (actors, [])
unfolding remove_actor
remove_actor_missing id actors e = rw (e, remove_actor) refl

-- An added actor is found, also where its id was taken, and the others are found as before; removing
-- it destroys it, and it is not found any more; a second removal does nothing.
pub remove-add_actor :
    (a : Player) (id : ℕ) (actors : ActorMap)
    → (there gone : ActorMap) × (add_actor (some a) actors ≡ (there, actor_created a ∷ []))
      × (find_actor id there ≡ (if a.actor_id == id then some a else find_actor id actors))
      × (remove_actor a.actor_id there ≡ (gone, actor_destroyed a ∷ []))
      × (find_actor a.actor_id gone ≡ none)
      × (remove_actor a.actor_id gone ≡ (gone, []))
unfolding find_actor add_actor
remove-add_actor a id actors =
    let there = assign a.actor_id a actors in
    let gone = erase a.actor_id there in
    let missing = find-erase_self a.actor_id there in
    (
      there,
      gone,
      refl,
      find-assign a.actor_id id a actors,
      remove_actor_found a.actor_id a there (find-assign_self a.actor_id a actors),
      missing,
      remove_actor_missing a.actor_id gone missing,
    )
