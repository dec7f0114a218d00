-- ===== src/Client/Packets.antt =====
-- What the packets about actors do.
use actor_model_server.Base.{ℕ, ◌≡◌, ◌≢◌, refl, ◌∙◌, none, some, [], ◌∷◌, arith}
use actor_model_server.Base.UnorderedMap.{find, assign, find-assign, find-assign_self}
use actor_model_server.Client.{
  Player, actor_created, unknown_packet_logged, ActorMap, find_actor, add_actor, remove_actor,
  create, create_actor, player, add_created, appear_actor, disappear_actor, process_logic,
}

-- When a player appears whose id is not 1 and not known, the client makes an actor with the id 1,
-- the number of the type, and calls its creation callback twice; the player's own id is still not
-- found. When the player disappears then, nothing is removed, and the packet is logged as unknown.
pub process_logic_misplaces :
    (id : ℕ) (actors : ActorMap)
    → id ≢ player
    → find_actor id actors ≡ none
    → (after : ActorMap) × (process_logic (appear_actor id player) actors ≡ (
      after,
      actor_created (record { actor_id = player })
          ∷ actor_created (record { actor_id = player })
          ∷ [],
    ))
      × (find_actor player after ≡ some (record { actor_id = player }))
      × (find_actor id after ≡ none)
      × (process_logic (disappear_actor id) after ≡ (after, unknown_packet_logged ∷ []))
unfolding process_logic add_created create_actor create add_actor find_actor remove_actor
process_logic_misplaces id actors ne absent =
    let a : Player = record { actor_id = player } in
    let once : ActorMap = assign player a actors in
    let missing : find id (assign player a once) ≡ none =
      find-assign player id a once ∙ ground (arith, find-assign player id a actors) in
    (
      assign player a once,
      refl,
      find-assign_self player a once,
      missing,
      rw (missing, remove_actor) refl,
    )
