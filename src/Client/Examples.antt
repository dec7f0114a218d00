-- ===== src/Client/Examples.antt =====
-- The client's actors at concrete inputs.
use actor_model_server.Base.{ℕ, ◌≡◌, refl, none, some, [], ◌∷◌, arith}
use actor_model_server.Base.UnorderedMap.{find}
use actor_model_server.Client.{
  Player, actor_created, unknown_packet_logged, ActorMap, find_actor, appear_actor, disappear_actor,
  process_logic,
}
use actor_model_server.Client.Packets.{process_logic_misplaces}

abbrev numbered : ℕ → Player
numbered id = record { actor_id = id }

process_logic_misplaces_example :
    (after : ActorMap) × (process_logic (appear_actor 42 1) []
      ≡ (after, actor_created (numbered 1) ∷ actor_created (numbered 1) ∷ []))
    × (find_actor 1 after ≡ some (numbered 1))
    × (find_actor 42 after ≡ none)
    × (process_logic (disappear_actor 42) after ≡ (after, unknown_packet_logged ∷ []))
unfolding find_actor find
process_logic_misplaces_example = process_logic_misplaces 42 [] (λ e. omega arith) refl
