-- ===== src/Contents/Sectors.antt =====
-- The sector map.
use actor_model_server.Base.{ℕ, ◌≡◌, true, none, some, ap}
use actor_model_server.Base.UnorderedMap.{
  Map, insert, find-insert_self, insert_present, find-erase_self,
}
use actor_model_server.Contents.{register_sector, unregister_sector, get_sector}

-- A sector whose id is free is found once it is registered; registering another one under its id
-- changes nothing, and still returns true; unregistered, it is not found.
pub get-register_sector {ℓ} :
    {S : Type ℓ} (id : ℕ) (sector other : S) (sectors : Map S)
    → get_sector id sectors ≡ none
    → (get_sector id (register_sector id sector sectors).0 ≡ some sector)
      × (register_sector id other (register_sector id sector sectors).0
          ≡ ((register_sector id sector sectors).0, true))
      × (get_sector id (unregister_sector id (register_sector id sector sectors).0) ≡ none)
unfolding get_sector register_sector unregister_sector
get-register_sector id sector other sectors absent =
    let there = find-insert_self id sector sectors absent in
    (
      there,
      ap (λ m. (m, true)) (insert_present id other sector (insert id sector sectors) there),
      find-erase_self id (insert id sector sectors),
    )
