-- ===== src/Base/UnorderedMap.antt =====
-- `std::unordered_map` and `std::map` with integer keys, as a list of entries. The iteration order
-- of the code's map is unspecified; here it is the order of the list.
pub mod Entries
use Prim.Native.Nat.{ℕ, ◌+◌}
use mathlib.Core.Path.{◌≡◌, refl}
use mathlib.Core.Bool.{◌||◌, Bool, true, false}
use mathlib.Core.Logic.{◌≢◌}
use mathlib.Core.Option.{Option, none, some}
use mathlib.Core.List.{List, [], ◌∷◌}
use native.Mathlib.Omega.{arith}
use actor_model_server.Base.Tests.{◌==◌, ==_refl, if◌then◌else◌}
use actor_model_server.Base.Lists.{length}

-- Whether a key is in a list.
abbrev pub member : ℕ → List ℕ → Bool
member k [] = false
member k (j ∷ js) = (j == k) || member k js

abbrev pub Map {ℓ} : Type ℓ → Type ℓ
Map V = List (ℕ × V)

module _ {ℓ} {V : Type ℓ} where
  unfoldable pub find : ℕ → Map V → Option V
  find k [] = none
  find k ((j, v) ∷ m) = if j == k then some v else find k m

  unfoldable pub contains : ℕ → Map V → Bool
  contains k [] = false
  contains k ((j, v) ∷ m) = if j == k then true else contains k m

  -- `map[k] = v`: overwrites an entry, or adds one.
  unfoldable pub assign : ℕ → V → Map V → Map V
  assign k v [] = (k, v) ∷ []
  assign k v ((j, w) ∷ m) = if j == k then (k, v) ∷ m else (j, w) ∷ assign k v m

  -- `map.insert({k, v})` and `map.emplace(k, v)`: an entry that is there stays.
  unfoldable pub insert : ℕ → V → Map V → Map V
  insert k v [] = (k, v) ∷ []
  insert k v ((j, w) ∷ m) = if j == k then (j, w) ∷ m else (j, w) ∷ insert k v m

  unfoldable pub erase : ℕ → Map V → Map V
  erase k [] = []
  erase k ((j, v) ∷ m) = let rest = erase k m in if j == k then rest else (j, v) ∷ rest

  abbrev pub values : Map V → List V
  values [] = []
  values ((j, v) ∷ m) = v ∷ values m

  abbrev pub keys : Map V → List ℕ
  keys [] = []
  keys ((j, v) ∷ m) = j ∷ keys m

  pub find-assign :
      (k j : ℕ) (v : V) (m : Map V) → find j (assign k v m) ≡ (if k == j then some v else find j m)
  unfolding find assign
  find-assign k j v [] = refl
  find-assign k j v ((i, w) ∷ m) = ground (arith, find-assign k j v m)

  -- The second of two writes to one key is the one that counts.
  pub assign-assign_self : (k : ℕ) (v w : V) (m : Map V) → assign k v (assign k w m) ≡ assign k v m
  unfolding assign
  assign-assign_self k v w [] = ground arith
  assign-assign_self k v w ((i, u) ∷ m) = ground (arith, assign-assign_self k v w m)

  pub find-insert_self :
      (k : ℕ) (v : V) (m : Map V) → find k m ≡ none → find k (insert k v m) ≡ some v
  unfolding find insert
  find-insert_self k v [] h = ground arith
  find-insert_self k v ((i, w) ∷ m) h = ground (arith, find-insert_self k v m)

  pub insert_present : (k : ℕ) (v w : V) (m : Map V) → find k m ≡ some w → insert k v m ≡ m
  unfolding find insert
  insert_present k v w [] h = cc
  insert_present k v w ((i, u) ∷ m) h = ground (arith, insert_present k v w m)

  pub find-insert_ne : (k j : ℕ) (v : V) (m : Map V) → k ≢ j → find j (insert k v m) ≡ find j m
  unfolding find insert
  find-insert_ne k j v [] h = ground arith
  find-insert_ne k j v ((i, w) ∷ m) h = ground (arith, find-insert_ne k j v m h)

  pub find-erase : (k j : ℕ) (m : Map V) → find j (erase k m) ≡ (if k == j then none else find j m)
  unfolding find erase
  find-erase k j [] = ground arith
  find-erase k j ((i, w) ∷ m) = ground (arith, find-erase k j m)

  pub contains-find : (k : ℕ) (m : Map V) → contains k m ≡ false → find k m ≡ none
  unfolding find contains
  contains-find k [] h = refl
  contains-find k ((i, w) ∷ m) h = ground (arith, contains-find k m)

  pub length-insert_fresh :
      (k : ℕ) (v : V) (m : Map V) → find k m ≡ none → length (insert k v m) ≡ length m + 1
  unfolding find insert
  length-insert_fresh k v [] h = omega arith
  length-insert_fresh k v ((i, w) ∷ m) h = ground (arith, length-insert_fresh k v m)

  pub contains-insert :
      (k j : ℕ) (v : V) (m : Map V)
      → contains j (insert k v m) ≡ (if k == j then true else contains j m)
  unfolding contains insert
  contains-insert k j v [] = refl
  contains-insert k j v ((i, w) ∷ m) = ground (arith, contains-insert k j v m)

  pub contains-assign :
      (k j : ℕ) (v : V) (m : Map V)
      → contains j (assign k v m) ≡ (if k == j then true else contains j m)
  unfolding contains assign
  contains-assign k j v [] = refl
  contains-assign k j v ((i, w) ∷ m) = ground (arith, contains-assign k j v m)

  pub contains-erase :
      (k j : ℕ) (m : Map V) → contains j (erase k m) ≡ (if k == j then false else contains j m)
  unfolding contains erase
  contains-erase k j [] = ground arith
  contains-erase k j ((i, w) ∷ m) = ground (arith, contains-erase k j m)

  -- No key stands twice: true of every map that starts empty.
  abbrev pub IsMap : Map V → Type 0
  IsMap [] = Unit
  IsMap ((k, v) ∷ m) = (contains k m ≡ false) × IsMap m

  pub insert-IsMap : (k : ℕ) (v : V) (m : Map V) → IsMap m → IsMap (insert k v m)
  unfolding contains insert
  insert-IsMap k v [] h = (refl, tt)
  insert-IsMap k v ((i, w) ∷ m) h = ground (arith, insert-IsMap k v m h.1, contains-insert k i v m)

  pub assign-IsMap : (k : ℕ) (v : V) (m : Map V) → IsMap m → IsMap (assign k v m)
  unfolding contains assign
  assign-IsMap k v [] h = (refl, tt)
  assign-IsMap k v ((i, w) ∷ m) h = ground (arith, assign-IsMap k v m h.1, contains-assign k i v m)

  pub erase-IsMap : (k : ℕ) (m : Map V) → IsMap m → IsMap (erase k m)
  unfolding contains erase
  erase-IsMap k [] h = tt
  erase-IsMap k ((i, w) ∷ m) h = ground (arith, erase-IsMap k m h.1, contains-erase k i m)

  pub erase_absent : (k : ℕ) (m : Map V) → find k m ≡ none → erase k m ≡ m
  unfolding find erase
  erase_absent k [] h = refl
  erase_absent k ((i, w) ∷ m) h = ground (arith, erase_absent k m)

  pub length-erase_present :
      (k : ℕ) (v : V) (m : Map V) → IsMap m → find k m ≡ some v → length (erase k m) + 1 ≡ length m
  unfolding find erase
  length-erase_present k v [] u h = cc
  length-erase_present k v ((i, w) ∷ m) u h =
      ground (arith, length-erase_present k v m u.1, erase_absent k m, contains-find k m)

  pub find-assign_self : (k : ℕ) (v : V) (m : Map V) → find k (assign k v m) ≡ some v
  find-assign_self k v m = rw (find-assign k k v m, ==_refl k)

  pub find-erase_self : (k : ℕ) (m : Map V) → find k (erase k m) ≡ none
  find-erase_self k m = rw (find-erase k k m, ==_refl k)

  pub find-contains : (k : ℕ) (v : V) (m : Map V) → find k m ≡ some v → contains k m ≡ true
  unfolding find contains
  find-contains k v [] h = cc
  find-contains k v ((i, w) ∷ m) h = ground (arith, find-contains k v m)

pub ruleset map_laws = (find-assign, find-erase)
