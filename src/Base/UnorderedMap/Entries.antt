-- ===== src/Base/UnorderedMap/Entries.antt =====
-- Predicates on the entries of a map, and what the operations of the map keep of them.
use Prim.Native.Nat.{ℕ}
use mathlib.Core.Path.{◌≡◌, refl, subst}
use mathlib.Core.Bool.{Bool, true}
use mathlib.Core.Logic.{inl, inr}
use mathlib.Core.Option.{some}
use mathlib.Core.List.{[], ◌∷◌}
use native.Mathlib.Omega.{arith}
use actor_model_server.Base.Tests.{◌==◌, ==_iff, Bool-cases}
use actor_model_server.Base.Lists.{all_of}
use actor_model_server.Base.UnorderedMap.{Map, find, assign, erase, values, IsMap, contains-find}

abbrev pub AllEntries {ℓ} : {V : Type ℓ} → (ℕ → V → Type 0) → Map V → Type 0
AllEntries P [] = Unit
AllEntries P ((k, v) ∷ m) = P k v × AllEntries P m

module _ {ℓ} {V : Type ℓ} (P : ℕ → V → Type 0) where
  pub AllEntries-find : (k : ℕ) (v : V) (m : Map V) → AllEntries P m → find k m ≡ some v → P k v
  unfolding find
  AllEntries-find k v [] h e = cc
  AllEntries-find k v ((i, w) ∷ m) h e = elim (Bool-cases (i == k)) [
    | inl here ↦ subst (λ n. P n v) ((==_iff i k).0 here) (subst (P i) (ground arith) h.0)
    | inr later ↦ AllEntries-find k v m h.1 (ground arith)
  ]

  pub AllEntries-assign :
      (k : ℕ) (v : V) (m : Map V) → P k v → AllEntries P m → AllEntries P (assign k v m)
  unfolding assign
  AllEntries-assign k v [] p h = (p, tt)
  AllEntries-assign k v ((i, w) ∷ m) p h = ground (arith, AllEntries-assign k v m p h.1)

  pub AllEntries-erase : (k : ℕ) (m : Map V) → AllEntries P m → AllEntries P (erase k m)
  unfolding erase
  AllEntries-erase k [] h = tt
  AllEntries-erase k ((i, w) ∷ m) h = ground (arith, AllEntries-erase k m h.1)

  pub AllEntries-erase_self :
      (k : ℕ) (v : V) (m : Map V) → AllEntries P m → AllEntries P (erase k (assign k v m))
  unfolding erase assign
  AllEntries-erase_self k v [] h = ground arith
  AllEntries-erase_self k v ((i, w) ∷ m) h =
      ground (arith, AllEntries-erase_self k v m h.1, AllEntries-erase k m h.1)

  pub AllEntries-map :
      {Q : ℕ → V → Type 0}
      → ((k : ℕ) (v : V) → P k v → Q k v)
      → (m : Map V) → AllEntries P m
      → AllEntries Q m
  AllEntries-map f [] h = tt
  AllEntries-map f ((k, v) ∷ m) h = (f k v h.0, AllEntries-map f m h.1)

module _ {ℓ} {V : Type ℓ} (p : V → Bool) where
  -- A test that every value passes is passed by what any key finds.
  pub all_of-find :
      (k : ℕ) (v : V) (m : Map V) → all_of p (values m) ≡ true → find k m ≡ some v → p v ≡ true
  unfolding find
  all_of-find k v [] h e = cc
  all_of-find k v ((i, w) ∷ m) h e = ground (arith, all_of-find k v m)

  pub all_of-AllEntries :
      (m : Map V) → all_of p (values m) ≡ true → AllEntries (λ _ v. p v ≡ true) m
  all_of-AllEntries [] h = tt
  all_of-AllEntries ((i, w) ∷ m) h = ground (arith, all_of-AllEntries m)

  -- And conversely, where no key stands twice.
  pub all_of_lookup :
      (m : Map V)
      → IsMap m
      → ((k : ℕ) (v : V) → find k m ≡ some v → p v ≡ true)
      → all_of p (values m) ≡ true
  unfolding find
  all_of_lookup [] u h = refl
  all_of_lookup ((i, w) ∷ m) u h = ground (arith, h i w, all_of_lookup m u.1 later)
    where
      later : (k : ℕ) (v : V) → find k m ≡ some v → p v ≡ true
      later k v e = ground (arith, h k v, contains-find i m)
