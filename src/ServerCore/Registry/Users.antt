-- ===== src/ServerCore/Registry/Users.antt =====
-- `numOfUser` beside the number of sessions in the maps.
use actor_model_server.Base.{
  ℕ, zero, suc, ◌+◌, ◌≤◌, ◌<◌, ◌≡◌, refl, sym, ap, ◌∙◌, none, some, List, [], ◌∷◌, map, length,
  ◌==◌, arith, dec_lt, Bool-cases, inl, inr, ℕ_discrete,
}
use actor_model_server.Base.Int.{decrement_pos, pos, increment, decrement}
use actor_model_server.Base.UnorderedMap.{
  Map, find, insert, erase, values, IsMap, insert-IsMap, erase-IsMap, length-insert_fresh,
  length-erase_present,
}
use actor_model_server.ServerCore.Registry.{
  ServerCore, Handle, disconnected, set_at, insert_session, erase_session, erase_all_session,
  find_session,
}
use actor_model_server.ServerCore.Registry.Lookup.{set_at_same, set_at_other}

-- The number of sessions on the threads below `n`.
abbrev pub total : ℕ → (ℕ → Map Handle) → ℕ
total zero maps = 0
total (suc n) maps = total n maps + length (maps n)

total-set_at_beyond :
    (n t : ℕ) (m : Map Handle) (maps : ℕ → Map Handle)
    → n ≤ t
    → total n (set_at t m maps) ≡ total n maps
total-set_at_beyond zero t m maps h = refl
total-set_at_beyond (suc n) t m maps h =
    ground (arith, total-set_at_beyond n t m maps (omega arith))

total-set_at :
    (n t : ℕ) (m : Map Handle) (maps : ℕ → Map Handle)
    → t < n
    → total n (set_at t m maps) + length (maps t) ≡ total n maps + length m
total-set_at zero t m maps h = absurd (omega arith)
total-set_at (suc n) t m maps h = elim (ℕ_discrete t n) [
  | yes e ↦
      let here : set_at t m maps n ≡ m = set_at_same t n m maps e in
      omega
        (arith, total-set_at_beyond n t m maps (omega arith), ap length here, ap length (ap maps e))
  | no ne ↦
      let here : set_at t m maps n ≡ maps n = set_at_other t n m maps ne in
      omega (arith, total-set_at n t m maps (omega arith), ap length here)
]

-- The maps of the server's threads are maps, no other thread has sessions, and the number of users
-- is the number of sessions.
pub record IsCounted (r : ServerCore) : Type 0 where
  pub maps : (t : ℕ) → IsMap (r.session_map t)
  pub unused : (t : ℕ) → r.num_of_logic_thread ≤ t → r.session_map t ≡ []
  pub counted : r.num_of_user ≡ pos (total r.num_of_logic_thread r.session_map)

set_at-IsMap :
    (t : ℕ) (m : Map Handle) (maps : ℕ → Map Handle)
    → IsMap m
    → ((u : ℕ) → IsMap (maps u))
    → (u : ℕ) → IsMap (set_at t m maps u)
set_at-IsMap t m maps h hs u = elim (Bool-cases (t == u)) [ inl e ↦ rw e h | inr e ↦ rw e (hs u) ]

set_at_unused :
    (n t : ℕ) (m : Map Handle) (maps : ℕ → Map Handle)
    → t < n
    → ((u : ℕ) → n ≤ u → maps u ≡ [])
    → (u : ℕ) → n ≤ u
    → set_at t m maps u ≡ []
set_at_unused n t m maps below h u out = set_at_other t u m maps (λ e. omega arith) ∙ h u out

-- A session whose id is free, inserted on a thread of the server, keeps the number of users right.
pub insert_session-IsCounted :
    (h : Handle) (r : ServerCore)
    → h.thread_id < r.num_of_logic_thread
    → find h.actor_id (r.session_map h.thread_id) ≡ none
    → IsCounted r
    → IsCounted (insert_session h r)
unfolding insert_session
insert_session-IsCounted h r below absent c =
    let m = r.session_map h.thread_id in
    record {
      maps = set_at-IsMap _ _ _ (insert-IsMap h.actor_id h m (c.maps h.thread_id)) c.maps;
      unused = set_at_unused _ _ _ _ below c.unused;
      counted =
          ap increment c.counted
          ∙ ap pos (
              omega (
                arith,
                total-set_at r.num_of_logic_thread h.thread_id (insert h.actor_id h m) r.session_map
                    below,
                length-insert_fresh h.actor_id h m absent,
              ));
    }

below_thread :
    (r : ServerCore) (id t : ℕ) (h : Handle)
    → IsCounted r
    → find_session id t r ≡ some h
    → t < r.num_of_logic_thread
unfolding find_session find
below_thread r id t h c e = elim (dec_lt t r.num_of_logic_thread) [
  | yes below ↦ below
  | no out ↦ let missing : none ≡ some h = ap (find id) (sym (c.unused t (omega arith))) ∙ e in cc
]

-- Erasing a session that is there keeps the number of users right, and there is one session fewer.
pub erase_session-IsCounted :
    (id t : ℕ) (h : Handle) (r : ServerCore)
    → find_session id t r ≡ some h
    → IsCounted r
    → IsCounted (erase_session id t r)
      × (total r.num_of_logic_thread (erase_session id t r).session_map + 1
          ≡ total r.num_of_logic_thread r.session_map)
unfolding erase_session find_session
erase_session-IsCounted id t h r e c =
    let m = r.session_map t in
    let fewer : total r.num_of_logic_thread (set_at t (erase id m) r.session_map) + 1
        ≡ total r.num_of_logic_thread r.session_map =
      omega (
        arith,
        total-set_at r.num_of_logic_thread t (erase id m) r.session_map (below_thread r id t h c e),
        length-erase_present id h m (c.maps t) e,
      ) in
    (
      record {
        maps = set_at-IsMap _ _ _ (erase-IsMap id m (c.maps t)) c.maps;
        unused = set_at_unused _ _ _ _ (below_thread r id t h c e) c.unused;
        counted = ap decrement c.counted ∙ decrement_pos _ _ fewer;
      },
      fewer,
    )

-- `EraseAllSession` of a thread of the server disconnects as many sessions as the server has fewer
-- afterwards, and sets the number of users to 0, however many sessions remain on other threads.
pub erase_all_session_forgets :
    (t : ℕ) (r : ServerCore)
    → t < r.num_of_logic_thread
    → ((erase_all_session t r).0.num_of_user ≡ pos 0)
      × (total r.num_of_logic_thread (erase_all_session t r).0.session_map
            + length (erase_all_session t r).1
          ≡ total r.num_of_logic_thread r.session_map)
unfolding erase_all_session
erase_all_session_forgets t r below = (
  refl,
  omega (
    arith,
    total-set_at r.num_of_logic_thread t [] r.session_map below,
    length-map (values (r.session_map t)),
    length-values (r.session_map t),
  ),
)
  where
    length-map : (hs : List Handle) → length (map disconnected hs) ≡ length hs
    length-map [] = refl
    length-map (h ∷ hs) = omega (arith, length-map hs)

    length-values : (m : Map Handle) → length (values m) ≡ length m
    length-values [] = refl
    length-values ((k, h) ∷ m) = omega (arith, length-values m)
