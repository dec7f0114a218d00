-- ===== src/ServerCore/Loops/Keys.antt =====
-- The completion keys that an I/O thread frees.
use actor_model_server.Base.{
  ℕ, ◌≡◌, refl, ap, ◌∙◌, false, Option, none, some, List, [], ◌∷◌, ◌++◌, All, ◌+◌, ◌==◌,
  if◌then◌else◌, Bool, true, subst, ==_refl, arith,
}
use actor_model_server.NetLib.{RingOps, QueueOps}
use actor_model_server.ServerCore.Startup.{
  PortHandle, null_handle, invalid_handle_value, port_handle,
}
use actor_model_server.ServerCore.Registry.{ServerCore, ReleaseSessionKey}
use actor_model_server.ServerCore.Threads.{Newcomer, accept_round, allocate_key}
use actor_model_server.ServerCore.Loops.{
  running, Completion, IoAction, key_freed, decided, decision, is_leaving, free_key, run_io_thread,
}

abbrev pub freed_keys : List IoAction → List ℕ
freed_keys [] = []
freed_keys (key_freed cell ∷ actions) = cell ∷ freed_keys actions
freed_keys (decided d ∷ actions) = freed_keys actions

abbrev pub cell_of : Option (ℕ × ReleaseSessionKey) → List ℕ
cell_of none = []
cell_of (some (cell, key)) = cell ∷ []

abbrev pub cells : List Completion → List ℕ
cells [] = []
cells (c ∷ cs) = cell_of c.key ++ cells cs

freed_keys-free_key :
    (previous : Option (ℕ × ReleaseSessionKey)) (actions : List IoAction)
    → freed_keys (free_key previous ++ actions) ≡ cell_of previous ++ freed_keys actions
unfolding free_key
freed_keys-free_key none actions = refl
freed_keys-free_key (some (cell, key)) actions = refl

freed_keys-run_io_thread :
    (previous : Option (ℕ × ReleaseSessionKey)) (cs : List Completion)
    → All (λ c. is_leaving (decision c) ≡ false) cs
    → (freed_keys (run_io_thread previous cs).0 ≡ cell_of previous ++ cells cs)
      × ((run_io_thread previous cs).1 ≡ running)
unfolding run_io_thread free_key
freed_keys-run_io_thread none [] h = (refl, refl)
freed_keys-run_io_thread (some (cell, key)) [] h = (refl, refl)
freed_keys-run_io_thread previous (c ∷ cs) h =
    let rest = freed_keys-run_io_thread c.key cs h.1 in
    rw h.0 (freed_keys-free_key previous _ ∙ ap (◌++◌ (cell_of previous)) rest.0, rest.1)

abbrev pub occurrences : ℕ → List ℕ → ℕ
occurrences cell [] = 0
occurrences cell (k ∷ ks) = (if k == cell then 1 else 0) + occurrences cell ks

occurrences-append :
    (cell : ℕ) (ks ls : List ℕ)
    → occurrences cell (ks ++ ls) ≡ occurrences cell ks + occurrences cell ls
occurrences-append cell [] ls = omega arith
occurrences-append cell (k ∷ ks) ls = omega (arith, occurrences-append cell ks ls)

-- What `GetQueuedCompletionStatus` gives: with a completion of a socket, the key that was given to
-- `CreateIoCompletionPort` for it; with one of another socket, a key in another cell, or none.
abbrev pub IsOf : ℕ × ReleaseSessionKey → Bool × Completion → Type 0
IsOf key (true, c) = c.key ≡ some key
IsOf key (false, c) = occurrences key.0 (cell_of c.key) ≡ 0

abbrev pub completions_of : List (Bool × Completion) → List Completion
completions_of [] = []
completions_of ((own, c) ∷ cs) = c ∷ completions_of cs

abbrev pub own_count : List (Bool × Completion) → ℕ
own_count [] = 0
own_count ((own, c) ∷ cs) = (if own then 1 else 0) + own_count cs

occurrences-cells :
    (key : ℕ × ReleaseSessionKey) (cs : List (Bool × Completion))
    → All (IsOf key) cs
    → occurrences key.0 (cells (completions_of cs)) ≡ own_count cs
occurrences-cells key [] h = refl
occurrences-cells key ((true, c) ∷ cs) h =
    occurrences-append key.0 (cell_of c.key) (cells (completions_of cs))
    ∙ ap (λ k. occurrences key.0 (cell_of k) + occurrences key.0 (cells (completions_of cs))) h.0
    ∙ rw (==_refl key.0) (ap (λ n. 1 + n) (occurrences-cells key cs h.1))
occurrences-cells key ((false, c) ∷ cs) h =
    occurrences-append key.0 (cell_of c.key) (cells (completions_of cs))
    ∙ omega (arith, h.0, occurrences-cells key cs h.1)

module _ (ring : RingOps) (queue : QueueOps) {M W : Type 0} where
  completion_key-allocate_key :
      (cell : ℕ) (port : PortHandle) (posted : Bool) (r : ring.Ring) (m : M)
      (n : Newcomer queue M W) (core : ServerCore)
      → (accept_round ring queue cell port posted r m n core).completion_key
        ≡ allocate_key cell n.handle
  unfolding accept_round
  completion_key-allocate_key cell null_handle posted r m n core = refl
  completion_key-allocate_key cell invalid_handle_value posted r m n core = refl
  completion_key-allocate_key cell port_handle posted r m n core = refl

  -- A round of the accept thread allocates one cell for the key of a session. If an I/O thread, which
  -- has no key yet, gets completions of that session, each with this key, and of others in between,
  -- each with a key in another cell, and does not leave, then it frees the cell once for every
  -- completion of the session.
  pub run_io_thread_frees :
      (cell : ℕ) (port : PortHandle) (posted : Bool) (r : ring.Ring) (m : M)
      (n : Newcomer queue M W) (core : ServerCore) (cs : List (Bool × Completion))
      → All (IsOf (accept_round ring queue cell port posted r m n core).completion_key) cs
      → All (λ c. is_leaving (decision c) ≡ false) (completions_of cs)
      → (occurrences cell (freed_keys (run_io_thread none (completions_of cs)).0) ≡ own_count cs)
        × ((run_io_thread none (completions_of cs)).1 ≡ running)
  unfolding allocate_key
  run_io_thread_frees cell port posted r m n core cs come stay =
      let freed = freed_keys-run_io_thread none (completions_of cs) stay in
      let key = completion_key-allocate_key cell port posted r m n core in
      (
        ap (occurrences cell) freed.0
            ∙ occurrences-cells (allocate_key cell n.handle) cs
                (subst (λ k. All (IsOf k) cs) key come),
        freed.1,
      )
