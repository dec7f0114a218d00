-- ===== src/ServerCore/Registry/Accounting.antt =====
-- Every session that leaves a thread's map is disconnected once: what the operations of a release
-- thread do to its map, beside what they do to its sessions.
use actor_model_server.Base.{
  ℕ, ◌+◌, ◌≡◌, refl, sym, subst, some, List, [], ◌∷◌, ◌++◌, map, arith, Option-cases, inl, inr,
  if◌then◌else◌, All, All-append, ◌==◌, ==_iff,
}
use actor_model_server.Base.UnorderedMap.{
  Map, find, contains, erase, values, IsMap, erase-IsMap, contains-erase, find-contains,
}
use actor_model_server.Base.UnorderedMap.Entries.{AllEntries, AllEntries-find, AllEntries-erase}
use actor_model_server.ServerCore.Registry.{
  ServerCore, Handle, CoreEvent, disconnected, ReleaseSessionKey, set_at, find_session,
  erase_session, release_session, release_one, release_each, release_queued, erase_all_session,
}
use actor_model_server.ServerCore.Registry.Lookup.{set_at_self}

-- How often the session of an id is disconnected.
abbrev pub disconnections : ℕ → List CoreEvent → ℕ
disconnections id [] = 0
disconnections id (disconnected h ∷ events) =
    (if h.actor_id == id then 1 else 0) + disconnections id events
disconnections id (_ ∷ events) = disconnections id events

abbrev pub one_if_there : ℕ → Map Handle → ℕ
one_if_there id m = if contains id m then 1 else 0

-- The sessions of the thread are under their own ids, and its queue holds its own keys.
pub record IsThreadOk (thread : ℕ) (core : ServerCore) : Type 0 where
  pub unique : IsMap (core.session_map thread)
  pub named : AllEntries (λ id h. h.actor_id ≡ id) (core.session_map thread)
  pub own : All (λ key. key.key_thread_id ≡ thread) (core.release_threads_queue thread)

-- Every session is disconnected as often as it leaves the map.
pub record Accounts (thread : ℕ) (core core' : ServerCore) (events : List CoreEvent) : Type 0 where
  pub balance :
      (id : ℕ)
      → disconnections id events + one_if_there id (core'.session_map thread)
        ≡ one_if_there id (core.session_map thread)
  pub ok : IsThreadOk thread core'

pub disconnections-append :
    (id : ℕ) (es fs : List CoreEvent)
    → disconnections id (es ++ fs) ≡ disconnections id es + disconnections id fs
disconnections-append id [] fs = omega arith
disconnections-append id (CoreEvent.actor_created h ∷ es) fs = disconnections-append id es fs
disconnections-append id (CoreEvent.actor_destroyed h ∷ es) fs = disconnections-append id es fs
disconnections-append id (CoreEvent.pre_timer h ∷ es) fs = disconnections-append id es fs
disconnections-append id (CoreEvent.on_timer h ∷ es) fs = disconnections-append id es fs
disconnections-append id (CoreEvent.post_timer h ∷ es) fs = disconnections-append id es fs
disconnections-append id (disconnected h ∷ es) fs = omega (arith, disconnections-append id es fs)

pub Accounts-trans :
    {thread : ℕ} {core core' core'' : ServerCore} (es fs : List CoreEvent)
    → Accounts thread core core' es
    → Accounts thread core' core'' fs
    → Accounts thread core core'' (es ++ fs)
Accounts-trans es fs p q = record {
  balance = λ id. omega (arith, p.balance id, q.balance id, disconnections-append id es fs);
  ok = q.ok;
}

pub Accounts-refl :
    (thread : ℕ) (core : ServerCore) → IsThreadOk thread core → Accounts thread core core []
Accounts-refl thread core ok = record { balance = λ id. omega arith; ok = ok }

-- One session of the thread's map, erased.
pub erased_balance :
    (id : ℕ) (h : Handle) (j : ℕ) (m : Map Handle)
    → find id m ≡ some h
    → h.actor_id ≡ id
    → disconnections j (disconnected h ∷ []) + one_if_there j (erase id m) ≡ one_if_there j m
erased_balance id h j m found named =
    ground (arith, contains-erase id j m, find-contains id h m found, ==_iff id j)

pub release_one-Accounts :
    (key : ReleaseSessionKey) (core : ServerCore)
    → IsThreadOk key.key_thread_id core
    → Accounts key.key_thread_id core (release_one key core).0 (release_one key core).1
unfolding release_one erase_session find_session
release_one-Accounts key core ok =
    elim (Option-cases (find key.session_id (core.session_map key.key_thread_id))) [
      | inl absent ↦ rw (absent, release_one) (Accounts-refl key.key_thread_id core ok)
      | inr (h, found) ↦
          let t = key.key_thread_id in
          let m = core.session_map t in
          let here = set_at_self t (erase key.session_id m) core.session_map in
          let named = AllEntries-find (λ id h. h.actor_id ≡ id) key.session_id h m ok.named found in
          rw (found, release_one)
            (record {
              balance = λ j. rw here (erased_balance key.session_id h j m found named);
              ok = record {
                unique = rw here (erase-IsMap key.session_id m ok.unique);
                named =
                    rw here (AllEntries-erase (λ id h. h.actor_id ≡ id) key.session_id m ok.named);
                own = ok.own;
              };
            })
    ]

pub release_each-Accounts :
    (thread : ℕ) (keys : List ReleaseSessionKey) (core : ServerCore)
    → All (λ key. key.key_thread_id ≡ thread) keys
    → IsThreadOk thread core
    → Accounts thread core (release_each keys core).0 (release_each keys core).1
unfolding release_each
release_each-Accounts thread [] core own ok = Accounts-refl thread core ok
release_each-Accounts thread (key ∷ keys) core own ok =
    let one =
      subst (λ t. Accounts t core (release_one key core).0 (release_one key core).1) own.0
        (release_one-Accounts key core (subst (λ t. IsThreadOk t core) (sym own.0) ok)) in
    Accounts-trans (release_one key core).1 _ one
      (release_each-Accounts thread keys (release_one key core).0 own.1 one.ok)

abbrev pub IsOwn : ℕ → List ReleaseSessionKey → Type 0
IsOwn thread keys = All (λ key. key.key_thread_id ≡ thread) keys

pub release_queued-Accounts :
    (thread : ℕ) (core : ServerCore)
    → IsThreadOk thread core
    → Accounts thread core (release_queued thread core).0 (release_queued thread core).1
unfolding release_queued
release_queued-Accounts thread core ok =
    let emptied : ServerCore = record core {
      release_threads_queue = set_at thread [] core.release_threads_queue;
    } in
    let own : IsOwn thread (set_at thread [] core.release_threads_queue thread) =
      subst (IsOwn thread) (sym (set_at_self thread [] core.release_threads_queue)) tt in
    let a =
      release_each-Accounts thread (core.release_threads_queue thread) emptied ok.own
        (record { unique = ok.unique; named = ok.named; own = own }) in
    record { balance = a.balance; ok = a.ok }

pub all_disconnected :
    (id : ℕ) (m : Map Handle)
    → IsMap m
    → AllEntries (λ id h. h.actor_id ≡ id) m
    → disconnections id (map disconnected (values m)) ≡ one_if_there id m
unfolding contains
all_disconnected id [] u named = refl
all_disconnected id ((k, h) ∷ m) u named =
    ground (arith, all_disconnected id m u.1 named.1, ==_iff k id)

pub erase_all_session-Accounts :
    (thread : ℕ) (core : ServerCore)
    → IsThreadOk thread core
    → Accounts thread core (erase_all_session thread core).0 (erase_all_session thread core).1
unfolding erase_all_session contains
erase_all_session-Accounts thread core ok =
    let here = set_at_self thread [] core.session_map in
    record {
      balance = λ id.
          rw here (omega (arith, all_disconnected id (core.session_map thread) ok.unique ok.named));
      ok = record { unique = rw here tt; named = rw here tt; own = ok.own };
    }

pub release_session-Accounts :
    (thread id : ℕ) (core : ServerCore)
    → IsThreadOk thread core
    → Accounts thread core (release_session id thread core) []
unfolding release_session
release_session-Accounts thread id core ok =
    let keys =
      core.release_threads_queue thread
      ++ record { session_id = id; key_thread_id = thread } ∷ [] in
    let own : IsOwn thread (set_at thread keys core.release_threads_queue thread) =
      subst (IsOwn thread) (sym (set_at_self thread keys core.release_threads_queue)) (
        All-append (λ key. key.key_thread_id ≡ thread) (core.release_threads_queue thread) _ ok.own
          (refl, tt)) in
    record {
      balance = λ j. omega arith;
      ok = record { unique = ok.unique; named = ok.named; own = own };
    }
