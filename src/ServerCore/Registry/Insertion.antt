-- ===== src/ServerCore/Registry/Insertion.antt =====
-- The maps after any number of `InsertSession`.
use actor_model_server.Base.{
  ℕ, suc, ◌+◌, ◌≡◌, refl, sym, ap, ◌∙◌, Bool, true, false, Option, none, some, List, [], ◌∷◌, ◌++◌,
  ◌&&◌, ◌==◌, if◌then◌else◌, length, arith, Bool-cases, ==_iff, inl, inr,
}
use actor_model_server.Base.Int.{pos, increment}
use actor_model_server.Base.UnorderedMap.{Map, find, insert}
use actor_model_server.ServerCore.Registry.{ServerCore, Handle, insert_session, find_session}

abbrev pub insert_sessions : List Handle → ServerCore → ServerCore
insert_sessions [] core = core
insert_sessions (h ∷ hs) core = insert_sessions hs (insert_session h core)

pub insert_sessions-append :
    (hs gs : List Handle) (core : ServerCore)
    → insert_sessions (hs ++ gs) core ≡ insert_sessions gs (insert_sessions hs core)
insert_sessions-append [] gs core = refl
insert_sessions-append (h ∷ hs) gs core = insert_sessions-append hs gs (insert_session h core)

abbrev pub or_else {ℓ} : {A : Type ℓ} → Option A → Option A → Option A
or_else none o = o
or_else (some a) o = some a

-- The first of some sessions that has this id on this thread.
abbrev pub first_of : ℕ → ℕ → List Handle → Option Handle
first_of id thread [] = none
first_of id thread (h ∷ hs) =
    if (h.actor_id == id) && (h.thread_id == thread) then some h else first_of id thread hs

find_or_inserted :
    (k id : ℕ) (h : Handle) (m : Map Handle)
    → find id (insert k h m) ≡ or_else (find id m) (if k == id then some h else none)
unfolding find insert
find_or_inserted k id h [] = ground arith
find_or_inserted k id h ((i, g) ∷ m) = ground (arith, find_or_inserted k id h m)

if_both :
    (b c : Bool) (h : Handle)
    → (if b && c then some h else none) ≡ (if c then (if b then some h else none) else none)
if_both true true h = refl
if_both true false h = refl
if_both false true h = refl
if_both false false h = refl

or_else-none : (o : Option Handle) → or_else o none ≡ o
or_else-none none = refl
or_else-none (some h) = refl

or_else_if :
    (b : Bool) (o rest : Option Handle) (h : Handle)
    → or_else (or_else o (if b then some h else none)) rest ≡ or_else o (if b then some h else rest)
or_else_if true none rest h = refl
or_else_if true (some g) rest h = refl
or_else_if false none rest h = refl
or_else_if false (some g) rest h = refl

find_session_inserted :
    (id thread : ℕ) (h : Handle) (core : ServerCore)
    → find_session id thread (insert_session h core)
      ≡ or_else (find_session id thread core) (first_of id thread (h ∷ []))
unfolding find_session insert_session
find_session_inserted id thread h core =
    let here = find_or_inserted h.actor_id id h (core.session_map thread) in
    let added = if h.actor_id == id then some h else none in
    elim (Bool-cases (h.thread_id == thread)) [
      | inl same ↦
          ap
            (λ t. find id (
              if h.thread_id == thread
              then insert h.actor_id h (core.session_map t)
              else core.session_map thread))
            ((==_iff h.thread_id thread).0 same)
          ∙ ap
              (λ b. find id (
                if b
                then insert h.actor_id h (core.session_map thread)
                else core.session_map thread))
              same
          ∙ here
          ∙ ap (λ b. or_else (find id (core.session_map thread)) (if b then added else none))
              (sym same)
          ∙ ap (or_else (find id (core.session_map thread)))
              (sym (if_both (h.actor_id == id) (h.thread_id == thread) h))
      | inr other ↦
          ap
            (λ b. find id (
              if b
              then insert h.actor_id h (core.session_map h.thread_id)
              else core.session_map thread))
            other
          ∙ sym (or_else-none (find id (core.session_map thread)))
          ∙ ap (λ b. or_else (find id (core.session_map thread)) (if b then added else none))
              (sym other)
          ∙ ap (or_else (find id (core.session_map thread)))
              (sym (if_both (h.actor_id == id) (h.thread_id == thread) h))
    ]

-- A session that is there stays; otherwise the first one that is inserted with the id on the thread
-- is found.
pub find_session-insert_sessions :
    (id thread : ℕ) (hs : List Handle) (core : ServerCore)
    → find_session id thread (insert_sessions hs core)
      ≡ or_else (find_session id thread core) (first_of id thread hs)
find_session-insert_sessions id thread [] core = sym (or_else-none (find_session id thread core))
find_session-insert_sessions id thread (h ∷ hs) core =
    find_session-insert_sessions id thread hs (insert_session h core)
    ∙ ap (λ o. or_else o (first_of id thread hs)) (find_session_inserted id thread h core)
    ∙ or_else_if ((h.actor_id == id) && (h.thread_id == thread)) (find_session id thread core)
        (first_of id thread hs) h

-- Every call counts a user.
pub insert_sessions-num_of_user :
    (hs : List Handle) (n : ℕ) (core : ServerCore)
    → core.num_of_user ≡ pos n
    → (insert_sessions hs core).num_of_user ≡ pos (n + length hs)
unfolding insert_session
insert_sessions-num_of_user [] n core e = e ∙ ap pos (omega arith)
insert_sessions-num_of_user (h ∷ hs) n core e =
    insert_sessions-num_of_user hs (suc n) (insert_session h core) (ap increment e)
    ∙ ap pos (omega arith)

pub insert_sessions-non_network_actor_map :
    (hs : List Handle) (core : ServerCore)
    → (insert_sessions hs core).non_network_actor_map ≡ core.non_network_actor_map
unfolding insert_session
insert_sessions-non_network_actor_map [] core = refl
insert_sessions-non_network_actor_map (h ∷ hs) core =
    insert_sessions-non_network_actor_map hs (insert_session h core)
