-- ===== src/ServerCore/Registry.antt =====
-- The maps of `ServerCore`: sessions and other actors by thread and id, the number of users, and the
-- release queues with the loop that empties them. An actor behind a `shared_ptr` is a handle with its
-- id and its thread; the maps of all threads are a function of the thread's id. A map's iteration
-- order is that of its list. What the code does to actors is the list of events it returns.
pub mod Lookup
pub mod Users
pub mod Release
pub mod Accounting
pub mod Insertion
mod Examples
use actor_model_server.Base.{
  ℕ, ◌+◌, ◌-◌, ◌%◌, Bool, true, false, Option, none, some, List, [], ◌∷◌, ◌++◌, map, ◌==◌,
  if◌then◌else◌, length,
}
use actor_model_server.Base.Int.{ℤ, pos, increment, decrement}
use actor_model_server.Base.UnorderedMap.{Map, find, contains, insert, erase, values}

pub record Handle : Type 0 where
  pub actor_id : ℕ
  pub thread_id : ℕ

-- `ReleaseSessionKey`.
pub record ReleaseSessionKey : Type 0 where
  pub session_id : ℕ
  pub key_thread_id : ℕ

pub data CoreEvent : Type 0 where
  actor_created actor_destroyed disconnected pre_timer on_timer post_timer : Handle → CoreEvent

pub record ServerCore : Type 0 where
  pub num_of_logic_thread : ℕ
  pub num_of_user : ℤ
  pub session_map : ℕ → Map Handle
  pub non_network_actor_map : ℕ → Map Handle
  pub release_threads_queue : ℕ → List ReleaseSessionKey

-- `xs[thread] = x`.
abbrev pub set_at {ℓ} : {X : Type ℓ} → ℕ → X → (ℕ → X) → ℕ → X
set_at thread x xs t = if thread == t then x else xs t

unfoldable pub get_target_thread_id : ℕ → ServerCore → ℕ
get_target_thread_id actor_id r = actor_id % r.num_of_logic_thread

pub insert_session : Handle → ServerCore → ServerCore
insert_session h r = record r {
  session_map = set_at h.thread_id (insert h.actor_id h (r.session_map h.thread_id)) r.session_map;
  num_of_user = increment r.num_of_user;
}

pub erase_session : ℕ → ℕ → ServerCore → ServerCore
erase_session session_id thread r = record r {
  session_map = set_at thread (erase session_id (r.session_map thread)) r.session_map;
  num_of_user = decrement r.num_of_user;
}

pub erase_all_session : ℕ → ServerCore → ServerCore × List CoreEvent
erase_all_session thread r = (
  record r { session_map = set_at thread [] r.session_map; num_of_user = pos 0 },
  map disconnected (values (r.session_map thread)),
)

unfoldable pub find_session : ℕ → ℕ → ServerCore → Option Handle
find_session session_id thread r = find session_id (r.session_map thread)

unfoldable pub find_non_network_actor : ℕ → ServerCore → Option Handle
find_non_network_actor actor_id r =
    find actor_id (r.non_network_actor_map (get_target_thread_id actor_id r))

unfoldable pub find_actor : ℕ → Bool → ServerCore → Option Handle
find_actor actor_id is_network_actor r =
    if is_network_actor
    then find_session actor_id (get_target_thread_id actor_id r) r
    else find_non_network_actor actor_id r

-- A null pointer is `none`.
pub register_non_network_actor : Option Handle → ℕ → ServerCore → ServerCore × List CoreEvent × Bool
register_non_network_actor none thread r = (r, [], false)
register_non_network_actor (some h) thread r = (
  record r {
    non_network_actor_map =
        set_at thread (insert h.actor_id h (r.non_network_actor_map thread))
          r.non_network_actor_map;
  },
  actor_created h ∷ [],
  true,
)

pub unregister_non_network_actor :
    Option Handle → ℕ → ServerCore → ServerCore × List CoreEvent × Bool
unregister_non_network_actor none thread r = (r, [], false)
unregister_non_network_actor (some h) thread r =
    if contains h.actor_id (r.non_network_actor_map thread)
    then (
      record r {
        non_network_actor_map =
            set_at thread (erase h.actor_id (r.non_network_actor_map thread))
              r.non_network_actor_map;
      },
      actor_destroyed h ∷ [],
      true,
    )
    else (r, [], false)

-- The queue, and the event that wakes the thread, which is set while the queue is not empty.
pub release_session : ℕ → ℕ → ServerCore → ServerCore
release_session session_id thread r = record r {
  release_threads_queue =
      set_at thread
        (r.release_threads_queue thread
          ++ record { session_id = session_id; key_thread_id = thread } ∷ [])
        r.release_threads_queue;
}

-- One round of the loop of `RunReleaseThread`, without the `pop`.
pub release_one : ReleaseSessionKey → ServerCore → ServerCore × List CoreEvent
release_one key r = elim (find_session key.session_id key.key_thread_id r) [
  | none ↦ (r, [])
  | some h ↦ (erase_session key.session_id key.key_thread_id r, disconnected h ∷ [])
]

pub release_each : List ReleaseSessionKey → ServerCore → ServerCore × List CoreEvent
release_each [] r = (r, [])
release_each (key ∷ keys) r =
    let (r', events) = release_one key r in
    let (r'', more) = release_each keys r' in (r'', events ++ more)

-- What `RunReleaseThread` does when its event wakes it; the lock on the queue is held throughout.
pub release_queued : ℕ → ServerCore → ServerCore × List CoreEvent
release_queued thread r =
    release_each (r.release_threads_queue thread)
      (record r { release_threads_queue = set_at thread [] r.release_threads_queue })

pub pre_wake_logic_thread : ℕ → ServerCore → List CoreEvent
pre_wake_logic_thread thread r =
    map pre_timer (values (r.session_map thread))
    ++ map pre_timer (values (r.non_network_actor_map thread))

pub on_wake_logic_thread : ℕ → ServerCore → List CoreEvent
on_wake_logic_thread thread r =
    map on_timer (values (r.session_map thread))
    ++ map on_timer (values (r.non_network_actor_map thread))

pub post_wake_logic_thread : ℕ → ServerCore → List CoreEvent
post_wake_logic_thread thread r =
    map post_timer (values (r.session_map thread))
    ++ map post_timer (values (r.non_network_actor_map thread))

-- The `WAIT_TIMEOUT` case of `RunLogicThread`.
pub wake_logic_thread : ℕ → ServerCore → List CoreEvent
wake_logic_thread thread r =
    pre_wake_logic_thread thread r
    ++ (on_wake_logic_thread thread r ++ post_wake_logic_thread thread r)
