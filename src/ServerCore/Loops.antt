-- ===== src/ServerCore/Loops.antt =====
-- The loops of the threads of `ServerCore` and `StopServer` as a whole. What a thread waits for or is
-- given in a round is one element of a list; what other threads do in between is part of it. A
-- session factory is a function of the socket, which may give no session.
pub mod Accepting
pub mod Unset
pub mod Keys
pub mod Releasing
pub mod Stopping
mod Examples
use actor_model_server.Base.{
  ℕ, zero, suc, Bool, true, false, Option, none, some, List, [], ◌∷◌, ◌++◌, ◌&&◌, if◌then◌else◌,
}
use actor_model_server.NetLib.{RingOps, QueueOps}
use actor_model_server.Session.{IoEvent}
use actor_model_server.ServerCore.RecvPath.{Overlapped}
use actor_model_server.ServerCore.Startup.{PortHandle}
use actor_model_server.ServerCore.Registry.{
  ServerCore, CoreEvent, ReleaseSessionKey, release_session, release_queued, erase_all_session,
}
use actor_model_server.ServerCore.Threads.{
  Newcomer, Accepted, accept_round, IoDecision, leave, pass_on_and_leave, io_round, stop_io_threads,
  Wait, stop_event, run_logic_thread,
}

-- How a thread's function stands: in its loop, returned, or left by an exception, which ends the
-- process.
pub data ThreadEnd : Type 0 where
  running returned terminated : ThreadEnd

-- What `accept` gives; for a socket, with the cell that the pool of completion keys gives, and what
-- `CreateIoCompletionPort` and `WSARecv` answer.
pub data AcceptResult : Type 0 where
  client : ℕ → ℕ → PortHandle → Bool → AcceptResult
  interrupted accept_failed : AcceptResult

-- `CreateSession`: it throws without a factory.
pub data Created (S : Type 0) : Type 0 where
  thrown : Created S
  no_session : Created S
  created_session : S → Created S

pub of_factory : {S : Type 0} → Option S → Created S
of_factory none = no_session
of_factory (some s) = created_session s

pub create_session : {S : Type 0} → Option (ℕ → Option S) → ℕ → Created S
unfolding of_factory
create_session none sock = thrown
create_session (some factory) sock = of_factory (factory sock)

pub record AcceptLoop (queue : QueueOps) (M W : Type 0) : Type 0 where
  pub core : ServerCore
  pub newcomers : List (Newcomer queue M W)
  pub created : List CoreEvent
  pub io : List IoEvent
  pub accept_end : ThreadEnd

module _ (ring : RingOps) (queue : QueueOps) {M W : Type 0} where
  pub before_loop : Accepted queue M W → AcceptLoop queue M W → AcceptLoop queue M W
  before_loop round rest = record {
    core = rest.core;
    newcomers = round.newcomer ∷ rest.newcomers;
    created = round.created ++ rest.created;
    io = round.io ++ rest.io;
    accept_end = rest.accept_end;
  }

  pub accept_ends : ThreadEnd → ServerCore → AcceptLoop queue M W
  accept_ends how core = record {
    core = core;
    newcomers = [];
    created = [];
    io = [];
    accept_end = how;
  }

  -- A new session with the ring that it receives into.
  pub run_accept_thread :
      Option (ℕ → Option (Newcomer queue M W × ring.Ring))
      → M
      → List AcceptResult
      → ServerCore
      → AcceptLoop queue M W
  run_accept_thread factory on_actor_created [] core = accept_ends running core
  run_accept_thread factory on_actor_created (interrupted ∷ results) core =
      accept_ends returned core
  run_accept_thread factory on_actor_created (accept_failed ∷ results) core =
      run_accept_thread factory on_actor_created results core
  run_accept_thread factory on_actor_created (client sock cell port posted ∷ results) core =
      elim (create_session factory sock) [
        | thrown ↦ accept_ends terminated core
        | no_session ↦ run_accept_thread factory on_actor_created results core
        | created_session (n, r) ↦
            let round = accept_round ring queue cell port posted r on_actor_created n core in
            before_loop round (run_accept_thread factory on_actor_created results round.core)
      ]

-- What `GetQueuedCompletionStatus` gives. A key is a cell of the pool of completion keys, with what
-- the cell holds then; `core` is what the maps hold then.
pub record Completion : Type 0 where
  pub iocp_retval : Bool
  pub overlapped : Option Overlapped
  pub key : Option (ℕ × ReleaseSessionKey)
  pub core : ServerCore

pub data IoAction : Type 0 where
  key_freed : ℕ → IoAction
  decided : IoDecision → IoAction

abbrev pub key_of : Option (ℕ × ReleaseSessionKey) → Option ReleaseSessionKey
key_of none = none
key_of (some (cell, key)) = some key

pub free_key : Option (ℕ × ReleaseSessionKey) → List IoAction
free_key none = []
free_key (some (cell, key)) = key_freed cell ∷ []

abbrev pub decision : Completion → IoDecision
decision c = io_round c.iocp_retval c.overlapped (key_of c.key) c.core

abbrev pub is_leaving : IoDecision → Bool
is_leaving leave = true
is_leaving pass_on_and_leave = true
is_leaving _ = false

-- The loop of `RunIoThread`: a round first frees the key of the round before.
pub run_io_thread : Option (ℕ × ReleaseSessionKey) → List Completion → List IoAction × ThreadEnd
run_io_thread previous [] = (free_key previous, running)
run_io_thread previous (c ∷ cs) =
    let (actions, how) = run_io_thread c.key cs in
    if is_leaving (decision c)
    then (free_key previous ++ decided (decision c) ∷ [], returned)
    else (free_key previous ++ decided (decision c) ∷ actions, how)

-- What a release thread's wait returns.
pub data ReleaseWait : Type 0 where
  queue_event release_stop_event release_invalid : ReleaseWait

pub release_sessions : List ℕ → ℕ → ServerCore → ServerCore
release_sessions [] thread core = core
release_sessions (id ∷ ids) thread core =
    release_sessions ids thread (release_session id thread core)

pub release_round : ReleaseWait → ℕ → ServerCore → ServerCore × List CoreEvent
release_round queue_event thread core = release_queued thread core
release_round release_stop_event thread core = erase_all_session thread core
release_round release_invalid thread core = (core, [])

-- The loop of `RunReleaseThread`: the server, what was done, and whether the function has returned.
-- Before each wait returns, other threads call `ReleaseSession` for the listed sessions of this
-- thread.
pub run_release_thread :
    Bool → List (List ℕ × ReleaseWait) → ℕ → ServerCore → ServerCore × List CoreEvent × Bool
run_release_thread true rounds thread core = (core, [], true)
run_release_thread false [] thread core = (core, [], false)
run_release_thread false ((ids, wait) ∷ rounds) thread core =
    let (core', events) = release_round wait thread (release_sessions ids thread core) in
    let (core'', more, ended) = run_release_thread false rounds thread core' in
    (core'', events ++ more, ended)

-- The waits of a logic thread and of a release thread once the stop event is set, which stays set.
abbrev pub stop_waits : ℕ → List Wait
stop_waits zero = []
stop_waits (suc n) = stop_event ∷ stop_waits n

abbrev pub release_stop_waits : ℕ → List (List ℕ × ReleaseWait)
release_stop_waits zero = []
release_stop_waits (suc n) = ([], release_stop_event) ∷ release_stop_waits n

-- The joins of the logic and the release threads from `thread` on, whether each thread has returned
-- after so many rounds.
pub join_threads : Bool → ℕ → ℕ → ℕ → ServerCore → Bool
join_threads is_stop rounds thread zero core = true
join_threads is_stop rounds thread (suc n) core =
    (run_logic_thread is_stop (stop_waits rounds) thread core).1
    && ((run_release_thread is_stop (release_stop_waits rounds) thread core).2
        && join_threads is_stop rounds (suc thread) n core)

-- `StopServer` from the I/O threads on: whether it returns after so many rounds of the other
-- threads. `takers` are the I/O threads that take the posted keys.
pub stop_server : Bool → ℕ → List ℕ → List ℕ → ServerCore → Bool
stop_server is_stop rounds io_threads takers core =
    elim (stop_io_threads io_threads takers io_threads core) [
      | none ↦ false
      | some left ↦ join_threads is_stop rounds 0 core.num_of_logic_thread core
    ]
