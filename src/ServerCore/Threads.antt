-- ===== src/ServerCore/Threads.antt =====
-- The threads of `ServerCore`: a round of `RunAcceptThread`, the decision of a round of
-- `RunIoThread`, `RunLogicThread` over what its waits return, and the part of `StopServer` that stops
-- the I/O threads. Results of system calls are arguments. `isStop` is an argument of a thread's loop:
-- nothing in the code sets it.
pub mod Accepting
pub mod Stopping
mod Examples
use actor_model_server.Base.{
  ℕ, zero, suc, ◌-◌, ◌^◌, Bool, true, false, Option, none, some, List, [], ◌∷◌, ◌++◌, ◌==◌, ◌&&◌,
  if◌then◌else◌,
}
use actor_model_server.Base.UnorderedMap.{member}
use actor_model_server.NetLib.{RingOps, QueueOps}
use actor_model_server.Actor.{Actor, send_message}
use actor_model_server.Session.{Session, IoEvent, increase_io_count, decrease_io_count, do_recv}
use actor_model_server.ServerCore.RecvPath.{Overlapped}
use actor_model_server.ServerCore.Startup.{PortHandle, is_invalid_handle_value}
use actor_model_server.ServerCore.Registry.{
  ServerCore, Handle, CoreEvent, actor_created, ReleaseSessionKey, insert_session, find_session,
  wake_logic_thread,
}

-- A session on its way from `accept`: its handle, its state and its mailbox.
pub record Newcomer (queue : QueueOps) (M W : Type 0) : Type 0 where
  pub handle : Handle
  pub session : Session queue
  pub actor : Actor M W

-- What a round leaves: the server, the session, its completion key, a cell of the pool with what the
-- cell holds, and what the code has done on the way.
pub record Accepted (queue : QueueOps) (M W : Type 0) : Type 0 where
  pub core : ServerCore
  pub newcomer : Newcomer queue M W
  pub completion_key : ℕ × ReleaseSessionKey
  pub created : List CoreEvent
  pub io : List IoEvent

-- `ioCompletionKeyPool.Alloc()`, which gives a cell, and the two assignments to what it holds.
unfoldable pub allocate_key : ℕ → Handle → ℕ × ReleaseSessionKey
allocate_key cell h = (cell, record { session_id = h.actor_id; key_thread_id = h.thread_id })

module _ (ring : RingOps) (queue : QueueOps) {M W : Type 0} where
  -- A round of `RunAcceptThread` for a socket of which the factory has made a session. `cell` is what
  -- the pool of keys gives, `port` what `CreateIoCompletionPort` gives for the socket (it documents
  -- NULL for a failure, the code tests for INVALID_HANDLE_VALUE), `posted` what `WSARecv` answers,
  -- and `on_actor_created` is the message that calls `Session::OnActorCreated`.
  unfoldable pub accept_round :
      ℕ → PortHandle → Bool → ring.Ring → M → Newcomer queue M W → ServerCore → Accepted queue M W
  accept_round cell port posted r on_actor_created n core =
      let held = increase_io_count queue n.session in
      let (given_up, events) = decrease_io_count queue held in
      let (receiving, io, result) = do_recv queue ring posted r held in
      let (released, more) = decrease_io_count queue receiving in
      if is_invalid_handle_value port
      then record {
        core = core;
        newcomer = record n { session = given_up };
        completion_key = allocate_key cell n.handle;
        created = [];
        io = events;
      }
      else record {
        core = insert_session n.handle core;
        newcomer = record n {
          session = released;
          actor = (send_message (some on_actor_created) n.actor).0;
        };
        completion_key = allocate_key cell n.handle;
        created = actor_created n.handle ∷ [];
        io = io ++ more;
      }

-- What a round of `RunIoThread` does: it ends the thread, passes the close key on and ends it, goes
-- on, counts an I/O of a session down, or hands the completion to `OnIoCompleted`.
pub data IoDecision : Type 0 where
  leave pass_on_and_leave skip : IoDecision
  count_down : Handle → IoDecision
  complete : Handle → Overlapped → IoDecision

-- `IOCP_CLOSE_KEY`; the thread id is a byte.
abbrev pub iocp_close_key : ReleaseSessionKey
iocp_close_key = record { session_id = 2 ^ 64 - 1; key_thread_id = 255 }

abbrev pub same_key : ReleaseSessionKey → ReleaseSessionKey → Bool
same_key a b = (a.session_id == b.session_id) && (a.key_thread_id == b.key_thread_id)

unfoldable pub found_round : Bool → Overlapped → Option Handle → IoDecision
found_round iocp_retval overlapped none = skip
found_round false overlapped (some h) = count_down h
found_round true overlapped (some h) = complete h overlapped

unfoldable pub keyed_round : Bool → Overlapped → Option ReleaseSessionKey → ServerCore → IoDecision
keyed_round iocp_retval overlapped none core = skip
keyed_round iocp_retval overlapped (some key) core =
    if same_key key iocp_close_key
    then pass_on_and_leave
    else found_round iocp_retval overlapped (find_session key.session_id key.key_thread_id core)

unfoldable pub io_round :
    Bool → Option Overlapped → Option ReleaseSessionKey → ServerCore → IoDecision
io_round iocp_retval none key core = leave
io_round iocp_retval (some overlapped) key core = keyed_round iocp_retval overlapped key core

-- The I/O threads that still run after one of them has taken a posted key.
pub without : ℕ → List ℕ → List ℕ
without thread [] = []
without thread (t ∷ ts) = let rest = without thread ts in if t == thread then rest else t ∷ rest

pub after_post : IoDecision → ℕ → List ℕ → List ℕ
after_post leave taker running = without taker running
after_post pass_on_and_leave taker running = []
after_post _ taker running = running

-- The loop of `StopServer` over the I/O threads: for each of them it posts the close key with a null
-- OVERLAPPED, which some waiting thread takes, and joins the thread; `none`: the join waits for a
-- thread that no key is left for.
pub stop_io_threads : List ℕ → List ℕ → List ℕ → ServerCore → Option (List ℕ)
stop_io_threads [] takers running core = some running
stop_io_threads (i ∷ is) [] running core = none
stop_io_threads (i ∷ is) (taker ∷ takers) running core =
    let running' = after_post (io_round true none (some iocp_close_key) core) taker running in
    let rest = stop_io_threads is takers running' core in if member i running' then none else rest

-- What the wait of a logic thread returns.
pub data Wait : Type 0 where
  timeout stop_event invalid : Wait

unfoldable pub logic_round : Wait → ℕ → ServerCore → List CoreEvent
logic_round timeout thread core = wake_logic_thread thread core
logic_round stop_event thread core = []
logic_round invalid thread core = []

-- `RunLogicThread` over its waits: the calls that it makes, and whether it has ended.
unfoldable pub run_logic_thread : Bool → List Wait → ℕ → ServerCore → List CoreEvent × Bool
run_logic_thread true waits thread core = ([], true)
run_logic_thread false [] thread core = ([], false)
run_logic_thread false (w ∷ waits) thread core =
    let (events, ended) = run_logic_thread false waits thread core in
    (logic_round w thread core ++ events, ended)
