-- ===== src/SimpleClient/Lifecycle.antt =====
-- ActorModelServer/TestClient/SimpleClient.cpp, `Start` and `Stop` with what they call, and Client.cpp,
-- `StartClient` and `StopClient`: which threads run and what is open. Results of system calls are
-- arguments.
mod Examples
use actor_model_server.Base.{
  ◌≡◌, refl, Bool, true, false, Option, none, some, List, [], ◌∷◌, not, ◌&&◌, if◌then◌else◌, arith,
}
use actor_model_server.SimpleClient.Sending.{connect_to_server}

pub record Threads : Type 0 where
  pub need_stop : Bool
  pub wsa_started : Bool
  pub socket_open : Bool
  pub send_event_open : Bool
  pub is_connected : Bool
  pub recv_thread : Bool
  pub send_thread : Bool
  pub logic_thread : Bool

pub try_connect_to_server : Bool → Bool → List Bool → Threads → Threads × Bool
try_connect_to_server startup socket results s =
    if startup
    then (if socket
        then (if connect_to_server results
            then (record s { wsa_started = true; socket_open = true }, true)
            else (record s { wsa_started = false; socket_open = false }, false))
        else (record s { wsa_started = false }, false))
    else (s, false)

pub create_all_threads : Threads → Threads
create_all_threads s = record s { recv_thread = true; send_thread = true }

pub connected : Threads → Threads
connected s = record s { is_connected = true }

-- `options` is what `ReadOptionFile` answers. The semaphore of the send thread is created before the
-- connection is tried.
pub start : Bool → Bool → Bool → List Bool → Threads → Threads × Bool
start options startup socket results s =
    let ready : Threads = record s { send_event_open = true } in
    let (s', success) = try_connect_to_server startup socket results ready in
    if options
    then (if success then (connected (create_all_threads s'), true) else (s', false))
    else (s, false)

-- The join of the receive thread, which may be inside `recv`: it returns if the peer sends bytes or
-- closes, or if the thread has left it. The send thread is woken. `none`: the join does not return.
pub wait_stop_all_threads : Bool → Bool → Threads → Option Threads
wait_stop_all_threads in_recv peer_acts s =
    if s.recv_thread && (in_recv && not peer_acts)
    then none
    else some (record s {
      need_stop = true;
      recv_thread = false;
      send_thread = false;
      send_event_open = false;
      is_connected = false;
    })

pub stop : Bool → Bool → Threads → Option Threads
stop in_recv peer_acts s = elim (wait_stop_all_threads in_recv peer_acts s) [
  | none ↦ none
  | some s' ↦ some (record s' { wsa_started = false; socket_open = false })
]

-- The logic thread starts before the connection is tried.
pub start_client : Bool → Bool → Bool → List Bool → Threads → Threads × Bool
start_client options startup socket results s =
    start options startup socket results (record s { logic_thread = true })

-- The logic thread ends once `needStop` is set.
pub stop_client : Bool → Bool → Threads → Option Threads
stop_client in_recv peer_acts s = elim (stop in_recv peer_acts s) [
  | none ↦ none
  | some s' ↦ some (record s' { logic_thread = false })
]

-- A client that has not been started.
abbrev pub fresh : Threads
fresh = record {
  need_stop = false;
  wsa_started = false;
  socket_open = false;
  send_event_open = false;
  is_connected = false;
  recv_thread = false;
  send_thread = false;
  logic_thread = false;
}

-- `StartClient` succeeds exactly if the options are read, the library and the socket are there and
-- the server answers. If it does, everything runs. If it does not, the socket is closed, the library
-- is cleaned up and no thread of the connection runs, but the logic thread does, and nothing tells it
-- to stop; and if the options were read, the semaphore that was created for the send thread is left
-- open.
pub start_client_lem :
    (options startup socket : Bool) (results : List Bool)
    → let (s, started) = start_client options startup socket results fresh in
      (started ≡ (options && (startup && (socket && connect_to_server results))))
      × (s ≡ record {
        need_stop = false;
        wsa_started = started;
        socket_open = started;
        send_event_open = options;
        is_connected = started;
        recv_thread = started;
        send_thread = started;
        logic_thread = true;
      })
unfolding start_client start try_connect_to_server create_all_threads connected
start_client_lem options startup socket results = ground arith

-- `StopClient` on a client that has started and whose receive thread is inside `recv` returns
-- exactly if the peer sends or closes, as nothing that it does before its join ends `recv`. If it
-- returns, no thread runs and nothing is open.
pub stop_client_waits :
    (peer_acts : Bool) (s : Threads)
    → s.recv_thread ≡ true
    → stop_client true peer_acts s
      ≡ (if peer_acts then some (record fresh { need_stop = true }) else none)
unfolding stop_client stop wait_stop_all_threads
stop_client_waits peer_acts s h = ground arith
