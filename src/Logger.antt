-- ===== src/Logger.antt =====
-- ActorModelServer/Logger/Logger.h and Logger.cpp: the queue of log objects, the worker thread and
-- the count of its clients. Log objects are numbers; what the worker has written to the file and
-- to the console are lists. A wait that returns, and what others log during the worker's sleep, are arguments.
pub mod Order
pub mod Stopping
mod Examples
use actor_model_server.Base.{
  ℕ, ◌+◌, ◌%◌, ◌^◌, Bool, true, false, List, [], ◌∷◌, ◌++◌, ltb, ◌&&◌, ◌==◌, not, if◌then◌else◌,
}

-- `currentConnectedClientCount` is a 16-bit integer, here by its bits.
pub record Logger : Type 0 where
  pub current_connected_client_count : ℕ
  pub print_to_console : Bool
  pub worker_running : Bool
  pub stop_signalled : Bool
  pub log_waiting_queue : List ℕ
  pub file : List ℕ
  pub console : List ℕ

-- Whether 16 bits are a positive number.
abbrev pub is_positive : ℕ → Bool
is_positive n = ltb 0 n && ltb n (2 ^ 15)

pub run_logger_thread : Bool → Logger → Logger
run_logger_thread print l =
    let counted : Logger = record l {
      current_connected_client_count = (l.current_connected_client_count + 1) % 2 ^ 16;
    } in
    if is_positive l.current_connected_client_count
    then counted
    else record counted { print_to_console = print; worker_running = true; stop_signalled = false }

-- `fetch_sub(0)` gives the count and leaves it. The `join` waits for the worker's last step.
pub stop_logger_thread : Logger → Logger
stop_logger_thread l =
    if l.current_connected_client_count == 1 then record l { stop_signalled = true } else l

pub write_log : ℕ → Logger → Logger
write_log log l = record l { log_waiting_queue = l.log_waiting_queue ++ log ∷ [] }

-- What a list of log objects is on the console.
abbrev pub printed : Bool → List ℕ → List ℕ
printed true logs = logs
printed false logs = []

pub write_log_to_file : ℕ → Logger → Logger
write_log_to_file log l = record l {
  file = l.file ++ log ∷ [];
  console = l.console ++ printed l.print_to_console (log ∷ []);
}

pub write_log_impl : List ℕ → Logger → Logger
unfolding write_log_to_file
write_log_impl [] l = l
write_log_impl (log ∷ logs) l = write_log_impl logs (write_log_to_file log l)

pub write_logs : List ℕ → Logger → Logger
write_logs [] l = l
write_logs (log ∷ logs) l = write_logs logs (write_log log l)

-- What a wait of the worker returns; for the stop event, with what is logged during the sleep.
pub data Wake : Type 0 where
  log_handle : Wake
  stop_handle : List ℕ → Wake

-- A round of `Worker`. Its own queue is empty when it swaps.
pub work : Wake → Logger → Logger
work log_handle l = write_log_impl l.log_waiting_queue (record l { log_waiting_queue = [] })
work (stop_handle meanwhile) l =
    record (write_log_impl l.log_waiting_queue
      (write_logs meanwhile (record l { log_waiting_queue = [] }))) { worker_running = false }
