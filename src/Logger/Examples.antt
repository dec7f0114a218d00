-- ===== src/Logger/Examples.antt =====
-- A logger with two clients.
use actor_model_server.Base.{ℕ, ◌≡◌, refl, true, false, List, [], ◌∷◌, ◌++◌}
use actor_model_server.Logger.{Logger, log_handle, stop_handle, printed, run_logger_thread}
use actor_model_server.Logger.Order.{Op, logs, wakes, run, run-line}
use actor_model_server.Logger.Stopping.{stop_times, stop_logger_thread_never}

abbrev fresh : Logger
fresh = record {
  current_connected_client_count = 0;
  print_to_console = true;
  worker_running = false;
  stop_signalled = false;
  log_waiting_queue = [];
  file = [];
  console = [];
}

abbrev day : List Op
day = logs 1 ∷ logs 2 ∷ wakes log_handle ∷ logs 3 ∷ wakes (stop_handle (4 ∷ [])) ∷ logs 5 ∷ []

run-line_example :
    (written : List ℕ) × (written ++ (run day fresh).log_waiting_queue ≡ 1 ∷ 2 ∷ 3 ∷ 4 ∷ 5 ∷ [])
    × ((run day fresh).file ≡ written)
    × ((run day fresh).console ≡ printed true written)
run-line_example = run-line day fresh

stop_logger_thread_never_example :
    stop_times 3 (run_logger_thread false (run_logger_thread true fresh)) ≡ record fresh {
      current_connected_client_count = 2;
      print_to_console = true;
      worker_running = true;
    }
stop_logger_thread_never_example = stop_logger_thread_never 3 fresh true false refl
