-- ===== src/Logger/Stopping.antt =====
-- How the worker ends.
use actor_model_server.Base.{ℕ, zero, suc, ◌≡◌, refl, ap, ◌∙◌, Bool, true, false, List, ◌++◌}
use actor_model_server.Logger.{Logger, stop_handle, run_logger_thread, stop_logger_thread, work}
use actor_model_server.Logger.Order.{work_stop_handle}

-- The last step of the worker writes what waited when it woke up; what is logged during its sleep
-- stays in the queue, and no worker is there to write it.
pub work_stop :
    (meanwhile : List ℕ) (l : Logger)
    → ((work (stop_handle meanwhile) l).file ≡ l.file ++ l.log_waiting_queue)
      × ((work (stop_handle meanwhile) l).log_waiting_queue ≡ meanwhile)
      × ((work (stop_handle meanwhile) l).worker_running ≡ false)
work_stop meanwhile l = rw (work_stop_handle meanwhile l) (refl, refl, refl)

abbrev pub stop_times : ℕ → Logger → Logger
stop_times zero l = l
stop_times (suc n) l = stop_times n (stop_logger_thread l)

stop_times_two : (n : ℕ) (l : Logger) → l.current_connected_client_count ≡ 2 → stop_times n l ≡ l
unfolding stop_logger_thread
stop_times_two zero l e = refl
stop_times_two (suc n) l e =
    let same : stop_logger_thread l ≡ l = rw e refl in ap (stop_times n) same ∙ stop_times_two n l e

-- Once two clients have started a new logger, no number of stops signals the worker: after all of
-- them the count of clients is still two, and a stop acts only where it is one.
pub stop_logger_thread_never :
    (stops : ℕ) (l : Logger) (first second : Bool)
    → l.current_connected_client_count ≡ 0
    → stop_times stops (run_logger_thread second (run_logger_thread first l)) ≡ record l {
      current_connected_client_count = 2;
      print_to_console = first;
      worker_running = true;
      stop_signalled = false;
    }
unfolding run_logger_thread stop_logger_thread
stop_logger_thread_never stops l first second e =
    let twice : run_logger_thread second (run_logger_thread first l) ≡ record l {
      current_connected_client_count = 2;
      print_to_console = first;
      worker_running = true;
      stop_signalled = false;
    } =
      rw e refl in
    ap (stop_times stops) twice ∙ stop_times_two stops _ refl
