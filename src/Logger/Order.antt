-- ===== src/Logger/Order.antt =====
-- The order of the log file.
use actor_model_server.Base.{
  ℕ, ◌≡◌, refl, sym, ap, subst, ◌∙◌, Bool, true, false, List, [], ◌∷◌, ◌++◌, append_assoc,
  append-nil,
}
use actor_model_server.Logger.{
  Logger, Wake, log_handle, stop_handle, write_log, write_logs, write_log_impl, write_log_to_file,
  work, printed,
}

-- Another thread logs, or the worker's wait returns.
pub data Op : Type 0 where
  logs : ℕ → Op
  wakes : Wake → Op

abbrev pub logged : List Op → List ℕ
logged [] = []
logged (logs n ∷ ops) = n ∷ logged ops
logged (wakes log_handle ∷ ops) = logged ops
logged (wakes (stop_handle meanwhile) ∷ ops) = meanwhile ++ logged ops

-- The worker's wake-ups count while it runs.
unfoldable pub op_step : Op → Logger → Logger
op_step (logs n) l = write_log n l
op_step (wakes w) l = work w l

unfoldable pub run : List Op → Logger → Logger
run [] l = l
run (op ∷ ops) l = run ops (op_step op l)

printed-append :
    (print : Bool) (xs ys : List ℕ)
    → printed print (xs ++ ys) ≡ printed print xs ++ printed print ys
printed-append true xs ys = refl
printed-append false xs ys = refl

-- A logger that has written some log objects.
abbrev pub with_written : List ℕ → Logger → Logger
with_written ns l = record l {
  file = l.file ++ ns;
  console = l.console ++ printed l.print_to_console ns;
}

with_written-nil : (l : Logger) → with_written [] l ≡ l
with_written-nil l = λ i. record l {
  file = append-nil l.file i;
  console = (ap (◌++◌ l.console) (printed-nil l.print_to_console) ∙ append-nil l.console) i;
}
  where
    printed-nil : (print : Bool) → printed print [] ≡ []
    printed-nil true = refl
    printed-nil false = refl

with_written-append :
    (xs ys : List ℕ) (l : Logger) → with_written ys (with_written xs l) ≡ with_written (xs ++ ys) l
with_written-append xs ys l = λ i. record l {
  file = append_assoc l.file xs ys i;
  console =
      (append_assoc l.console (printed l.print_to_console xs) (printed l.print_to_console ys)
          ∙ ap (◌++◌ l.console) (sym (printed-append l.print_to_console xs ys)))
        i;
}

pub write_log_impl-with_written :
    (ns : List ℕ) (l : Logger) → write_log_impl ns l ≡ with_written ns l
unfolding write_log_impl write_log_to_file
write_log_impl-with_written [] l = sym (with_written-nil l)
write_log_impl-with_written (n ∷ ns) l =
    write_log_impl-with_written ns (with_written (n ∷ []) l) ∙ with_written-append (n ∷ []) ns l

pub write_logs-queue :
    (ns : List ℕ) (l : Logger)
    → write_logs ns l ≡ record l { log_waiting_queue = l.log_waiting_queue ++ ns }
unfolding write_logs write_log
write_logs-queue [] l =
    ap (λ q. record l { log_waiting_queue = q }) (sym (append-nil l.log_waiting_queue))
write_logs-queue (n ∷ ns) l =
    write_logs-queue ns _
    ∙ ap (λ q. record l { log_waiting_queue = q }) (append_assoc l.log_waiting_queue (n ∷ []) ns)

pub work_stop_handle :
    (meanwhile : List ℕ) (l : Logger)
    → work (stop_handle meanwhile) l ≡ record (with_written l.log_waiting_queue l) {
      log_waiting_queue = meanwhile;
      worker_running = false;
    }
unfolding work
work_stop_handle meanwhile l =
    ap (λ (x : Logger). record (write_log_impl l.log_waiting_queue x) { worker_running = false })
      (write_logs-queue meanwhile (record l { log_waiting_queue = [] }))
    ∙ ap (λ (x : Logger). record x { worker_running = false })
        (write_log_impl-with_written l.log_waiting_queue
          (record l { log_waiting_queue = meanwhile }))

-- `ns` are written by the step from `l` to `l'`, which logs `logs`.
pub record Written (ns logs : List ℕ) (l l' : Logger) : Type 0 where
  pub filed : l'.file ≡ l.file ++ ns
  pub shown : l'.console ≡ l.console ++ printed l.print_to_console ns
  pub taken : ns ++ l'.log_waiting_queue ≡ l.log_waiting_queue ++ logs
  pub same_print : l'.print_to_console ≡ l.print_to_console

-- What an operation writes.
abbrev pub written_by : Op → Logger → List ℕ
written_by (logs n) l = []
written_by (wakes w) l = l.log_waiting_queue

op_step-Written :
    (op : Op) (l : Logger) → Written (written_by op l) (logged (op ∷ [])) l (op_step op l)
unfolding op_step write_log work
op_step-Written (logs n) l = record {
  filed = sym (append-nil l.file);
  shown = ap (λ (x : Logger). x.console) (sym (with_written-nil l));
  taken = refl;
  same_print = refl;
}
op_step-Written (wakes log_handle) l =
    let same =
      write_log_impl-with_written l.log_waiting_queue (record l { log_waiting_queue = [] }) in
    record {
      filed = ap (λ (x : Logger). x.file) same;
      shown = ap (λ (x : Logger). x.console) same;
      taken = ap (λ (x : Logger). l.log_waiting_queue ++ x.log_waiting_queue) same;
      same_print = ap (λ (x : Logger). x.print_to_console) same;
    }
op_step-Written (wakes (stop_handle meanwhile)) l =
    let same = work_stop_handle meanwhile l in
    record {
      filed = ap (λ (x : Logger). x.file) same;
      shown = ap (λ (x : Logger). x.console) same;
      taken =
          ap (λ (x : Logger). l.log_waiting_queue ++ x.log_waiting_queue) same
          ∙ ap (◌++◌ l.log_waiting_queue) (sym (append-nil meanwhile));
      same_print = ap (λ (x : Logger). x.print_to_console) same;
    }

Written-trans :
    (xs ys first second : List ℕ) (l l' l'' : Logger)
    → Written xs first l l'
    → Written ys second l' l''
    → Written (xs ++ ys) (first ++ second) l l''
Written-trans xs ys first second l l' l'' h h' = record {
  filed = h'.filed ∙ ap (λ f. f ++ ys) h.filed ∙ append_assoc l.file xs ys;
  shown =
      h'.shown
      ∙ ap (λ p. l'.console ++ printed p ys) h.same_print
      ∙ ap (λ c. c ++ printed l.print_to_console ys) h.shown
      ∙ append_assoc l.console _ _
      ∙ ap (◌++◌ l.console) (sym (printed-append l.print_to_console xs ys));
  taken =
      append_assoc xs ys l''.log_waiting_queue
      ∙ ap (◌++◌ xs) h'.taken
      ∙ sym (append_assoc xs l'.log_waiting_queue second)
      ∙ ap (λ q. q ++ second) h.taken
      ∙ append_assoc l.log_waiting_queue first second;
  same_print = h'.same_print ∙ h.same_print;
}

logged-cons : (op : Op) (ops : List Op) → logged (op ∷ ops) ≡ logged (op ∷ []) ++ logged ops
logged-cons (logs n) ops = refl
logged-cons (wakes log_handle) ops = refl
logged-cons (wakes (stop_handle meanwhile)) ops =
    ap (λ x. x ++ logged ops) (sym (append-nil meanwhile))

abbrev pub written_in : List Op → Logger → List ℕ
written_in [] l = []
written_in (op ∷ ops) l = written_by op l ++ written_in ops (op_step op l)

run-Written : (ops : List Op) (l : Logger) → Written (written_in ops l) (logged ops) l (run ops l)
unfolding run
run-Written [] l = record {
  filed = sym (append-nil l.file);
  shown = ap (λ (x : Logger). x.console) (sym (with_written-nil l));
  taken = sym (append-nil l.log_waiting_queue);
  same_print = refl;
}
run-Written (op ∷ ops) l =
    subst (λ all. Written (written_in (op ∷ ops) l) all l (run ops (op_step op l)))
      (sym (logged-cons op ops))
      (Written-trans (written_by op l) _ (logged (op ∷ [])) (logged ops) l (op_step op l) _
        (op_step-Written op l) (run-Written ops (op_step op l)))

-- Under any interleaving, what the worker has written and then the waiting queue are exactly what
-- waited at first and then what was logged, in order: it loses, doubles and reorders nothing. What
-- it has written is added to the file, and to the console if the logger prints there, and else
-- nothing is.
pub run-line :
    (ops : List Op) (l : Logger)
    → (written : List ℕ) × (written ++ (run ops l).log_waiting_queue
        ≡ l.log_waiting_queue ++ logged ops)
      × ((run ops l).file ≡ l.file ++ written)
      × ((run ops l).console ≡ l.console ++ printed l.print_to_console written)
run-line ops l = let h = run-Written ops l in (written_in ops l, h.taken, h.filed, h.shown)
