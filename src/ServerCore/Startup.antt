-- ===== src/ServerCore/Startup.antt =====
-- The start of `ServerCore`: `StartServer` with `OptionParsing`, `InitNetwork`, `InitThreads` and
-- `SetSessionFactory`. What the option file holds and what the system calls answer are arguments;
-- `Factory` is the type of session factories.
pub mod Failing
mod Examples
use actor_model_server.Base.{ℕ, ◌+◌, Bool, true, false, Option, none, some, ◌&&◌, if◌then◌else◌}

-- What `CParser` answers for each key, nothing where it fails.
pub record OptionFile : Type 0 where
  pub bind_port : Option ℕ
  pub worker_thread : Option ℕ
  pub using_worker_thread : Option ℕ
  pub logic_thread : Option ℕ
  pub packet_code : Option ℕ
  pub packet_key : Option ℕ

-- What the calls of `InitNetwork` answer, true where they succeed.
pub record NetworkAnswers : Type 0 where
  pub startup_succeeds : Bool
  pub socket_succeeds : Bool
  pub bind_succeeds : Bool
  pub listen_succeeds : Bool

-- What `CreateIoCompletionPort` gives.
pub data PortHandle : Type 0 where
  null_handle invalid_handle_value port_handle : PortHandle

abbrev pub is_invalid_handle_value : PortHandle → Bool
is_invalid_handle_value invalid_handle_value = true
is_invalid_handle_value _ = false

pub record Started (Factory : Type 0) : Type 0 where
  pub port : ℕ
  pub num_of_worker_thread : ℕ
  pub num_of_using_worker_thread : ℕ
  pub num_of_logic_thread : ℕ
  pub header_code : ℕ
  pub xor_code : ℕ
  pub wsa_started : Bool
  pub socket_open : Bool
  pub is_bound : Bool
  pub is_listening : Bool
  pub accept_thread : Bool
  pub io_threads : ℕ
  pub logic_threads : ℕ
  pub release_threads : ℕ
  pub ticker_interval : Option ℕ
  pub session_factory : Option Factory
  pub iocp_handle : PortHandle

module _ (Factory : Type 0) where
  -- The members' initial values. The codes of `NetBuffer` are 0 here until they are read.
  abbrev pub before_start : Started Factory
  before_start = record {
    port = 0;
    num_of_worker_thread = 0;
    num_of_using_worker_thread = 0;
    num_of_logic_thread = 0;
    header_code = 0;
    xor_code = 0;
    wsa_started = false;
    socket_open = false;
    is_bound = false;
    is_listening = false;
    accept_thread = false;
    io_threads = 0;
    logic_threads = 0;
    release_threads = 0;
    ticker_interval = none;
    session_factory = none;
    iocp_handle = invalid_handle_value;
  }

  -- `if (not step) return false;`, with what the step has done.
  pub and_then :
      Started Factory × Bool → (Started Factory → Started Factory × Bool) → Started Factory × Bool
  and_then (s, ok) next = let rest = next s in if ok then rest else (s, false)

  -- `GetValue_...(..., &member)`.
  pub get_value :
      Option ℕ → (ℕ → Started Factory → Started Factory) → Started Factory → Started Factory × Bool
  get_value none assign s = (s, false)
  get_value (some v) assign s = (assign v s, true)

  -- A file that does not open is `none`.
  pub option_parsing : Option OptionFile → Started Factory → Started Factory × Bool
  unfolding and_then
  option_parsing none s = (s, false)
  option_parsing (some file) s =
      and_then
        (and_then
          (and_then
            (and_then
              (and_then (get_value file.bind_port (λ v t. record t { port = v }) s)
                (get_value file.worker_thread (λ v t. record t { num_of_worker_thread = v })))
              (get_value file.using_worker_thread
                (λ v t. record t { num_of_using_worker_thread = v })))
            (get_value file.logic_thread (λ v t. record t { num_of_logic_thread = v })))
          (get_value file.packet_code (λ v t. record t { header_code = v })))
        (get_value file.packet_key (λ v t. record t { xor_code = v }))

  pub init_network : NetworkAnswers → Started Factory → Started Factory × Bool
  init_network answers s =
      if answers.startup_succeeds
      then (if answers.socket_succeeds
          then (if answers.bind_succeeds
              then (if answers.listen_succeeds
                  then (
                    record s {
                      wsa_started = true;
                      socket_open = true;
                      is_bound = true;
                      is_listening = true;
                    },
                    true,
                  )
                  else (
                    record s { wsa_started = true; socket_open = true; is_bound = true },
                    false,
                  ))
              else (record s { wsa_started = true; socket_open = true }, false))
          else (record s { wsa_started = true; socket_open = false }, false))
      else (s, false)

  -- The accept thread, the ticker, then the I/O threads, and a logic and a release thread for each
  -- set of maps and queues.
  pub init_threads : Started Factory → Started Factory × Bool
  init_threads s = (
    record s {
      accept_thread = true;
      ticker_interval = some 100;
      io_threads = s.io_threads + s.num_of_worker_thread;
      logic_threads = s.logic_threads + s.num_of_logic_thread;
      release_threads = s.release_threads + s.num_of_logic_thread;
    },
    true,
  )

  -- A null factory is `none`.
  pub set_session_factory : Option Factory → Started Factory → Started Factory × Bool
  set_session_factory none s = (s, false)
  set_session_factory (some factory) s = (record s { session_factory = some factory }, true)

  pub create_port : PortHandle → Started Factory → Started Factory × Bool
  create_port handle s =
      let s' : Started Factory = record s { iocp_handle = handle } in
      if is_invalid_handle_value handle then (s', false) else (s', true)

  pub start_server :
      Option OptionFile
      → NetworkAnswers
      → Option Factory
      → PortHandle
      → Started Factory
      → Started Factory × Bool
  start_server file answers factory handle s =
      and_then
        (and_then (and_then (and_then (option_parsing file s) (init_network answers)) init_threads)
          (set_session_factory factory))
        (create_port handle)
