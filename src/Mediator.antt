-- ===== src/Mediator.antt =====
-- ActorModelServer/ActorModelServer/MediatorBase.h and MediatorBase.cpp: the two-phase commit
-- coordinator. The clock is an argument `now` of each call, in microseconds. The pure virtual
-- callbacks of a derived mediator are the events that a call returns, in the order of the calls;
-- a callback that calls the mediator again is not modelled. The three `std::function` members of
-- `Participant`, which the code never sets nor calls, are left out.
pub mod Calls
pub mod Outcome
pub mod Validity
pub mod Unanimity
pub mod Count
pub mod Balance
pub mod Lifetime
pub mod Ballots
pub mod Boards
pub mod Refinement
mod Examples
use actor_model_server.Base.{
  ℕ, ◌+◌, ◌-◌, ◌%◌, ◌^◌, Bool, true, false, Option, none, some, List, [], ◌∷◌, ◌++◌, ltb, all_of,
  if◌then◌else◌,
}
use actor_model_server.Base.UnorderedMap.{Map, find, assign, erase, values}

pub data TransactionState : Type 0 where
  pending preparing committing completed failed rolling_back : TransactionState

pub data ParticipantState : Type 0 where
  waiting prepared committed refused : ParticipantState

pub record Participant : Type 0 where
  pub id : ℕ
  pub state : ParticipantState
  pub last_update : ℕ

pub record Transaction : Type 0 where
  pub id : ℕ
  pub state : TransactionState
  pub participants : Map Participant
  pub start_time : ℕ
  pub timeout : ℕ

pub record Mediator : Type 0 where
  pub active : Map Transaction
  pub generator : ℕ

-- A call of a virtual method. `on_completed` and `on_failed` also hold what the transaction's
-- entry is at the time of the call.
pub data Event : Type 0 where
  on_started : ℕ → Event
  on_completed : ℕ → Transaction → Event
  on_failed : ℕ → Transaction → Event
  commit_request : ℕ → Participant → Event
  rollback_request : ℕ → Participant → Event

-- `static inline std::atomic<TransactionIdType> transactionIdGenerator{ 1 }`.
abbrev pub init : Mediator
init = record { active = []; generator = 1 }

abbrev pub new_participant : ℕ → Participant
new_participant pid = record { id = pid; state = waiting; last_update = 0 }

-- The members' default values; the `id` and `startTime` of a new entry are written before use.
abbrev pub new_transaction : Transaction
new_transaction = record {
  id = 0;
  state = pending;
  participants = [];
  start_time = 0;
  timeout = 5000;
}

-- `++transactionIdGenerator` on a `uint64_t`.
pub generate_transaction_id : ℕ → ℕ
generate_transaction_id g = (g + 1) % 2 ^ 64

-- `activeTransactions[transactionId]`, which makes a default entry where there is none.
pub entry_at : ℕ → Map Transaction → Transaction
entry_at tid m = elim (find tid m) [ none ↦ new_transaction | some t ↦ t ]

pub enlist : List ℕ → Map Participant → Map Participant
enlist [] ps = ps
enlist (pid ∷ pids) ps = enlist pids (assign pid (new_participant pid) ps)

-- The id that it returns is the generator of the new state.
unfoldable pub start_transaction : List ℕ → ℕ → ℕ → Mediator → Mediator × List Event
start_transaction pids timeout now m =
    let tid = generate_transaction_id m.generator in
    let t = entry_at tid m.active in
    let t' : Transaction = record t {
      id = tid;
      start_time = now;
      timeout = timeout;
      participants = enlist pids t.participants;
    } in
    (record { active = assign tid t' m.active; generator = tid }, on_started tid ∷ [])

abbrev pub is_prepared : ParticipantState → Bool
is_prepared prepared = true
is_prepared _ = false

unfoldable pub all_participants_prepared : Transaction → Bool
all_participants_prepared t = all_of (λ p. is_prepared p.state) (values t.participants)

-- The loop of `CommitTransaction`: the request is sent before the state changes.
pub commit_all : ℕ → Map Participant → Map Participant × List Event
commit_all tid [] = ([], [])
commit_all tid ((pid, p) ∷ ps) =
    let (ps', sent) = commit_all tid ps in
    ((pid, record p { state = committed }) ∷ ps', commit_request tid p ∷ sent)

pub commit_transaction : ℕ → Mediator → Mediator × List Event
commit_transaction tid m =
    let t = entry_at tid m.active in
    let (ps, sent) = commit_all tid t.participants in
    let t' : Transaction = record t { state = completed; participants = ps } in
    (record m { active = erase tid (assign tid t' m.active) }, sent ++ on_completed tid t' ∷ [])

-- The loop of `RollbackTransaction`.
pub rollback_all : ℕ → Map Participant → List Event
rollback_all tid [] = []
rollback_all tid ((pid, p) ∷ ps) =
    let sent = rollback_all tid ps in
    if is_prepared p.state then rollback_request tid p ∷ sent else sent

unfoldable pub rollback_transaction : ℕ → Mediator → Mediator × List Event
rollback_transaction tid m =
    let t = entry_at tid m.active in
    let t' : Transaction = record t { state = failed } in
    (
      record m { active = erase tid (assign tid t' m.active) },
      rollback_all tid t.participants ++ on_failed tid t' ∷ [],
    )

-- `OnParticipantReady` once the transaction `t` and its participant `p` are found.
pub participant_ready :
    ℕ → ℕ → Bool → ℕ → Mediator → Transaction → Participant → Mediator × List Event
participant_ready tid pid success now m t p =
    let p' : Participant = record p {
      last_update = now;
      state = if success then prepared else refused;
    } in
    let t' : Transaction = record t { participants = assign pid p' t.participants } in
    let m' : Mediator = record m { active = assign tid t' m.active } in
    if success
    then (if all_participants_prepared t' then commit_transaction tid m' else (m', []))
    else rollback_transaction tid m'

pub on_participant_ready : ℕ → ℕ → Bool → ℕ → Mediator → Mediator × List Event
unfolding participant_ready
on_participant_ready tid pid success now m = elim (find tid m.active) [
  | none ↦ (m, [])
  | some t ↦ elim (find pid t.participants) [
    | none ↦ (m, [])
    | some p ↦ participant_ready tid pid success now m t p
  ]
]

unfoldable pub timed_out : ℕ → Transaction → Bool
timed_out now t = ltb t.timeout (now - t.start_time)

pub timed_out_transactions : ℕ → Map Transaction → List ℕ
timed_out_transactions now [] = []
timed_out_transactions now ((tid, t) ∷ m) =
    let rest = timed_out_transactions now m in if timed_out now t then tid ∷ rest else rest

pub rollback_each : List ℕ → Mediator → Mediator × List Event
rollback_each [] m = (m, [])
rollback_each (tid ∷ tids) m =
    let (m', sent) = rollback_transaction tid m in
    let (m'', rest) = rollback_each tids m' in (m'', sent ++ rest)

pub on_timer : ℕ → Mediator → Mediator × List Event
on_timer now m = rollback_each (timed_out_transactions now m.active) m
