-- ===== src/Mediator/Balance.antt =====
-- Every transaction ends at most once: `OnTransactionCompleted` and `OnTransactionFailed` counted
-- against the transactions that are active.
use actor_model_server.Base.{
  ℕ, ◌+◌, ◌^◌, ◌≤◌, ◌<◌, ◌≡◌, refl, Bool, true, false, some, List, [], ◌∷◌, arith, ltb, inl, inr,
  Option-cases, length,
}
use actor_model_server.Base.UnorderedMap.{
  find, contains, assign, IsMap, contains-assign, find-contains,
}
use actor_model_server.Mediator.{
  Mediator, Transaction, Participant, Event, init, rollback_transaction, commit_transaction,
  participant_ready, on_participant_ready, rollback_each, timed_out_transactions, start_transaction,
  on_timer, generate_transaction_id,
}
use actor_model_server.Mediator.Calls.{Call, start, ready, timer, step, run}
use actor_model_server.Mediator.Outcome.{reported, stored, on_participant_ready_found}
use actor_model_server.Mediator.Validity.{IsValid, step-IsValid}
use actor_model_server.Mediator.Count.{
  one_if, outcomes, outcomes-append, active_count, outcomes-commit_transaction,
  outcomes-rollback_transaction, active_count-commit_transaction, active_count-rollback_transaction,
  outcomes-rollback_each, times-timed_out,
}

-- An end of transaction `tid` in the events takes it out of the active ones.
abbrev Balanced : ℕ → Mediator → Mediator × List Event → Type 0
Balanced tid m r = outcomes tid r.1 + active_count tid r.0 ≡ active_count tid m

on_timer-Balanced : (tid now : ℕ) (m : Mediator) → IsMap m.active → Balanced tid m (on_timer now m)
unfolding on_timer
on_timer-Balanced tid now m u = elim (Option-cases (find tid m.active)) [
  | inl e ↦ ground (
    arith,
    times-timed_out tid now m.active u,
    outcomes-rollback_each tid (timed_out_transactions now m.active) m,
  )
  | inr (t, e) ↦ ground (
    arith,
    times-timed_out tid now m.active u,
    outcomes-rollback_each tid (timed_out_transactions now m.active) m,
    find-contains tid t m.active e,
  )
]

participant_ready-Balanced :
    (tid k pid : ℕ) (success : Bool) (now : ℕ) (m : Mediator) (t : Transaction) (p : Participant)
    → find k m.active ≡ some t
    → Balanced tid m (participant_ready k pid success now m t p)
unfolding participant_ready outcomes
participant_ready-Balanced tid k pid true now m t p e = ground (
  arith,
  find-contains k t m.active e,
  contains-assign k tid (reported k pid now m t p true) m.active,
  outcomes-commit_transaction tid k (stored k pid now m t p true),
  active_count-commit_transaction tid k (stored k pid now m t p true),
)
participant_ready-Balanced tid k pid false now m t p e = ground (
  arith,
  find-contains k t m.active e,
  contains-assign k tid (reported k pid now m t p false) m.active,
  outcomes-rollback_transaction tid k (stored k pid now m t p false),
  active_count-rollback_transaction tid k (stored k pid now m t p false),
)

on_participant_ready-Balanced :
    (tid k pid : ℕ) (success : Bool) (now : ℕ) (m : Mediator)
    → Balanced tid m (on_participant_ready k pid success now m)
unfolding on_participant_ready outcomes
on_participant_ready-Balanced tid k pid success now m = elim (Option-cases (find k m.active)) [
  | inl e ↦ rw (e, on_participant_ready) (omega arith)
  | inr (t, active) ↦ elim (Option-cases (find pid t.participants)) [
    | inl e ↦ rw (active, on_participant_ready) (rw (e, on_participant_ready) (omega arith))
    | inr (p, enrolled) ↦
        rw (on_participant_ready_found k pid now m t p active enrolled success)
          (participant_ready-Balanced tid k pid success now m t p active)
  ]
]

-- What can still happen to `tid`: it is active, or not yet given out.
abbrev pub budget : ℕ → Mediator → ℕ
budget tid m = active_count tid m + one_if (ltb m.generator tid)

-- No id above the generator is active.
pub record IsFresh (m : Mediator) : Type 0 where
  pub given : (tid : ℕ) → m.generator < tid → active_count tid m ≡ 0

budget-assign_next :
    (tid : ℕ) (t : Transaction) (m : Mediator)
    → IsFresh m
    → budget tid
        (record { active = assign (m.generator + 1) t m.active; generator = m.generator + 1 })
      ≡ budget tid m
budget-assign_next tid t m f =
    ground (arith, contains-assign (m.generator + 1) tid t m.active, f.given tid)

next_id : (g : ℕ) → g + 1 < 2 ^ 64 → generate_transaction_id g ≡ g + 1
unfolding generate_transaction_id
next_id g h = omega arith

start_transaction-budget :
    (tid : ℕ) (pids : List ℕ) (timeout now : ℕ) (m : Mediator)
    → IsFresh m
    → m.generator + 1 < 2 ^ 64
    → outcomes tid (start_transaction pids timeout now m).1
        + budget tid (start_transaction pids timeout now m).0
      ≡ budget tid m
unfolding start_transaction outcomes
start_transaction-budget tid pids timeout now m f room =
    rw (next_id m.generator room) (omega (arith, budget-assign_next tid _ m f))

generator-rollback_each :
    (ks : List ℕ) (m : Mediator) → (rollback_each ks m).0.generator ≡ m.generator
unfolding rollback_each rollback_transaction
generator-rollback_each [] m = refl
generator-rollback_each (k ∷ ks) m = generator-rollback_each ks (rollback_transaction k m).0

generator-participant_ready :
    (k pid : ℕ) (success : Bool) (now : ℕ) (m : Mediator) (t : Transaction) (p : Participant)
    → (participant_ready k pid success now m t p).0.generator ≡ m.generator
unfolding participant_ready rollback_transaction commit_transaction
generator-participant_ready k pid success now m t p = ground arith

generator-on_participant_ready :
    (k pid : ℕ) (success : Bool) (now : ℕ) (m : Mediator)
    → (on_participant_ready k pid success now m).0.generator ≡ m.generator
unfolding on_participant_ready
generator-on_participant_ready k pid success now m = elim (Option-cases (find k m.active)) [
  | inl e ↦ rw (e, on_participant_ready) refl
  | inr (t, active) ↦ elim (Option-cases (find pid t.participants)) [
    | inl e ↦ rw (active, on_participant_ready) (rw (e, on_participant_ready) refl)
    | inr (p, enrolled) ↦
        rw (on_participant_ready_found k pid now m t p active enrolled success)
          (generator-participant_ready k pid success now m t p)
  ]
]

record StepBalance (m : Mediator) (r : Mediator × List Event) : Type 0 where
  spent : (tid : ℕ) → outcomes tid r.1 + budget tid r.0 ≡ budget tid m
  older : m.generator ≤ r.0.generator
  next : r.0.generator ≤ m.generator + 1

quiet-StepBalance :
    (m : Mediator) (r : Mediator × List Event)
    → ((tid : ℕ) → Balanced tid m r)
    → r.0.generator ≡ m.generator
    → StepBalance m r
quiet-StepBalance m r balanced same = record {
  spent = λ tid. rw same (omega (arith, balanced tid));
  older = omega arith;
  next = omega arith;
}

step-StepBalance :
    (now : ℕ) (c : Call) (m : Mediator)
    → IsMap m.active
    → IsFresh m
    → m.generator + 1 < 2 ^ 64
    → StepBalance m (step now c m)
unfolding step
step-StepBalance now (start pids timeout) m u f room = record {
  spent = λ tid. start_transaction-budget tid pids timeout now m f room;
  older = unfold start_transaction in omega (arith, next_id m.generator room);
  next = unfold start_transaction in omega (arith, next_id m.generator room);
}
step-StepBalance now (ready k pid success) m u f room =
    quiet-StepBalance m _ (λ tid. on_participant_ready-Balanced tid k pid success now m)
      (generator-on_participant_ready k pid success now m)
step-StepBalance now timer m u f room =
    quiet-StepBalance m _ (λ tid. on_timer-Balanced tid now m u)
      (unfold on_timer in generator-rollback_each (timed_out_transactions now m.active) m)

StepBalance-IsFresh :
    (m : Mediator) (r : Mediator × List Event) → StepBalance m r → IsFresh m → IsFresh r.0
StepBalance-IsFresh m r b f = record {
  given = λ tid h. ground (arith, b.spent tid, b.older, f.given tid);
}

run-balance :
    (cs : List (ℕ × Call)) (m : Mediator) (tid : ℕ)
    → IsValid (λ _ _. Unit {0}) m
    → IsFresh m
    → m.generator + length cs < 2 ^ 64
    → outcomes tid (run cs m).1 + budget tid (run cs m).0 ≡ budget tid m
unfolding run outcomes
run-balance [] m tid v f room = omega arith
run-balance ((now, c) ∷ cs) m tid v f room =
    let b = step-StepBalance now c m v.unique f (omega arith) in
    omega (
      arith,
      outcomes-append tid (step now c m).1 (run cs (step now c m).0).1,
      b.spent tid,
      run-balance cs (step now c m).0 tid (step-IsValid (λ _ _. Unit {0}) now c m (λ _ _ _. tt) v)
          (StepBalance-IsFresh m _ b f) (omega (arith, b.next)),
    )

-- After any calls of a new mediator, the only one that draws ids, and too few to use them up, each
-- transaction that was started (its id lies from 2 to the generator) is active with no end announced, or is not active and its
-- end, completed or failed, was announced exactly once.
pub outcome_once :
    (cs : List (ℕ × Call)) (tid : ℕ)
    → 1 + length cs < 2 ^ 64
    → 2 ≤ tid
    → tid ≤ (run cs init).0.generator
    → outcomes tid (run cs init).1 + active_count tid (run cs init).0 ≡ 1
outcome_once cs tid room low high = ground (
  arith,
  run-balance cs init tid (record { unique = tt; each = tt }) init-IsFresh room,
  init-IsFresh.given tid low,
)
  where
    init-IsFresh : IsFresh init
    init-IsFresh = record { given = λ k h. unfold contains in refl }
