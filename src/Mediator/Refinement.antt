-- ===== src/Mediator/Refinement.antt =====
-- `MediatorBase` refines the two-phase commit of Ballots.
use mathlib.Core.Path.{fun_ext}
use actor_model_server.Base.{
  ℕ, subst, ◌≡◌, ◌≢◌, refl, ap, ◌∙◌, Bool, true, false, none, some, List, [], ◌∷◌, arith, ==_refl,
  All, Bool-cases, Option-cases, inl, inr,
}
use actor_model_server.Base.UnorderedMap.{
  Map, find, member, assign, erase, IsMap, find-assign, assign-IsMap,
}
use actor_model_server.Base.UnorderedMap.Entries.{all_of-find, AllEntries-find}
use actor_model_server.Mediator.{
  timed_out, Mediator, Transaction, Participant, is_prepared, commit_transaction,
  rollback_transaction, all_participants_prepared, participant_ready, on_participant_ready, init,
  entry_at, start_transaction, generate_transaction_id, on_timer, timed_out_transactions,
}
use actor_model_server.Mediator.Calls.{Call, start, ready, timer, step, run}
use actor_model_server.Mediator.Outcome.{reported, stored, report, on_participant_ready_found}
use actor_model_server.Mediator.Lifetime.{
  find-nil, member-timed_out, member-timed_out_absent, find-rollback_each,
}
use actor_model_server.Mediator.Validity.{IsValid, IsOpen, step-IsValid}
use actor_model_server.Mediator.Boards.{
  Anybody, announced-append, announced-commit_all, announced-rollback_all, board_of-end,
  board_of-store, put-put, missing_vote, ballot_of-assign, ballot_of-entry_at, ballot_of-enlist,
  announced-rollback_each,
}
use actor_model_server.Mediator.Ballots.{
  Ballot, put, no_board, AreDistinct, Step, opens, unknown, stranger, votes, commits, aborts,
  expires, enroll, Run, vote_of, ballot_of, ballot_in, board_of, announced,
}

module _ (tid pid now : ℕ) (m : Mediator) (t : Transaction) (p : Participant)
    (active : find tid m.active ≡ some t) (enrolled : find pid t.participants ≡ some p) where
  on_board : board_of m tid ≡ some (ballot_of t.participants)
  on_board = ap ballot_in active

  on_ballot : ballot_of t.participants pid ≡ some (is_prepared p.state)
  on_ballot = ap vote_of enrolled

  board_of-ended :
      (success : Bool) (x : Transaction)
      → board_of
          (record m { active = erase tid (assign tid x (stored tid pid now m t p success).active) })
        ≡ put tid none (board_of m)
  board_of-ended success x =
      board_of-end tid (stored tid pid now m t p success) x
      ∙ ap (put tid none) (board_of-store tid m (reported tid pid now m t p success))
      ∙ put-put tid none (some (ballot_of (reported tid pid now m t p success).participants))
          (board_of m)

  nobody_missing :
      all_participants_prepared (reported tid pid now m t p true) ≡ true
      → (j : ℕ) → j ≢ pid
      → ballot_of t.participants j ≢ some false
  unfolding all_participants_prepared
  nobody_missing all j other waits = elim (Option-cases (find j t.participants)) [
    | inl absent ↦ ground arith
    | inr (q, found) ↦ ground (
      arith,
      all_of-find (λ q. is_prepared q.state) j q (reported tid pid now m t p true).participants all,
      find-assign pid j (report p true now) t.participants,
    )
  ]

  somebody_missing :
      IsMap t.participants
      → all_participants_prepared (reported tid pid now m t p true) ≡ false
      → (j : ℕ) × (j ≢ pid) × (ballot_of t.participants j ≡ some false)
  unfolding all_participants_prepared
  somebody_missing u not_all =
      let ps = (reported tid pid now m t p true).participants in
      let (j, e) =
        missing_vote ps (assign-IsMap pid (report p true now) t.participants u) not_all in
      let seen =
        ap (λ (b : Ballot). b j) (ballot_of-assign pid (report p true now) t.participants) in
      (j, (λ same. ground (arith, ==_refl pid)), ground (arith, ==_refl pid))

  participant_ready-Step :
      (success : Bool)
      → IsMap t.participants
      → Step
          (board_of m)
          (ready tid pid success)
          (announced (participant_ready tid pid success now m t p).1)
          (board_of (participant_ready tid pid success now m t p).0)
  unfolding participant_ready rollback_transaction commit_transaction
  participant_ready-Step false u =
      aborts tid pid (ballot_of t.participants) (is_prepared p.state) refl on_board on_ballot
        (announced-rollback_all tid _ _) (board_of-ended false _)
  participant_ready-Step true u =
      elim (Bool-cases (all_participants_prepared (reported tid pid now m t p true))) [
        | inl all ↦ rw all (
            commits tid pid (ballot_of t.participants) (is_prepared p.state) refl on_board on_ballot
              (nobody_missing all) (announced-commit_all tid _ _) (board_of-ended true _))
        | inr open_still ↦
            let (j, other, waits) = somebody_missing u open_still in
            rw open_still (
              votes tid pid j (ballot_of t.participants) (is_prepared p.state) refl on_board
                on_ballot other waits refl
                (board_of-store tid m (reported tid pid now m t p true)
                  ∙ ap (λ (b : Ballot). put tid (some b) (board_of m))
                      (ballot_of-assign pid (report p true now) t.participants)))
      ]

on_participant_ready-Step :
    (tid pid now : ℕ) (success : Bool) (m : Mediator)
    → IsValid Anybody m
    → Step
        (board_of m)
        (ready tid pid success)
        (announced (on_participant_ready tid pid success now m).1)
        (board_of (on_participant_ready tid pid success now m).0)
unfolding on_participant_ready
on_participant_ready-Step tid pid now success m v = elim (Option-cases (find tid m.active)) [
  | inl closed ↦
      rw (closed, on_participant_ready)
        (unknown tid pid success refl (ap ballot_in closed) refl refl)
  | inr (t, active) ↦ elim (Option-cases (find pid t.participants)) [
    | inl absent ↦
        rw (active, on_participant_ready)
          (rw (absent, on_participant_ready)
            (stranger tid pid success (ballot_of t.participants) refl (ap ballot_in active)
              (ap vote_of absent) refl refl))
    | inr (p, enrolled) ↦
        rw (on_participant_ready_found tid pid now m t p active enrolled success) (
          participant_ready-Step tid pid now m t p active enrolled success
            (AllEntries-find (IsOpen Anybody) tid t m.active v.each active).2)
  ]
]

start_transaction-Step :
    (pids : List ℕ) (timeout now : ℕ) (m : Mediator)
    → Step
        (board_of m)
        (start pids timeout)
        (announced (start_transaction pids timeout now m).1)
        (board_of (start_transaction pids timeout now m).0)
unfolding start_transaction
start_transaction-Step pids timeout now m =
    let tid = generate_transaction_id m.generator in
    opens tid pids timeout refl refl (
      board_of-store tid m _
      ∙ ap (λ (b : Ballot). put tid (some b) (board_of m))
          (ballot_of-enlist pids (entry_at tid m.active).participants
            ∙ ap (enroll pids) (ballot_of-entry_at tid m)))

All-of_member : (P : ℕ → Type 0) (ks : List ℕ) → ((k : ℕ) → member k ks ≡ true → P k) → All P ks
All-of_member P [] h = tt
All-of_member P (k ∷ ks) h =
    (h k (ground (arith, ==_refl k)), All-of_member P ks (λ j e. h j (ground arith)))

timed_out_transactions-AreDistinct :
    (now : ℕ) (m : Map Transaction) → IsMap m → AreDistinct (timed_out_transactions now m)
unfolding timed_out_transactions
timed_out_transactions-AreDistinct now [] u = tt
timed_out_transactions-AreDistinct now ((tid, t) ∷ m) u = elim (Bool-cases (timed_out now t)) [
  | inl late ↦
      rw late (member-timed_out_absent tid now m u.0, timed_out_transactions-AreDistinct now m u.1)
  | inr early ↦ rw early (timed_out_transactions-AreDistinct now m u.1)
]

on_timer-Step :
    (now : ℕ) (m : Mediator)
    → IsMap m.active
    → Step (board_of m) timer (announced (on_timer now m).1) (board_of (on_timer now m).0)
unfolding on_timer
on_timer-Step now m u =
    let tids = timed_out_transactions now m.active in
    expires tids refl (timed_out_transactions-AreDistinct now m.active u)
      (All-of_member _ tids
        (λ tid listed. λ closed. ground (arith, member-timed_out tid now m.active u)))
      (announced-rollback_each tids m)
      (fun_ext λ tid. ground (arith, find-rollback_each tid tids m))

-- Every call of a valid mediator is a step of the two-phase commit that it stands for.
step-Step :
    (now : ℕ) (c : Call) (m : Mediator)
    → IsValid Anybody m
    → Step (board_of m) c (announced (step now c m).1) (board_of (step now c m).0)
unfolding step
step-Step now (start pids timeout) m v = start_transaction-Step pids timeout now m
step-Step now (ready tid pid success) m v = on_participant_ready-Step tid pid now success m v
step-Step now timer m v = on_timer-Step now m v.unique

run-Run :
    (calls : List (ℕ × Call)) (m : Mediator)
    → IsValid Anybody m
    → Run (board_of m) calls (announced (run calls m).1) (board_of (run calls m).0)
unfolding run
run-Run [] m v = (refl, refl)
run-Run ((now, c) ∷ calls) m v =
    let m' = (step now c m).0 in
    (
      board_of m',
      announced (step now c m).1,
      announced (run calls m').1,
      step-Step now c m v,
      run-Run calls m' (step-IsValid Anybody now c m (λ tid pid e. tt) v),
      announced-append (step now c m).1 (run calls m').1,
    )

-- Whatever calls a new mediator receives, with any times, ids, reports and timeouts: what it
-- announces (completed and failed transactions, in order) and what it keeps (which transactions
-- are open, who takes part and who has voted) is a run of the two-phase commit of Ballots. There
-- a transaction commits at the report of its last missing voter and at no other time, aborts at
-- the first refusal or when it expires, and is off the board then; and a report by a stranger, or
-- for a transaction that is not open, changes nothing. Which transactions have expired is left open
-- there.
pub run_refines :
    (calls : List (ℕ × Call))
    → Run no_board calls (announced (run calls init).1) (board_of (run calls init).0)
run_refines calls =
    subst (λ b. Run b calls (announced (run calls init).1) (board_of (run calls init).0)) empty
      (run-Run calls init (record { unique = tt; each = tt }))
  where
    empty : board_of init ≡ no_board
    empty = fun_ext λ tid. ap ballot_in (find-nil tid)
