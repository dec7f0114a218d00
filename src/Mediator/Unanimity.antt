-- ===== src/Mediator/Unanimity.antt =====
-- Commits need every participant's vote: over one call, and over the whole history of calls.
use actor_model_server.Base.{
  ℕ, ◌≡◌, refl, sym, subst, Bool, true, false, some, List, [], ◌∷◌, ◌++◌, arith, ◌⊎◌, inl, inr,
  Bool-cases, Option-cases, all_of, All, All-append,
}
use actor_model_server.Base.UnorderedMap.{Map, find, values, find-assign_self}
use actor_model_server.Base.UnorderedMap.Entries.{AllEntries, AllEntries-find}
use actor_model_server.Mediator.{
  Mediator, Transaction, Participant, Event, on_completed, commit_request, committed, is_prepared,
  init, entry_at, commit_all, all_participants_prepared, rollback_transaction, rollback_all,
  commit_transaction, participant_ready, on_participant_ready, rollback_each,
  timed_out_transactions, start_transaction, on_timer,
}
use actor_model_server.Mediator.Calls.{Call, start, ready, timer, step, run}
use actor_model_server.Mediator.Outcome.{
  reported, stored, on_participant_ready_found, entry_at-find,
}
use actor_model_server.Mediator.Validity.{IsVoter, IsValid, step-IsValid, stored-IsValid, IsOpen}

module _ (V : ℕ → ℕ → Type 0) where
  -- A commit request goes to a participant that has voted, and a transaction completes with all
  -- its participants COMMITTED after all of them have voted.
  abbrev pub IsUnanimous : Event → Type 0
  IsUnanimous (on_completed tid t) =
      AllEntries (λ pid p. (p.state ≡ committed) × V tid pid) t.participants
  IsUnanimous (commit_request tid p) = V tid p.id
  IsUnanimous _ = Unit

  abbrev IsAgreed : ℕ → ℕ → Participant → Type 0
  IsAgreed tid pid p = (p.id ≡ pid) × V tid pid

  agreed :
      (tid : ℕ) (ps : Map Participant)
      → AllEntries (IsVoter V tid) ps
      → all_of (λ p. is_prepared p.state) (values ps) ≡ true
      → AllEntries (IsAgreed tid) ps
  agreed tid [] h all = tt
  agreed tid ((pid, p) ∷ ps) h all = (ground arith, agreed tid ps h.1 (ground arith))

  commit_all-IsUnanimous :
      (tid : ℕ) (ps : Map Participant)
      → AllEntries (IsAgreed tid) ps
      → All IsUnanimous (commit_all tid ps).1
        × AllEntries (λ pid p. (p.state ≡ committed) × V tid pid) (commit_all tid ps).0
  unfolding commit_all
  commit_all-IsUnanimous tid [] h = (tt, tt)
  commit_all-IsUnanimous tid ((pid, p) ∷ ps) h =
      let rest = commit_all-IsUnanimous tid ps h.1 in
      ((subst (V tid) (sym h.0.0) h.0.1, rest.0), ((refl, h.0.1), rest.1))

  rollback_all-IsUnanimous :
      (tid : ℕ) (ps : Map Participant) → All IsUnanimous (rollback_all tid ps)
  unfolding rollback_all
  rollback_all-IsUnanimous tid [] = tt
  rollback_all-IsUnanimous tid ((pid, p) ∷ ps) = elim (Bool-cases (is_prepared p.state)) [
    | inl h ↦ rw h (tt, rollback_all-IsUnanimous tid ps)
    | inr h ↦ rw h (rollback_all-IsUnanimous tid ps)
  ]

  rollback_transaction-IsUnanimous :
      (tid : ℕ) (m : Mediator) → All IsUnanimous (rollback_transaction tid m).1
  unfolding rollback_transaction
  rollback_transaction-IsUnanimous tid m =
      All-append IsUnanimous (rollback_all tid (entry_at tid m.active).participants) _
        (rollback_all-IsUnanimous tid (entry_at tid m.active).participants) (tt, tt)

  rollback_each-IsUnanimous :
      (tids : List ℕ) (m : Mediator) → All IsUnanimous (rollback_each tids m).1
  unfolding rollback_each
  rollback_each-IsUnanimous [] m = tt
  rollback_each-IsUnanimous (tid ∷ tids) m =
      All-append IsUnanimous (rollback_transaction tid m).1 _
        (rollback_transaction-IsUnanimous tid m)
        (rollback_each-IsUnanimous tids (rollback_transaction tid m).0)

  commit_transaction-IsUnanimous :
      (tid : ℕ) (m : Mediator) (t : Transaction)
      → find tid m.active ≡ some t
      → AllEntries (IsVoter V tid) t.participants
      → all_participants_prepared t ≡ true
      → All IsUnanimous (commit_transaction tid m).1
  unfolding commit_transaction all_participants_prepared
  commit_transaction-IsUnanimous tid m t active voters all =
      let sent = commit_all-IsUnanimous tid t.participants (agreed tid t.participants voters all) in
      rw (entry_at-find tid m.active active)
        (All-append IsUnanimous (commit_all tid t.participants).1 _ sent.0 (sent.1, tt))

  participant_ready-IsUnanimous :
      (tid pid now : ℕ) (m : Mediator) (t : Transaction) (p : Participant)
      → find tid m.active ≡ some t
      → find pid t.participants ≡ some p
      → IsValid V m
      → (success : Bool) → (success ≡ true → V tid pid)
      → All IsUnanimous (participant_ready tid pid success now m t p).1
  unfolding participant_ready
  participant_ready-IsUnanimous tid pid now m t p active enrolled v false voted =
      rollback_transaction-IsUnanimous tid (stored tid pid now m t p false)
  participant_ready-IsUnanimous tid pid now m t p active enrolled v true voted =
      elim (Bool-cases (all_participants_prepared t')) [
        | inl all ↦ rw all (commit_transaction-IsUnanimous tid m' t' found voters all)
        | inr open_still ↦ rw open_still tt
      ]
    where
      t' : Transaction
      t' = reported tid pid now m t p true

      m' : Mediator
      m' = stored tid pid now m t p true

      found : find tid m'.active ≡ some t'
      found = find-assign_self tid t' m.active

      voters : AllEntries (IsVoter V tid) t'.participants
      voters =
          (AllEntries-find (IsOpen V) tid t' m'.active
            (stored-IsValid V tid pid now m t p active enrolled v (voted refl)).each found).3

  on_participant_ready-IsUnanimous :
      (tid pid : ℕ) (success : Bool) (now : ℕ) (m : Mediator)
      → (success ≡ true → V tid pid)
      → IsValid V m
      → All IsUnanimous (on_participant_ready tid pid success now m).1
  unfolding on_participant_ready
  on_participant_ready-IsUnanimous tid pid success now m voted v =
      elim (Option-cases (find tid m.active)) [
        | inl e ↦ rw (e, on_participant_ready) tt
        | inr (t, active) ↦ elim (Option-cases (find pid t.participants)) [
          | inl e ↦ rw (active, on_participant_ready) (rw (e, on_participant_ready) tt)
          | inr (p, enrolled) ↦
              rw (on_participant_ready_found tid pid now m t p active enrolled success)
                (participant_ready-IsUnanimous tid pid now m t p active enrolled v success voted)
        ]
      ]

  pub step-IsUnanimous :
      (now : ℕ) (c : Call) (m : Mediator)
      → ((tid pid : ℕ) → c ≡ ready tid pid true → V tid pid)
      → IsValid V m
      → All IsUnanimous (step now c m).1
  unfolding step on_timer start_transaction
  step-IsUnanimous now (start pids timeout) m voted v = (tt, tt)
  step-IsUnanimous now (ready tid pid success) m voted v =
      on_participant_ready-IsUnanimous tid pid success now m (λ e. voted tid pid (rw e refl)) v
  step-IsUnanimous now timer m voted v =
      rollback_each-IsUnanimous (timed_out_transactions now m.active) m

-- `OnParticipantReady(tid, pid, true)` is one of the calls.
abbrev pub Voted : List (ℕ × Call) → ℕ → ℕ → Type 0
Voted [] tid pid = ⊥
Voted ((now, c) ∷ cs) tid pid = (c ≡ ready tid pid true) ⊎ Voted cs tid pid

run-IsValid :
    (V : ℕ → ℕ → Type 0) (cs : List (ℕ × Call)) (m : Mediator)
    → ((tid pid : ℕ) → Voted cs tid pid → V tid pid)
    → IsValid V m
    → IsValid V (run cs m).0
unfolding run
run-IsValid V [] m voted v = v
run-IsValid V ((now, c) ∷ cs) m voted v =
    run-IsValid V cs (step now c m).0 (λ tid pid h. voted tid pid (inr h))
      (step-IsValid V now c m (λ tid pid e. voted tid pid (inl e)) v)

Voted-append_left :
    (cs ds : List (ℕ × Call)) (tid pid : ℕ) → Voted cs tid pid → Voted (cs ++ ds) tid pid
Voted-append_left [] ds tid pid h = absurd h
Voted-append_left (c ∷ cs) ds tid pid (inl e) = inl e
Voted-append_left (c ∷ cs) ds tid pid (inr h) = inr (Voted-append_left cs ds tid pid h)

Voted-append_right :
    (cs ds : List (ℕ × Call)) (tid pid : ℕ) → Voted ds tid pid → Voted (cs ++ ds) tid pid
Voted-append_right [] ds tid pid h = h
Voted-append_right (c ∷ cs) ds tid pid h = inr (Voted-append_right cs ds tid pid h)

-- After any calls `past` of a new mediator, the next call sends a commit request only to a
-- participant that has reported success for this transaction in `past` or in the call itself, and
-- calls `OnTransactionCompleted` only for a transaction of which every participant has, and is
-- COMMITTED.
pub commit_needs_votes :
    (past : List (ℕ × Call)) (now : ℕ) (c : Call)
    → All (IsUnanimous (Voted (past ++ (now, c) ∷ []))) (step now c (run past init).0).1
commit_needs_votes past now c =
    step-IsUnanimous (Voted history) now c (run past init).0
      (λ tid pid e. Voted-append_right past ((now, c) ∷ []) tid pid (inl e))
      (run-IsValid (Voted history) past init (Voted-append_left past ((now, c) ∷ []))
        (record { unique = tt; each = tt }))
  where
    history : List (ℕ × Call)
    history = past ++ (now, c) ∷ []
