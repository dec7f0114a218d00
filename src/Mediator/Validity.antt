-- ===== src/Mediator/Validity.antt =====
-- What every call keeps of a mediator: an active transaction is PENDING, has its own id, and its
-- participants wait or have voted. `V tid pid` stands for what is known of a participant that is
-- PREPARED.
use actor_model_server.Base.{
  ℕ, ◌≡◌, refl, Bool, true, false, some, List, [], ◌∷◌, ◌⊎◌, inl, inr, Bool-cases, Option-cases,
}
use actor_model_server.Base.UnorderedMap.{
  Map, find, assign, erase, IsMap, assign-IsMap, erase-IsMap, assign-assign_self,
}
use actor_model_server.Base.UnorderedMap.Entries.{
  AllEntries, AllEntries-find, AllEntries-assign, AllEntries-erase_self,
}
use actor_model_server.Mediator.{
  Mediator, Transaction, Participant, waiting, prepared, pending, new_participant,
  generate_transaction_id, entry_at, enlist, start_transaction, all_participants_prepared,
  commit_transaction, rollback_transaction, participant_ready, on_participant_ready, rollback_each,
  on_timer, timed_out_transactions,
}
use actor_model_server.Mediator.Outcome.{report, reported, stored, on_participant_ready_found}
use actor_model_server.Mediator.Calls.{Call, start, ready, timer, step}

module _ (V : ℕ → ℕ → Type 0) where
  abbrev pub IsVoter : ℕ → ℕ → Participant → Type 0
  IsVoter tid pid p = (p.id ≡ pid) × ((p.state ≡ waiting) ⊎ ((p.state ≡ prepared) × V tid pid))

  abbrev pub IsOpen : ℕ → Transaction → Type 0
  IsOpen tid t =
      (t.id ≡ tid)
      × (t.state ≡ pending)
      × IsMap t.participants
      × AllEntries (IsVoter tid) t.participants

  pub record IsValid (m : Mediator) : Type 0 where
    pub unique : IsMap m.active
    pub each : AllEntries IsOpen m.active

  erase-assign-IsValid :
      (m : Mediator) (tid : ℕ) (t : Transaction)
      → IsValid m
      → IsValid (record m { active = erase tid (assign tid t m.active) })
  erase-assign-IsValid m tid t v = record {
    unique = erase-IsMap tid _ (assign-IsMap tid t m.active v.unique);
    each = AllEntries-erase_self IsOpen tid t m.active v.each;
  }

  commit_transaction-IsValid :
      (tid : ℕ) (m : Mediator) → IsValid m → IsValid (commit_transaction tid m).0
  unfolding commit_transaction
  commit_transaction-IsValid tid m v = erase-assign-IsValid m tid _ v

  rollback_transaction-IsValid :
      (tid : ℕ) (m : Mediator) → IsValid m → IsValid (rollback_transaction tid m).0
  unfolding rollback_transaction
  rollback_transaction-IsValid tid m v = erase-assign-IsValid m tid _ v

  -- The entry may hold anything when it is rolled back.
  rollback_transaction_stored-IsValid :
      (tid : ℕ) (t : Transaction) (m : Mediator)
      → IsValid m
      → IsValid (rollback_transaction tid (record m { active = assign tid t m.active })).0
  unfolding rollback_transaction
  rollback_transaction_stored-IsValid tid t m v = record {
    unique = erase-IsMap tid _ (assign-IsMap tid _ _ (assign-IsMap tid t m.active v.unique));
    each =
        rw (assign-assign_self tid _ t m.active)
          (AllEntries-erase_self IsOpen tid _ m.active v.each);
  }

  rollback_each-IsValid :
      (tids : List ℕ) (m : Mediator) → IsValid m → IsValid (rollback_each tids m).0
  unfolding rollback_each
  rollback_each-IsValid [] m v = v
  rollback_each-IsValid (tid ∷ tids) m v =
      rollback_each-IsValid tids (rollback_transaction tid m).0
        (rollback_transaction-IsValid tid m v)

  enlist-IsMap : (pids : List ℕ) (ps : Map Participant) → IsMap ps → IsMap (enlist pids ps)
  unfolding enlist
  enlist-IsMap [] ps u = u
  enlist-IsMap (pid ∷ pids) ps u = enlist-IsMap pids _ (assign-IsMap pid (new_participant pid) ps u)

  enlist-IsVoter :
      (tid : ℕ) (pids : List ℕ) (ps : Map Participant)
      → AllEntries (IsVoter tid) ps
      → AllEntries (IsVoter tid) (enlist pids ps)
  unfolding enlist
  enlist-IsVoter tid [] ps h = h
  enlist-IsVoter tid (pid ∷ pids) ps h =
      enlist-IsVoter tid pids _
        (AllEntries-assign (IsVoter tid) pid (new_participant pid) ps (refl, inl refl) h)

  -- A reused entry keeps its participants.
  entry_at-open :
      (tid : ℕ) (m : Map Transaction)
      → AllEntries IsOpen m
      → ((entry_at tid m).state ≡ pending)
        × IsMap (entry_at tid m).participants
        × AllEntries (IsVoter tid) (entry_at tid m).participants
  unfolding entry_at
  entry_at-open tid m h = elim (Option-cases (find tid m)) [
    | inl e ↦ rw (e, entry_at) (refl, tt, tt)
    | inr (t, e) ↦ let o = AllEntries-find IsOpen tid t m h e in rw (e, entry_at) (o.1, o.2, o.3)
  ]

  start_transaction-IsValid :
      (pids : List ℕ) (timeout now : ℕ) (m : Mediator)
      → IsValid m
      → IsValid (start_transaction pids timeout now m).0
  unfolding start_transaction
  start_transaction-IsValid pids timeout now m v = record {
    unique = assign-IsMap tid _ m.active v.unique;
    each =
        AllEntries-assign IsOpen tid _ m.active
          (
            refl,
            old.0,
            enlist-IsMap pids _ old.1,
            enlist-IsVoter tid pids (entry_at tid m.active).participants old.2,
          )
          v.each;
  }
    where
      tid : ℕ
      tid = generate_transaction_id m.generator

      old :
          ((entry_at tid m.active).state ≡ pending)
          × IsMap (entry_at tid m.active).participants
          × AllEntries (IsVoter tid) (entry_at tid m.active).participants
      old = entry_at-open tid m.active v.each

  module _ (tid pid now : ℕ) (m : Mediator) (t : Transaction) (p : Participant)
      (active : find tid m.active ≡ some t) (enrolled : find pid t.participants ≡ some p)
      (v : IsValid m) where
    pub voter : IsOpen tid t
    voter = AllEntries-find IsOpen tid t m.active v.each active

    pub stored-IsValid : V tid pid → IsValid (stored tid pid now m t p true)
    stored-IsValid voted = record {
      unique = assign-IsMap tid _ m.active v.unique;
      each =
          AllEntries-assign IsOpen tid _ m.active
            (
              voter.0,
              voter.1,
              assign-IsMap pid _ t.participants voter.2,
              AllEntries-assign (IsVoter tid) pid (report p true now) t.participants
                  (
                    (AllEntries-find (IsVoter tid) pid p t.participants voter.3 enrolled).0,
                    inr (refl, voted),
                  )
                  voter.3,
            )
            v.each;
    }

    participant_ready-IsValid :
        (success : Bool)
        → (success ≡ true → V tid pid)
        → IsValid (participant_ready tid pid success now m t p).0
    unfolding participant_ready
    participant_ready-IsValid true voted =
        elim (Bool-cases (all_participants_prepared (reported tid pid now m t p true))) [
          | inl all ↦ rw all (commit_transaction-IsValid tid _ (stored-IsValid (voted refl)))
          | inr open_still ↦ rw open_still (stored-IsValid (voted refl))
        ]
    participant_ready-IsValid false voted = rollback_transaction_stored-IsValid tid _ m v

  on_participant_ready-IsValid :
      (tid pid : ℕ) (success : Bool) (now : ℕ) (m : Mediator)
      → (success ≡ true → V tid pid)
      → IsValid m
      → IsValid (on_participant_ready tid pid success now m).0
  unfolding on_participant_ready
  on_participant_ready-IsValid tid pid success now m voted v =
      elim (Option-cases (find tid m.active)) [
        | inl e ↦ rw (e, on_participant_ready) v
        | inr (t, active) ↦ elim (Option-cases (find pid t.participants)) [
          | inl e ↦ rw (active, on_participant_ready) (rw (e, on_participant_ready) v)
          | inr (p, enrolled) ↦
              rw (on_participant_ready_found tid pid now m t p active enrolled success)
                (participant_ready-IsValid tid pid now m t p active enrolled v success voted)
        ]
      ]

  -- Every call keeps a mediator valid: transaction ids are unique, each transaction is PENDING and
  -- stands under its own id, its participants are unique and stand under theirs, and each is
  -- WAITING or is PREPARED with `V` for the two ids, any relation that a success report comes
  -- with.
  pub step-IsValid :
      (now : ℕ) (c : Call) (m : Mediator)
      → ((tid pid : ℕ) → c ≡ ready tid pid true → V tid pid)
      → IsValid m
      → IsValid (step now c m).0
  unfolding step on_timer
  step-IsValid now (start pids timeout) m voted v = start_transaction-IsValid pids timeout now m v
  step-IsValid now (ready tid pid success) m voted v =
      on_participant_ready-IsValid tid pid success now m (λ e. voted tid pid (rw e refl)) v
  step-IsValid now timer m voted v = rollback_each-IsValid (timed_out_transactions now m.active) m v
