-- ===== src/Mediator/Outcome.antt =====
-- What one report of a participant does (`OnParticipantReady`), on each branch.
use actor_model_server.Base.{
  ℕ, ◌≡◌, ◌≢◌, refl, Bool, true, false, none, some, List, [], ◌∷◌, ◌++◌, map, arith, if◌then◌else◌,
  Bool-cases, inl, inr,
}
use actor_model_server.Base.UnorderedMap.{
  Map, find, assign, erase, values, IsMap, find-assign, find-assign_self, find-erase_self,
  assign-IsMap,
}
use actor_model_server.Base.UnorderedMap.Entries.{all_of-find, all_of_lookup}
use actor_model_server.Mediator.{
  Mediator, Transaction, Participant, on_completed, on_failed, commit_request, rollback_request,
  prepared, refused, completed, failed, is_prepared, entry_at, commit_all, rollback_all,
  commit_transaction, rollback_transaction, all_participants_prepared, participant_ready,
  on_participant_ready,
}

-- The participants that are PREPARED, in the map's order.
abbrev pub prepared_only : List Participant → List Participant
prepared_only [] = []
prepared_only (p ∷ ps) = if is_prepared p.state then p ∷ prepared_only ps else prepared_only ps

abbrev pub report : Participant → Bool → ℕ → Participant
report p success now = record p { last_update = now; state = if success then prepared else refused }

pub commit_all-requests :
    (tid : ℕ) (ps : Map Participant) → (commit_all tid ps).1 ≡ map (commit_request tid) (values ps)
unfolding commit_all
commit_all-requests tid [] = refl
commit_all-requests tid ((pid, p) ∷ ps) = ground (arith, commit_all-requests tid ps)

pub rollback_all-requests :
    (tid : ℕ) (ps : Map Participant)
    → rollback_all tid ps ≡ map (rollback_request tid) (prepared_only (values ps))
unfolding rollback_all
rollback_all-requests tid [] = refl
rollback_all-requests tid ((pid, p) ∷ ps) = ground (arith, rollback_all-requests tid ps)

pub entry_at-find :
    (tid : ℕ) (m : Map Transaction) {t : Transaction} → find tid m ≡ some t → entry_at tid m ≡ t
unfolding entry_at
entry_at-find tid m e = rw (e, entry_at)

module _ (tid : ℕ) (m : Mediator) (t : Transaction) (active : find tid m.active ≡ some t) where
  abbrev pub committed_entry : Transaction
  committed_entry = record t { state = completed; participants = (commit_all tid t.participants).0 }

  abbrev pub rolled_back_entry : Transaction
  rolled_back_entry = record t { state = failed }

  pub commit_transaction_found : commit_transaction tid m ≡ (
    record m { active = erase tid (assign tid committed_entry m.active) },
    map (commit_request tid) (values t.participants) ++ on_completed tid committed_entry ∷ [],
  )
  unfolding commit_transaction
  commit_transaction_found =
      rw (entry_at-find tid m.active active) (rw (commit_all-requests tid t.participants) refl)

  pub rollback_transaction_found : rollback_transaction tid m ≡ (
    record m { active = erase tid (assign tid rolled_back_entry m.active) },
    map (rollback_request tid) (prepared_only (values t.participants))
        ++ on_failed tid rolled_back_entry ∷ [],
  )
  unfolding rollback_transaction
  rollback_transaction_found =
      rw (entry_at-find tid m.active active) (rw (rollback_all-requests tid t.participants) refl)

-- The transaction once the report of one participant is in.
module _ (tid pid now : ℕ) (m : Mediator) (t : Transaction) (p : Participant) where
  abbrev pub reported : Bool → Transaction
  reported success = record t { participants = assign pid (report p success now) t.participants }

  abbrev pub stored : Bool → Mediator
  stored success = record m { active = assign tid (reported success) m.active }

  participant_ready_commit :
      all_participants_prepared (reported true) ≡ true
      → participant_ready tid pid true now m t p ≡ commit_transaction tid (stored true)
  unfolding participant_ready
  participant_ready_commit h = rw h

  participant_ready_wait :
      all_participants_prepared (reported true) ≡ false
      → participant_ready tid pid true now m t p ≡ (stored true, [])
  unfolding participant_ready
  participant_ready_wait h = rw h

  participant_ready_refuse :
      participant_ready tid pid false now m t p ≡ rollback_transaction tid (stored false)
  unfolding participant_ready
  participant_ready_refuse = refl

module _ (tid pid now : ℕ) (m : Mediator) (t : Transaction) (p : Participant)
    (active : find tid m.active ≡ some t) (enrolled : find pid t.participants ≡ some p) where
  pub on_participant_ready_found :
      (success : Bool)
      → on_participant_ready tid pid success now m ≡ participant_ready tid pid success now m t p
  unfolding on_participant_ready
  on_participant_ready_found success =
      rw (active, on_participant_ready) (rw (enrolled, on_participant_ready) refl)

  -- Every other participant is PREPARED already.
  abbrev pub OthersPrepared : Type 0
  OthersPrepared =
      (j : ℕ) (q : Participant)
      → find j t.participants ≡ some q
      → j ≢ pid
      → is_prepared q.state ≡ true

  unanimous :
      IsMap t.participants
      → OthersPrepared
      → all_participants_prepared (reported tid pid now m t p true) ≡ true
  unfolding all_participants_prepared
  unanimous u others =
      all_of_lookup (λ q. is_prepared q.state) (reported tid pid now m t p true).participants
        (assign-IsMap pid (report p true now) t.participants u)
        λ k q e. ground (arith, others k q, find-assign pid k (report p true now) t.participants)

  not_unanimous :
      (j : ℕ) (q : Participant)
      → find j t.participants ≡ some q
      → j ≢ pid
      → is_prepared q.state ≡ false
      → all_participants_prepared (reported tid pid now m t p true) ≡ false
  unfolding all_participants_prepared
  not_unanimous j q e ne h =
      elim (Bool-cases (all_participants_prepared (reported tid pid now m t p true))) [
        | inl all ↦ ground (
          arith,
          all_of-find (λ q. is_prepared q.state) j q (reported tid pid now m t p true).participants
              all,
          find-assign pid j (report p true now) t.participants,
        )
        | inr some_missing ↦ some_missing
      ]

  -- If every other participant of the transaction is PREPARED, a success report commits it: each
  -- participant is sent one commit request, in the map's order and with nothing else, then
  -- `OnTransactionCompleted` is called, and the transaction is gone.
  pub ready_commits :
      IsMap t.participants
      → OthersPrepared
      → let r = on_participant_ready tid pid true now m in
        let t' = reported tid pid now m t p true in
        (r.1
          ≡ map (commit_request tid) (values t'.participants)
            ++ on_completed tid
                (record t' { state = completed; participants = (commit_all tid t'.participants).0 })
              ∷ [])
        × (find tid r.0.active ≡ none)
  ready_commits u others =
      rw
        (
          on_participant_ready_found true,
          participant_ready_commit tid pid now m t p (unanimous u others),
          commit_transaction_found tid (stored tid pid now m t p true)
              (reported tid pid now m t p true)
              (find-assign_self tid (reported tid pid now m t p true) m.active),
        )
        (refl, find-erase_self tid _)

  -- While some other participant is not PREPARED, a success report sends nothing: it only makes
  -- its sender PREPARED.
  pub ready_waits :
      (j : ℕ) (q : Participant)
      → find j t.participants ≡ some q
      → j ≢ pid
      → is_prepared q.state ≡ false
      → on_participant_ready tid pid true now m ≡ (stored tid pid now m t p true, [])
  ready_waits j q e ne h = rw (
    on_participant_ready_found true,
    participant_ready_wait tid pid now m t p (not_unanimous j q e ne h),
  )

  -- A failure report rolls the transaction back, whatever the others have said: exactly the other
  -- participants that are PREPARED are sent a rollback request, `OnTransactionFailed` follows, and
  -- the transaction is gone.
  pub refusal_rolls_back :
      let r = on_participant_ready tid pid false now m in
      let t' = reported tid pid now m t p false in
      (r.1
        ≡ map (rollback_request tid) (prepared_only (values t'.participants))
          ++ on_failed tid (record t' { state = failed }) ∷ [])
      × (find tid r.0.active ≡ none)
  refusal_rolls_back =
      rw
        (
          on_participant_ready_found false,
          participant_ready_refuse tid pid now m t p,
          rollback_transaction_found tid (stored tid pid now m t p false)
              (reported tid pid now m t p false)
              (find-assign_self tid (reported tid pid now m t p false) m.active),
        )
        (refl, find-erase_self tid _)
