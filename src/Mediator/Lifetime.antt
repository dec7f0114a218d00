-- ===== src/Mediator/Lifetime.antt =====
-- The two ends of a transaction's life that no report brings about: `StartTransaction` and the
-- timeout of `OnTimer`.
use actor_model_server.Base.{
  ℕ, ◌≡◌, refl, ap, ◌∙◌, false, none, some, List, [], ◌∷◌, arith, ◌==◌, if◌then◌else◌,
}
use actor_model_server.Base.UnorderedMap.{
  member, Map, find, contains, assign, IsMap, find-assign, find-assign_self, find-erase,
  contains-find,
}
use actor_model_server.Mediator.{
  Mediator, Transaction, Participant, waiting, pending, new_participant, new_transaction, failed,
  enlist, entry_at, start_transaction, timed_out, rollback_transaction, rollback_each, on_timer,
  timed_out_transactions, generate_transaction_id,
}
use actor_model_server.Mediator.Count.{outcomes, is_expired, outcomes-on_timer}

entry_at-absent :
    (tid : ℕ) (m : Map Transaction) → find tid m ≡ none → entry_at tid m ≡ new_transaction
unfolding entry_at
entry_at-absent tid m e = rw (e, entry_at)

pub find-nil {ℓ} : {V : Type ℓ} (k : ℕ) → find k (let m : Map V = [] in m) ≡ none
unfolding find
find-nil k = refl

pub find-enlist :
    (pid : ℕ) (pids : List ℕ) (ps : Map Participant)
    → find pid (enlist pids ps)
      ≡ (if member pid pids then some (new_participant pid) else find pid ps)
unfolding enlist
find-enlist pid [] ps = refl
find-enlist pid (j ∷ js) ps = ground (
  arith,
  find-enlist pid js (assign j (new_participant j) ps),
  find-assign j pid (new_participant j) ps,
)

-- A new transaction, under an id that is not in use, is PENDING with exactly the listed
-- participants, each once and WAITING, whatever the list repeats; it carries the time and the
-- timeout of the call, and no other transaction changes.
pub start_transaction_enrolls :
    (pids : List ℕ) (timeout now : ℕ) (m : Mediator)
    → contains (generate_transaction_id m.generator) m.active ≡ false
    → let m' = (start_transaction pids timeout now m).0 in
      (t : Transaction) × (find m'.generator m'.active ≡ some t)
      × (t.state ≡ pending)
      × (t.start_time ≡ now)
      × (t.timeout ≡ timeout)
      × ((pid : ℕ)
          → find pid t.participants ≡ (
              if member pid pids
              then some (record { id = pid; state = waiting; last_update = 0 })
              else none))
      × ((k : ℕ) → find k m'.active ≡ (if m'.generator == k then some t else find k m.active))
unfolding start_transaction
start_transaction_enrolls pids timeout now m fresh =
    rw (entry_at-absent _ m.active (contains-find _ m.active fresh)) (
      t,
      find-assign_self tid t m.active,
      refl,
      refl,
      refl,
      enrolled,
      λ k. find-assign tid k t m.active,
    )
  where
    tid : ℕ
    tid = generate_transaction_id m.generator

    t : Transaction
    t = record new_transaction {
      id = tid;
      start_time = now;
      timeout = timeout;
      participants = enlist pids [];
    }

    enrolled :
        (pid : ℕ)
        → find pid t.participants ≡ (if member pid pids then some (new_participant pid) else none)
    enrolled pid =
        find-enlist pid pids []
        ∙ ap (λ o. if member pid pids then some (new_participant pid) else o) (find-nil pid)

pub find-rollback_each :
    (tid : ℕ) (ks : List ℕ) (m : Mediator)
    → find tid (rollback_each ks m).0.active ≡ (if member tid ks then none else find tid m.active)
unfolding rollback_each rollback_transaction
find-rollback_each tid [] m = refl
find-rollback_each tid (k ∷ ks) m = ground (
  arith,
  find-rollback_each tid ks (rollback_transaction k m).0,
  find-erase k tid (assign k (record (entry_at k m.active) { state = failed }) m.active),
  find-assign k tid (record (entry_at k m.active) { state = failed }) m.active,
)

pub member-timed_out_absent :
    (tid now : ℕ) (m : Map Transaction)
    → contains tid m ≡ false
    → member tid (timed_out_transactions now m) ≡ false
unfolding timed_out_transactions contains
member-timed_out_absent tid now [] h = refl
member-timed_out_absent tid now ((k, t) ∷ m) h = ground (arith, member-timed_out_absent tid now m)

pub member-timed_out :
    (tid now : ℕ) (m : Map Transaction)
    → IsMap m
    → member tid (timed_out_transactions now m) ≡ is_expired now (find tid m)
unfolding timed_out_transactions timed_out find
member-timed_out tid now [] u = refl
member-timed_out tid now ((k, t) ∷ m) u =
    ground (arith, member-timed_out tid now m u.1, member-timed_out_absent tid now m)

-- One `OnTimer` ends exactly the transactions whose age is above their timeout: each of those is
-- gone and its end was announced once, and every other transaction is as it was, unannounced.
pub on_timer_expires :
    (now : ℕ) (m : Mediator) (tid : ℕ)
    → IsMap m.active
    → let expired = is_expired now (find tid m.active) in
      (find tid (on_timer now m).0.active ≡ (if expired then none else find tid m.active))
      × (outcomes tid (on_timer now m).1 ≡ (if expired then 1 else 0))
unfolding on_timer
on_timer_expires now m tid u = (
  find-rollback_each tid (timed_out_transactions now m.active) m
      ∙ ap (λ b. if b then none else find tid m.active) (member-timed_out tid now m.active u),
  outcomes-on_timer tid now m u,
)
