-- ===== src/Mediator/Count.antt =====
-- Counting the announced ends of a transaction, and its being active.
use actor_model_server.Base.{
  ℕ, ◌+◌, ◌-◌, ◌≡◌, refl, ap, ◌∙◌, Bool, false, Option, none, some, List, [], ◌∷◌, ◌++◌, arith,
  ◌==◌, ltb, if◌then◌else◌, inl, inr, Option-cases,
}
use actor_model_server.Base.UnorderedMap.{
  Map, find, contains, IsMap, contains-assign, contains-erase,
}
use actor_model_server.Mediator.{
  Mediator, Transaction, Participant, Event, on_completed, on_failed, commit_all, timed_out,
  rollback_transaction, rollback_all, commit_transaction, rollback_each, timed_out_transactions,
  on_timer, entry_at,
}

abbrev pub one_if : Bool → ℕ
one_if b = if b then 1 else 0

-- How often a transaction's end is announced.
unfoldable pub outcomes : ℕ → List Event → ℕ
outcomes tid [] = 0
outcomes tid (on_completed k t ∷ es) = one_if (k == tid) + outcomes tid es
outcomes tid (on_failed k t ∷ es) = one_if (k == tid) + outcomes tid es
outcomes tid (_ ∷ es) = outcomes tid es

pub outcomes-append :
    (tid : ℕ) (xs ys : List Event) → outcomes tid (xs ++ ys) ≡ outcomes tid xs + outcomes tid ys
unfolding outcomes
outcomes-append tid [] ys = omega arith
outcomes-append tid (on_completed k t ∷ xs) ys = omega (arith, outcomes-append tid xs ys)
outcomes-append tid (on_failed k t ∷ xs) ys = omega (arith, outcomes-append tid xs ys)
outcomes-append tid (_ ∷ xs) ys = outcomes-append tid xs ys

abbrev pub active_count : ℕ → Mediator → ℕ
active_count tid m = one_if (contains tid m.active)

pub outcomes-commit_all : (tid k : ℕ) (ps : Map Participant) → outcomes tid (commit_all k ps).1 ≡ 0
unfolding outcomes commit_all
outcomes-commit_all tid k [] = refl
outcomes-commit_all tid k ((pid, p) ∷ ps) = outcomes-commit_all tid k ps

pub outcomes-rollback_all :
    (tid k : ℕ) (ps : Map Participant) → outcomes tid (rollback_all k ps) ≡ 0
unfolding outcomes rollback_all
outcomes-rollback_all tid k [] = refl
outcomes-rollback_all tid k ((pid, p) ∷ ps) = ground (arith, outcomes-rollback_all tid k ps)

pub outcomes-commit_transaction :
    (tid k : ℕ) (m : Mediator) → outcomes tid (commit_transaction k m).1 ≡ one_if (k == tid)
unfolding commit_transaction outcomes
outcomes-commit_transaction tid k m =
    let ps = (entry_at k m.active).participants in
    omega (
      arith,
      outcomes-append tid (commit_all k ps).1 (on_completed k _ ∷ []),
      outcomes-commit_all tid k ps,
    )

pub outcomes-rollback_transaction :
    (tid k : ℕ) (m : Mediator) → outcomes tid (rollback_transaction k m).1 ≡ one_if (k == tid)
unfolding rollback_transaction outcomes
outcomes-rollback_transaction tid k m =
    let ps = (entry_at k m.active).participants in
    omega (
      arith,
      outcomes-append tid (rollback_all k ps) (on_failed k _ ∷ []),
      outcomes-rollback_all tid k ps,
    )

pub active_count-commit_transaction :
    (tid k : ℕ) (m : Mediator)
    → active_count tid (commit_transaction k m).0 ≡ (if k == tid then 0 else active_count tid m)
unfolding commit_transaction
active_count-commit_transaction tid k m = simp (contains-erase, contains-assign) (ground arith)

pub active_count-rollback_transaction :
    (tid k : ℕ) (m : Mediator)
    → active_count tid (rollback_transaction k m).0 ≡ (if k == tid then 0 else active_count tid m)
unfolding rollback_transaction
active_count-rollback_transaction tid k m = simp (contains-erase, contains-assign) (ground arith)

-- How often an id stands in a list.
pub times : ℕ → List ℕ → ℕ
times tid [] = 0
times tid (k ∷ ks) = one_if (k == tid) + times tid ks

pub outcomes-rollback_each :
    (tid : ℕ) (ks : List ℕ) (m : Mediator)
    → (outcomes tid (rollback_each ks m).1 ≡ times tid ks)
      × (active_count tid (rollback_each ks m).0
          ≡ (if ltb 0 (times tid ks) then 0 else active_count tid m))
unfolding rollback_each times outcomes
outcomes-rollback_each tid [] m = (refl, refl)
outcomes-rollback_each tid (k ∷ ks) m =
    let m' = (rollback_transaction k m).0 in
    ground (
      arith,
      outcomes-append tid (rollback_transaction k m).1 (rollback_each ks m').1,
      outcomes-rollback_transaction tid k m,
      active_count-rollback_transaction tid k m,
      outcomes-rollback_each tid ks m',
    )

pub times-timed_out_absent :
    (tid now : ℕ) (m : Map Transaction)
    → contains tid m ≡ false
    → times tid (timed_out_transactions now m) ≡ 0
unfolding timed_out_transactions times contains
times-timed_out_absent tid now [] h = refl
times-timed_out_absent tid now ((k, t) ∷ m) h = ground (arith, times-timed_out_absent tid now m)

-- The age of an active transaction is above its timeout.
abbrev pub is_expired : ℕ → Option Transaction → Bool
is_expired now none = false
is_expired now (some t) = ltb t.timeout (now - t.start_time)

abbrev pub expired_count : ℕ → Option Transaction → ℕ
expired_count now none = 0
expired_count now (some t) = one_if (timed_out now t)

pub times-timed_out :
    (tid now : ℕ) (m : Map Transaction)
    → IsMap m
    → times tid (timed_out_transactions now m) ≡ expired_count now (find tid m)
unfolding timed_out_transactions times find
times-timed_out tid now [] u = refl
times-timed_out tid now ((k, t) ∷ m) u =
    ground (arith, times-timed_out tid now m u.1, times-timed_out_absent tid now m)

pub outcomes-on_timer :
    (tid now : ℕ) (m : Mediator)
    → IsMap m.active
    → outcomes tid (on_timer now m).1 ≡ (if is_expired now (find tid m.active) then 1 else 0)
unfolding on_timer timed_out
outcomes-on_timer tid now m u = elim (Option-cases (find tid m.active)) [
  | inl e ↦ rw e (
      (outcomes-rollback_each tid (timed_out_transactions now m.active) m).0
      ∙ times-timed_out tid now m.active u
      ∙ ap (expired_count now) e)
  | inr (t, e) ↦ rw e (
      (outcomes-rollback_each tid (timed_out_transactions now m.active) m).0
      ∙ times-timed_out tid now m.active u
      ∙ ap (expired_count now) e)
]
