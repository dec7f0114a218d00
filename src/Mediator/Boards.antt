-- ===== src/Mediator/Boards.antt =====
-- What the operations of the mediator do to its board and announce, one by one.
use mathlib.Core.Path.{fun_ext}
use actor_model_server.Base.{
  ℕ, ◌≡◌, refl, ap, ◌∙◌, false, none, some, List, [], ◌∷◌, ◌++◌, map, arith, ==_refl, all_of,
  Bool-cases, Option-cases, inl, inr,
}
use actor_model_server.Base.UnorderedMap.{
  Map, find, assign, erase, values, IsMap, find-assign, find-erase, find-contains,
}
use actor_model_server.Mediator.{
  Mediator, Transaction, Participant, Event, on_completed, on_failed, commit_request,
  rollback_request, is_prepared, commit_all, rollback_all, rollback_transaction, failed, entry_at,
  enlist, rollback_each,
}
use actor_model_server.Mediator.Lifetime.{find-nil, find-enlist}
use actor_model_server.Mediator.Ballots.{
  put, commit, abort, enroll, ballot_or_new, vote_of, ballot_of, board_of, announced,
}

-- Any relation of participants to transactions.
abbrev pub Anybody : ℕ → ℕ → Type 0
Anybody tid pid = Unit

pub announced-append : (es fs : List Event) → announced (es ++ fs) ≡ announced es ++ announced fs
announced-append [] fs = refl
announced-append (Event.on_started tid ∷ es) fs = announced-append es fs
announced-append (on_completed tid t ∷ es) fs = ap (◌∷◌ (commit tid)) (announced-append es fs)
announced-append (on_failed tid t ∷ es) fs = ap (◌∷◌ (abort tid)) (announced-append es fs)
announced-append (commit_request tid p ∷ es) fs = announced-append es fs
announced-append (rollback_request tid p ∷ es) fs = announced-append es fs

pub announced-commit_all :
    (tid : ℕ) (ps : Map Participant) (es : List Event)
    → announced ((commit_all tid ps).1 ++ es) ≡ announced es
unfolding commit_all
announced-commit_all tid [] es = refl
announced-commit_all tid ((pid, p) ∷ ps) es = announced-commit_all tid ps es

pub announced-rollback_all :
    (tid : ℕ) (ps : Map Participant) (es : List Event)
    → announced (rollback_all tid ps ++ es) ≡ announced es
unfolding rollback_all
announced-rollback_all tid [] es = refl
announced-rollback_all tid ((pid, p) ∷ ps) es = elim (Bool-cases (is_prepared p.state)) [
  | inl voted ↦ rw voted (announced-rollback_all tid ps es)
  | inr waiting ↦ rw waiting (announced-rollback_all tid ps es)
]

-- A transaction that ends is off the board, and nothing else is.
pub board_of-end :
    (tid : ℕ) (m : Mediator) (t : Transaction)
    → board_of (record m { active = erase tid (assign tid t m.active) }) ≡ put tid none (board_of m)
board_of-end tid m t =
    fun_ext
      λ k. ground (arith, find-erase tid k (assign tid t m.active), find-assign tid k t m.active)

pub board_of-store :
    (tid : ℕ) (m : Mediator) (t : Transaction)
    → board_of (record m { active = assign tid t m.active })
      ≡ put tid (some (ballot_of t.participants)) (board_of m)
board_of-store tid m t = fun_ext λ k. ground (arith, find-assign tid k t m.active)

pub put-put {ℓ} : {X : Type ℓ} (k : ℕ) (x y : X) (f : ℕ → X) → put k x (put k y f) ≡ put k x f
put-put k x y f = fun_ext λ j. ground arith

-- Somebody has not voted, where not all have.
pub missing_vote :
    (ps : Map Participant)
    → IsMap ps
    → all_of (λ p. is_prepared p.state) (values ps) ≡ false
    → (j : ℕ) × (ballot_of ps j ≡ some false)
unfolding find
missing_vote [] u h = absurd (ground arith)
missing_vote ((pid, p) ∷ ps) u h = elim (Bool-cases (is_prepared p.state)) [
  | inr waits ↦ (pid, ground (arith, ==_refl pid))
  | inl voted ↦
      let (j, e) = missing_vote ps u.1 (ground arith) in
      elim (Option-cases (find j ps)) [
        | inl absent ↦ absurd (ground arith)
        | inr (q, found) ↦ (j, ground (arith, find-contains j q ps found))
      ]
]

pub ballot_of-assign :
    (pid : ℕ) (p : Participant) (ps : Map Participant)
    → ballot_of (assign pid p ps) ≡ put pid (some (is_prepared p.state)) (ballot_of ps)
ballot_of-assign pid p ps = fun_ext λ j. ground (arith, find-assign pid j p ps)

pub ballot_of-entry_at :
    (tid : ℕ) (m : Mediator)
    → ballot_of (entry_at tid m.active).participants ≡ ballot_or_new (board_of m tid)
unfolding entry_at
ballot_of-entry_at tid m = elim (Option-cases (find tid m.active)) [
  | inl closed ↦ rw (closed, entry_at) (fun_ext λ j. ap vote_of (find-nil j))
  | inr (t, active) ↦ rw (active, entry_at) refl
]

pub ballot_of-enlist :
    (pids : List ℕ) (ps : Map Participant) → ballot_of (enlist pids ps) ≡ enroll pids (ballot_of ps)
ballot_of-enlist pids ps = fun_ext λ j. ground (arith, find-enlist j pids ps)

pub announced-rollback_each :
    (tids : List ℕ) (m : Mediator) → announced (rollback_each tids m).1 ≡ map abort tids
unfolding rollback_each rollback_transaction
announced-rollback_each [] m = refl
announced-rollback_each (tid ∷ tids) m =
    announced-append (rollback_transaction tid m).1
      (rollback_each tids (rollback_transaction tid m).0).1
    ∙ (λ i.
        announced-rollback_all tid (entry_at tid m.active).participants
          (on_failed tid (record (entry_at tid m.active) { state = failed }) ∷ []) i
        ++ announced-rollback_each tids (rollback_transaction tid m).0 i)
