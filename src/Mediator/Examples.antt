-- ===== src/Mediator/Examples.antt =====
-- Runs of the coordinator at concrete inputs: a trade of participants 7 and 9, started at time 100.
use actor_model_server.Mediator.Ballots.{Run, no_board, board_of, announced}
use actor_model_server.Mediator.Refinement.{run_refines}
use actor_model_server.Base.{
  inl, inr, ◌≤◌, ℕ, ◌+◌, ◌≡◌, ◌≢◌, refl, true, false, none, some, List, [], ◌∷◌, ◌++◌, arith, All,
}
use actor_model_server.Base.UnorderedMap.{find, assign, contains}
use actor_model_server.Mediator.{
  entry_at, timed_out_transactions, timed_out, rollback_each, rollback_transaction,
  participant_ready, all_participants_prepared, Mediator, Transaction, Participant, waiting,
  prepared, pending, init, start_transaction, on_participant_ready, on_timer, is_prepared, enlist,
  generate_transaction_id,
}
use actor_model_server.Mediator.Calls.{Call, start, ready, timer, step, run}
use actor_model_server.Mediator.Validity.{IsValid}
use actor_model_server.Mediator.Unanimity.{commit_needs_votes, IsUnanimous, Voted}
use actor_model_server.Mediator.Count.{outcomes, active_count}
use actor_model_server.Mediator.Balance.{outcome_once}
use actor_model_server.Mediator.Lifetime.{on_timer_expires}

abbrev buyer : Participant
buyer = record { id = 7; state = prepared; last_update = 150 }

abbrev seller : Participant
seller = record { id = 9; state = waiting; last_update = 0 }

-- The buyer has reported success.
abbrev trade : Transaction
trade = record {
  id = 2;
  state = pending;
  participants = (7, buyer) ∷ (9, seller) ∷ [];
  start_time = 100;
  timeout = 5000;
}

abbrev trading : Mediator
trading = record { active = (2, trade) ∷ []; generator = 2 }

trade_starts :
    (start_transaction (7 ∷ 9 ∷ 7 ∷ []) 5000 100 init).0.active
    ≡ (
      2,
      record trade {
        participants = (7, record buyer { state = waiting; last_update = 0 }) ∷ (9, seller) ∷ [];
      },
    )
      ∷ []
unfolding start_transaction generate_transaction_id entry_at enlist find assign
trade_starts = refl

buyer_ready :
    (j : ℕ) (q : Participant)
    → find j trade.participants ≡ some q
    → j ≢ 9
    → is_prepared q.state ≡ true
unfolding find
buyer_ready j q e ne = ground arith

trading-IsValid : IsValid (λ _ _. Unit {0}) trading
unfolding contains
trading-IsValid = record {
  unique = (refl, tt);
  each = ((refl, refl, (refl, (refl, tt)), ((refl, inr (refl, tt)), ((refl, inl refl), tt))), tt);
}

abbrev past : List (ℕ × Call)
past = (100, start (7 ∷ 9 ∷ []) 5000) ∷ (150, ready 2 7 true) ∷ []

commit_needs_votes_example :
    All
      (IsUnanimous (Voted (past ++ (200, ready 2 9 true) ∷ [])))
      (step 200 (ready 2 9 true) (run past init).0).1
commit_needs_votes_example = commit_needs_votes past 200 (ready 2 9 true)

two_given : 2 ≤ (run (past ++ (9000, timer) ∷ []) init).0.generator
unfolding run step start_transaction generate_transaction_id enlist entry_at find assign
    on_participant_ready participant_ready all_participants_prepared on_timer timed_out_transactions
    timed_out rollback_each rollback_transaction
two_given = omega arith

outcome_once_example :
    outcomes 2 (run (past ++ (9000, timer) ∷ []) init).1
      + active_count 2 (run (past ++ (9000, timer) ∷ []) init).0
    ≡ 1
outcome_once_example =
    outcome_once (past ++ (9000, timer) ∷ []) 2 (omega arith) (omega arith) two_given

on_timer_expires_example :
    (find 2 (on_timer 5101 trading).0.active ≡ none) × (outcomes 2 (on_timer 5101 trading).1 ≡ 1)
unfolding find contains
on_timer_expires_example = on_timer_expires 5101 trading 2 (refl, tt)

-- One participant votes twice, a stranger reports, and the other votes; a second trade expires.
abbrev two_trades : List (ℕ × Call)
two_trades =
    (100, start (7 ∷ 9 ∷ []) 5000)
    ∷ (110, ready 2 7 true)
    ∷ (120, ready 2 7 true)
    ∷ (130, ready 2 8 false)
    ∷ (140, start (7 ∷ []) 10)
    ∷ (150, ready 2 9 true)
    ∷ (160, timer)
    ∷ []

run_refines_example :
    Run no_board two_trades (announced (run two_trades init).1) (board_of (run two_trades init).0)
run_refines_example = run_refines two_trades
