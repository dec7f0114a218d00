-- ===== src/ServerCore/Timers/Examples.antt =====
-- A thread of one session and one other actor, each with a message.
use actor_model_server.Base.{ℕ, ◌+◌, ◌≡◌, refl, some, none, List, [], ◌∷◌, ◌++◌}
use actor_model_server.Base.UnorderedMap.{find}
use actor_model_server.Actor.{Action}
use actor_model_server.Actor.Quiet.{IsQuiet}
use actor_model_server.ServerCore.Timers.{
  ThreadActors, ThreadStep, wakes, sends_session, sends_actor, run_rounds,
}
use actor_model_server.ServerCore.Timers.Mailboxes.{waiting_on, run_rounds_lem}

-- A message doubles the world and adds its number.
abbrev count_up : ℕ → ℕ → ℕ × List (Action ℕ)
count_up m w = (w + w + m, [])

count_up-IsQuiet : IsQuiet count_up
count_up-IsQuiet m w = refl

abbrev thread : ThreadActors ℕ ℕ
thread = record {
  sessions = (3, waiting_on [] 0) ∷ (2, waiting_on (some 5 ∷ []) 0) ∷ [];
  non_network_actors = (4, waiting_on (some 5 ∷ []) 0) ∷ [];
}

abbrev steps : List (ThreadStep ℕ)
steps =
    sends_session 2 (some 1)
    ∷ sends_actor 4 (some 6)
    ∷ wakes
    ∷ sends_session 2 none
    ∷ sends_session 3 (some 9)
    ∷ sends_session 2 (some 7)
    ∷ sends_actor 4 (some 8)
    ∷ []

run_rounds_lem_example :
    let after = run_rounds count_up (steps ++ wakes ∷ []) thread in
    (find 2 after.sessions ≡ some (waiting_on [] 29))
    × (find 4 after.non_network_actors ≡ some (waiting_on (some 5 ∷ some 6 ∷ some 8 ∷ []) 0))
unfolding find
run_rounds_lem_example =
    run_rounds_lem count_up steps thread 2 4 (some 5 ∷ []) (some 5 ∷ []) 0 0 count_up-IsQuiet refl
      refl
