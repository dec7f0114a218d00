-- ===== src/SimpleClient/Sending/Examples.antt =====
-- The send thread on three buffers, of which the socket refuses the last.
use actor_model_server.Base.{
  ◌≡◌, refl, none, some, List, [], ◌∷◌, ◌++◌, inl, inr, true, false, not, ◌==◌,
}
use actor_model_server.SimpleClient.Sending.{Sender}
use actor_model_server.SimpleClient.Sending.Thread.{
  SendStep, pushes, sends, run_sender, IsAwake, run_sender_lem,
}

abbrev idle : Sender
idle = record { send_buffer_queue = []; sender_need_stop = false; wakeups = 0 }

abbrev steps : List SendStep
steps =
    sends (λ b. true)
    ∷ pushes (some 7)
    ∷ pushes none
    ∷ pushes (some 8)
    ∷ sends (λ b. true)
    ∷ sends (λ b. true)
    ∷ pushes (some 9)
    ∷ sends (λ b. not (b == 9))
    ∷ []

run_sender_lem_example :
    ((run_sender steps idle).1 ++ (run_sender steps idle).0.send_buffer_queue ≡ 7 ∷ 8 ∷ 9 ∷ [])
    × IsAwake (run_sender steps idle).0
run_sender_lem_example = run_sender_lem steps idle (inr (inl refl))
