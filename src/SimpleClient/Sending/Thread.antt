-- ===== src/SimpleClient/Sending/Thread.antt =====
-- ActorModelServer/TestClient/SimpleClient.cpp: `RunSendThread` beside the threads that call
-- `SendPacket`.
use actor_model_server.Base.{
  ℕ, ◌-◌, ◌<◌, ◌≡◌, refl, sym, ap, subst, ◌∙◌, ◌⊎◌, inl, inr, Bool, true, false, ◌||◌, Option, none,
  some, List, [], ◌∷◌, ◌++◌, length, ltb, if◌then◌else◌, append_assoc, append-nil, arith,
  Bool-cases,
}
use actor_model_server.SimpleClient.Sending.{
  Sender, send_packet, do_send, do_send_lem, do_send_loop,
}

-- A round of the send thread; where the semaphore's count is 0, the thread waits on.
pub send_round : (ℕ → Bool) → Sender → Sender × List ℕ
send_round answers c =
    let (c', sent) = do_send answers (record c { wakeups = c.wakeups - 1 }) in
    if c.sender_need_stop then (c, []) else (if ltb 0 c.wakeups then (c', sent) else (c, []))

-- A call of `SendPacket`, or a round of the send thread with what `send` answers for each buffer.
pub data SendStep : Type 0 where
  pushes : Option ℕ → SendStep
  sends : (ℕ → Bool) → SendStep

pub run_sender : List SendStep → Sender → Sender × List ℕ
run_sender [] c = (c, [])
run_sender (pushes b ∷ steps) c = run_sender steps (send_packet b c)
run_sender (sends answers ∷ steps) c =
    let (c', sent) = send_round answers c in
    let (c'', more) = run_sender steps c' in (c'', sent ++ more)

abbrev pub pushed : List SendStep → List ℕ
pushed [] = []
pushed (pushes none ∷ steps) = pushed steps
pushed (pushes (some b) ∷ steps) = b ∷ pushed steps
pushed (sends answers ∷ steps) = pushed steps

-- The thread does not sleep over buffers: it is to stop, or it has nothing to send, or its semaphore
-- will wake it.
abbrev pub IsAwake : Sender → Type 0
IsAwake c = (c.sender_need_stop ≡ true) ⊎ ((c.send_buffer_queue ≡ []) ⊎ (0 < c.wakeups))

do_send_loop_left :
    (answers : ℕ → Bool) (queue : List ℕ)
    → ((do_send_loop answers (length queue) queue).1 ≡ [])
      ⊎ ((do_send_loop answers (length queue) queue).2 ≡ true)
unfolding do_send_loop
do_send_loop_left answers [] = inl refl
do_send_loop_left answers (b ∷ queue) = elim (Bool-cases (answers b)) [
  | inl taken ↦ rw (taken, do_send_loop) (do_send_loop_left answers queue)
  | inr refused ↦ rw (refused, do_send_loop) (inr refl)
]

or-true : (b : Bool) → (b || true) ≡ true
or-true true = refl
or-true false = refl

do_send-IsAwake : (answers : ℕ → Bool) (c : Sender) → IsAwake (do_send answers c).0
unfolding do_send
do_send-IsAwake answers c = elim (do_send_loop_left answers c.send_buffer_queue) [
  | inl empty ↦ inr (inl empty)
  | inr failed ↦ inl (ap (λ b. c.sender_need_stop || b) failed ∙ or-true c.sender_need_stop)
]

send_packet-IsAwake : (b : Option ℕ) (c : Sender) → IsAwake c → IsAwake (send_packet b c)
unfolding send_packet
send_packet-IsAwake none c h = h
send_packet-IsAwake (some b) c h = inr (inr (omega arith))

one_of_two {ℓ} :
    {A : Type ℓ} (b d : Bool) (x y : A)
    → ((if b then x else (if d then y else x)) ≡ x) ⊎ ((if b then x else (if d then y else x)) ≡ y)
one_of_two true d x y = inl refl
one_of_two false true x y = inr refl
one_of_two false false x y = inl refl

send_round-cases :
    (answers : ℕ → Bool) (c : Sender)
    → (send_round answers c ≡ (c, []))
      ⊎ (send_round answers c ≡ do_send answers (record c { wakeups = c.wakeups - 1 }))
unfolding send_round
send_round-cases answers c = one_of_two c.sender_need_stop (ltb 0 c.wakeups) (c, []) _

-- A sender with the buffers given to the socket since some moment, from those queued then.
abbrev pub Accounts : List ℕ → Sender × List ℕ → Type 0
Accounts queue r = r.1 ++ r.0.send_buffer_queue ≡ queue

send_round-step :
    (answers : ℕ → Bool) (c : Sender)
    → IsAwake c
    → IsAwake (send_round answers c).0 × Accounts c.send_buffer_queue (send_round answers c)
send_round-step answers c h = elim (send_round-cases answers c) [
  | inl waits ↦
      subst (λ (r : Sender × List ℕ). IsAwake r.0 × Accounts c.send_buffer_queue r) (sym waits)
        (h, refl)
  | inr works ↦
      let c' : Sender = record c { wakeups = c.wakeups - 1 } in
      subst (λ (r : Sender × List ℕ). IsAwake r.0 × Accounts c.send_buffer_queue r) (sym works)
        (do_send-IsAwake answers c', (do_send_lem answers c').0)
]

-- Whatever calls of `SendPacket` and rounds of the send thread come in whatever order, and whatever
-- the socket answers: the buffers given to the socket and then those in the queue are the ones that
-- were queued and then those that were pushed, in order; and the thread never sleeps over a buffer,
-- if it did not at first.
pub run_sender_lem :
    (steps : List SendStep) (c : Sender)
    → IsAwake c
    → let (c', sent) = run_sender steps c in
      (sent ++ c'.send_buffer_queue ≡ c.send_buffer_queue ++ pushed steps) × IsAwake c'
unfolding run_sender send_packet
run_sender_lem [] c h = (sym (append-nil c.send_buffer_queue), h)
run_sender_lem (pushes none ∷ steps) c h = run_sender_lem steps c h
run_sender_lem (pushes (some b) ∷ steps) c h =
    let rest = run_sender_lem steps (send_packet (some b) c) (send_packet-IsAwake (some b) c h) in
    (rest.0 ∙ append_assoc c.send_buffer_queue (b ∷ []) (pushed steps), rest.1)
run_sender_lem (sends answers ∷ steps) c h =
    let (awake, kept) = send_round-step answers c h in
    let sent = (send_round answers c).1 in
    let rest = run_sender_lem steps (send_round answers c).0 awake in
    (
      append_assoc sent _ _
          ∙ ap (◌++◌ sent) rest.0
          ∙ sym (append_assoc sent (send_round answers c).0.send_buffer_queue (pushed steps))
          ∙ ap (λ q. q ++ pushed steps) kept,
      rest.1,
    )
