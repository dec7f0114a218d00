-- ===== src/SimpleClient/Sending.antt =====
-- ActorModelServer/TestClient/SimpleClient.cpp: `SendPacket`, `DoSend` and `ConnectToServer`. Packet
-- buffers are numbers; what a socket call returns for a buffer is an argument.
pub mod Thread
mod Examples
use actor_model_server.Base.{
  ℕ, zero, suc, ◌≡◌, refl, ap, Bool, true, false, not, ◌||◌, Option, none, some, List, [], ◌∷◌,
  ◌++◌, length, if◌then◌else◌, all_of, take, Bool-cases, inl, inr,
}

pub record Sender : Type 0 where
  pub send_buffer_queue : List ℕ
  pub sender_need_stop : Bool
  -- The count of the semaphore that wakes the send thread.
  pub wakeups : ℕ

-- A null buffer is `none`. The buffer is encoded, which this model does not show.
pub send_packet : Option ℕ → Sender → Sender
send_packet none c = c
send_packet (some b) c = record c {
  send_buffer_queue = c.send_buffer_queue ++ b ∷ [];
  wakeups = suc c.wakeups;
}

-- The loop of `DoSend` with `restSize`: the buffers given to `send`, each of which is freed. Only
-- this thread takes buffers out of the queue.
pub do_send_loop : (ℕ → Bool) → ℕ → List ℕ → List ℕ × List ℕ × Bool
do_send_loop answers zero queue = ([], queue, false)
do_send_loop answers (suc rest) [] = ([], [], false)
do_send_loop answers (suc rest) (b ∷ queue) =
    let (sent, left, failed) = do_send_loop answers rest queue in
    if answers b then (b ∷ sent, left, failed) else (b ∷ [], queue, true)

pub do_send : (ℕ → Bool) → Sender → Sender × List ℕ
do_send answers c =
    let (sent, left, failed) =
      do_send_loop answers (length c.send_buffer_queue) c.send_buffer_queue in
    (record c { send_buffer_queue = left; sender_need_stop = c.sender_need_stop || failed }, sent)

abbrev pub reconnect_try_count : ℕ
reconnect_try_count = 5

-- The loop of `ConnectToServer` over what its calls of `connect` return.
pub connect_loop : ℕ → List Bool → Bool
connect_loop zero results = false
connect_loop (suc tries) [] = false
connect_loop (suc tries) (true ∷ results) = true
connect_loop (suc tries) (false ∷ results) = connect_loop tries results

pub connect_to_server : List Bool → Bool
connect_to_server results = connect_loop reconnect_try_count results

do_send_loop_lem :
    (answers : ℕ → Bool) (queue : List ℕ)
    → ((do_send_loop answers (length queue) queue).0
          ++ (do_send_loop answers (length queue) queue).1
        ≡ queue)
      × ((do_send_loop answers (length queue) queue).2 ≡ not (all_of answers queue))
unfolding do_send_loop
do_send_loop_lem answers [] = (refl, refl)
do_send_loop_lem answers (b ∷ queue) =
    let k = do_send_loop_lem answers queue in
    elim (Bool-cases (answers b)) [
      | inl taken ↦ rw (taken, do_send_loop) (ap (◌∷◌ b) k.0, k.1)
      | inr refused ↦ rw (refused, do_send_loop) (refl, refl)
    ]

-- What `DoSend` gives to the socket and then what it leaves in the queue are exactly the buffers that
-- it finds, in order. The client stops if one of the sends fails, and only then.
pub do_send_lem :
    (answers : ℕ → Bool) (c : Sender)
    → ((do_send answers c).1 ++ (do_send answers c).0.send_buffer_queue ≡ c.send_buffer_queue)
      × ((do_send answers c).0.sender_need_stop
          ≡ (c.sender_need_stop || not (all_of answers c.send_buffer_queue)))
unfolding do_send
do_send_lem answers c =
    let k = do_send_loop_lem answers c.send_buffer_queue in
    (k.0, ap (λ b. c.sender_need_stop || b) k.1)

abbrev pub any_of : List Bool → Bool
any_of [] = false
any_of (r ∷ rs) = r || any_of rs

connect_loop-any_of : (n : ℕ) (rs : List Bool) → connect_loop n rs ≡ any_of (take n rs)
unfolding connect_loop
connect_loop-any_of zero rs = refl
connect_loop-any_of (suc n) [] = refl
connect_loop-any_of (suc n) (true ∷ rs) = refl
connect_loop-any_of (suc n) (false ∷ rs) = connect_loop-any_of n rs

-- The client connects exactly if one of its first five calls of `connect` succeeds.
pub connect_to_server_lem :
    (results : List Bool) → connect_to_server results ≡ any_of (take reconnect_try_count results)
unfolding connect_to_server
connect_to_server_lem results = connect_loop-any_of reconnect_try_count results
