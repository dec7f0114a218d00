-- ===== src/Session/SendPath.antt =====
-- `DoSend` when no other thread comes between its steps: one send at a time, of at most 20 buffers,
-- and none while the queue is empty.
use actor_model_server.Base.{
  ℕ, zero, suc, ◌≡◌, refl, Bool, true, some, List, [], ◌∷◌, map, take, drop, length, arith,
}
use actor_model_server.NetLib.{QueueOps, QueueLaws}
use actor_model_server.Session.{
  Session, io_none_sending, io_sending, freed, dequeue_batch, enqueue_all, post_send, do_send_loop,
  do_send, drain,
}

module _ (ops : QueueOps) (laws : QueueLaws ops) where
  open ops use {Queue, enqueue, dequeue, get_rest_size}
  open laws use {contents}

  pub record Taken (n : ℕ) (q : Queue) (bs : List ℕ) : Type 0 where
    pub left : Queue
    pub taken : dequeue_batch ops n q ≡ (take n bs, left)
    pub remains : contents left ≡ drop n bs

  pub dequeue_batch-Taken : (n : ℕ) (q : Queue) (bs : List ℕ) → contents q ≡ bs → Taken n q bs
  unfolding dequeue_batch
  dequeue_batch-Taken zero q bs e = record { left = q; taken = refl; remains = e }
  dequeue_batch-Taken (suc n) q [] e = record {
    left = q;
    taken = rw (laws.dequeue-nil q e, dequeue_batch);
    remains = e;
  }
  dequeue_batch-Taken (suc n) q (b ∷ bs) e =
      let (q', out, rest) = laws.dequeue-cons q b bs e in
      let k = dequeue_batch-Taken n q' bs rest in
      record {
        left = k.left;
        taken = rw (out, dequeue_batch) (rw k.taken refl);
        remains = k.remains;
      }

  pub record Drained (n : ℕ) (q : Queue) (bs : List ℕ) : Type 0 where
    pub left : Queue
    pub frees : drain ops n q ≡ (left, map freed bs)
    pub empty : contents left ≡ []

  pub drain-Drained :
      (n : ℕ) (q : Queue) (bs : List ℕ) → contents q ≡ bs → n ≡ length bs → Drained n q bs
  unfolding drain
  drain-Drained zero q [] e n = record { left = q; frees = refl; empty = e }
  drain-Drained (suc k) q [] e n = absurd (omega arith)
  drain-Drained zero q (b ∷ bs) e n = absurd (omega arith)
  drain-Drained (suc k) q (b ∷ bs) e n =
      let (q', out, rest) = laws.dequeue-cons q b bs e in
      let d = drain-Drained k q' bs rest (omega arith) in
      record { left = d.left; frees = rw (out, drain) (rw d.frees refl); empty = d.empty }

  -- While a send is posted, `DoSend` does nothing.
  pub do_send_busy :
      (posted : Bool) (s : Session ops)
      → s.io_mode ≡ io_sending
      → do_send ops [] posted s ≡ some (s, [], true)
  unfolding do_send do_send_loop
  do_send_busy posted s h = ground arith

  -- On an empty queue it gives the mode back, after a second round.
  pub do_send_idle :
      (posted : Bool) (s : Session ops)
      → s.io_mode ≡ io_none_sending
      → get_rest_size s.send_queue ≡ 0
      → do_send ops [] posted s ≡ some (s, [], true)
  unfolding do_send do_send_loop enqueue_all
  do_send_idle posted s h e = ground arith

  pub do_send_posts :
      (posted : Bool) (s : Session ops) (n : ℕ)
      → s.io_mode ≡ io_none_sending
      → get_rest_size s.send_queue ≡ suc n
      → do_send ops [] posted s
        ≡ some (post_send ops posted (suc n) (record s { io_mode = io_sending }))
  unfolding do_send do_send_loop
  do_send_posts posted s n h e = ground arith
