-- ===== src/Session/Ledger.antt =====
-- The books of a session's packet buffers, and that each operation keeps them.
use actor_model_server.Base.{
  ℕ, zero, suc, ◌+◌, ◌≤◌, ◌≡◌, refl, sym, ap, ◌∙◌, Bool, true, false, Option, some, List, [], ◌∷◌,
  ◌++◌, take, drop, length, min, arith, length-take, take_exact, take-append-drop, append_assoc,
  append-nil,
}
use actor_model_server.NetLib.{QueueOps, QueueLaws}
use actor_model_server.Session.{
  dequeue_batch, Session, IoMode, io_none_sending, io_sending, IoEvent, wsa_send, decrease_io_count,
  increase_io_count, release_session, post_send, do_send, send_packet,
}
use actor_model_server.Session.SendPath.{
  dequeue_batch-Taken, do_send_busy, do_send_idle, do_send_posts,
}
use actor_model_server.Session.Logs.{sent_of, freed_of}

module _ (ops : QueueOps) (laws : QueueLaws ops) where
  open ops use {Queue, enqueue, get_rest_size}
  open laws use {contents}

  -- The books of a session that was given some buffers, has sent some and freed some.
  pub record Ledger (given sent gone : List ℕ) (s : Session ops) : Type 0 where
    pub queued : sent ++ contents s.send_queue ≡ given
    pub in_flight : gone ++ take s.buffer_count s.send_buffer_store ≡ sent
    pub at_rest : s.io_mode ≡ io_none_sending → s.buffer_count ≡ 0
    pub unread : s.recv_stored_queue ≡ []

  pub record Next (given sent gone : List ℕ) (r : Option (Session ops × List IoEvent × Bool))
      : Type 0 where
    pub after : Session ops
    pub events : List IoEvent
    pub result : Bool
    pub runs : r ≡ some (after, events, result)
    pub books : Ledger given (sent ++ sent_of events) (gone ++ freed_of events) after

  quiet :
      (given sent gone : List ℕ) (s : Session ops) (r : Option (Session ops × List IoEvent × Bool))
      → Ledger given sent gone s
      → r ≡ some (s, [], true)
      → Next given sent gone r
  quiet given sent gone s r h e = record {
    after = s;
    events = [];
    result = true;
    runs = e;
    books = rw (append-nil sent, append-nil gone) h;
  }

  pub record Aside (s : Session ops) (r : Session ops × List IoEvent) : Type 0 where
    pub unsent : sent_of r.1 ≡ []
    pub unfreed : freed_of r.1 ≡ []
    pub same_queue : r.0.send_queue ≡ s.send_queue
    pub same_store : r.0.send_buffer_store ≡ s.send_buffer_store
    pub same_count : r.0.buffer_count ≡ s.buffer_count
    pub same_io : r.0.io_mode ≡ s.io_mode
    pub same_unread : r.0.recv_stored_queue ≡ s.recv_stored_queue

  -- The I/O count does not touch the buffers, even where it releases the session.
  pub decrease_io_count-Aside : (s : Session ops) → Aside s (decrease_io_count ops s)
  unfolding decrease_io_count release_session
  decrease_io_count-Aside s = record {
    unsent = ground arith;
    unfreed = ground arith;
    same_queue = ground arith;
    same_store = ground arith;
    same_count = ground arith;
    same_io = ground arith;
    same_unread = ground arith;
  }

  pub Ledger-Aside :
      (given sent gone : List ℕ) (s : Session ops) (r : Session ops × List IoEvent)
      → Aside s r
      → Ledger given sent gone s
      → Ledger given sent gone r.0
  Ledger-Aside given sent gone s r a h = record {
    queued = rw a.same_queue h.queued;
    in_flight = rw (a.same_count, a.same_store) h.in_flight;
    at_rest = λ e. a.same_count ∙ h.at_rest (sym a.same_io ∙ e);
    unread = a.same_unread ∙ h.unread;
  }

  abbrev pub loaded : ℕ → List ℕ → Queue → Session ops → Session ops
  loaded n batch left s = increase_io_count ops (record s {
    io_mode = io_sending;
    send_queue = left;
    send_buffer_store = batch ++ drop n s.send_buffer_store;
    buffer_count = s.buffer_count + n;
  })

  loaded_books :
      (given sent gone : List ℕ) (s : Session ops) (n : ℕ) (left : Queue)
      → Ledger given sent gone s
      → s.buffer_count ≡ 0
      → n ≤ length (contents s.send_queue)
      → contents left ≡ drop n (contents s.send_queue)
      → Ledger given
          (sent ++ (take n (contents s.send_queue) ++ []))
          (gone ++ [])
          (loaded n (take n (contents s.send_queue)) left s)
  unfolding increase_io_count
  loaded_books given sent gone s n left h z fits rest =
      let batch = take n (contents s.send_queue) in
      record {
        queued =
            rw (append-nil batch, rest)
              (append_assoc sent batch _
                ∙ ap (◌++◌ sent) (take-append-drop n (contents s.send_queue))
                ∙ h.queued);
        in_flight =
            ap (λ (k : ℕ). (gone ++ []) ++ take k (batch ++ drop n s.send_buffer_store)) count
            ∙ rw (append-nil batch, append-nil gone)
                (ap (◌++◌ gone)
                    (take_exact batch _ n (omega (arith, length-take n (contents s.send_queue))))
                  ∙ ap (λ x. x ++ batch) none_in_flight);
        at_rest = λ e. ground arith;
        unread = h.unread;
      }
    where
      count : s.buffer_count + n ≡ n
      count = omega arith

      none_in_flight : gone ≡ sent
      none_in_flight =
          sym (append-nil gone)
          ∙ ap (λ (k : ℕ). gone ++ take k s.send_buffer_store) (sym z)
          ∙ h.in_flight

  pub post_send_posted :
      (s : Session ops) (n : ℕ) (batch : List ℕ) (left : Queue)
      → dequeue_batch ops (min 20 n) s.send_queue ≡ (batch, left)
      → post_send ops true n (record s { io_mode = io_sending })
        ≡ (loaded (min 20 n) batch left s, wsa_send batch ∷ [], true)
  unfolding post_send
  post_send_posted s n batch left e = rw (e, post_send) refl

  pub post_send_failed :
      (s : Session ops) (n : ℕ) (batch : List ℕ) (left : Queue)
      → dequeue_batch ops (min 20 n) s.send_queue ≡ (batch, left)
      → post_send ops false n (record s { io_mode = io_sending }) ≡ (
        (decrease_io_count ops (loaded (min 20 n) batch left s)).0,
        wsa_send batch ∷ (decrease_io_count ops (loaded (min 20 n) batch left s)).1,
        false,
      )
  unfolding post_send
  post_send_failed s n batch left e = rw (e, post_send) refl

  post_send-Next :
      (given sent gone : List ℕ) (posted : Bool) (s : Session ops) (n : ℕ)
      → Ledger given sent gone s
      → s.buffer_count ≡ 0
      → n ≤ length (contents s.send_queue)
      → Next given sent gone (some (post_send ops posted n (record s { io_mode = io_sending })))
  post_send-Next given sent gone true s n h z fits =
      let q = contents s.send_queue in
      let m = min 20 n in
      let k = dequeue_batch-Taken ops laws m s.send_queue q refl in
      let l = loaded_books given sent gone s m k.left h z (omega arith) k.remains in
      record {
        after = loaded m (take m q) k.left s;
        events = wsa_send (take m q) ∷ [];
        result = true;
        runs = ap some (post_send_posted s n (take m q) k.left k.taken);
        books = l;
      }
  post_send-Next given sent gone false s n h z fits =
      let q = contents s.send_queue in
      let m = min 20 n in
      let k = dequeue_batch-Taken ops laws m s.send_queue q refl in
      let l = loaded_books given sent gone s m k.left h z (omega arith) k.remains in
      let failed = decrease_io_count ops (loaded m (take m q) k.left s) in
      let a = decrease_io_count-Aside (loaded m (take m q) k.left s) in
      record {
        after = failed.0;
        events = wsa_send (take m q) ∷ failed.1;
        result = false;
        runs = ap some (post_send_failed s n (take m q) k.left k.taken);
        books = rw (a.unsent, a.unfreed) (Ledger-Aside _ _ _ _ _ a l);
      }

  pub do_send-Next :
      (given sent gone : List ℕ) (posted : Bool) (s : Session ops)
      → Ledger given sent gone s
      → Next given sent gone (do_send ops [] posted s)
  do_send-Next given sent gone posted s h = at s.io_mode refl (get_rest_size s.send_queue) refl
    where
      at :
          (mode : IoMode)
          → s.io_mode ≡ mode
          → (n : ℕ) → get_rest_size s.send_queue ≡ n
          → Next given sent gone (do_send ops [] posted s)
      at io_sending e n c = quiet given sent gone s _ h (do_send_busy ops laws posted s e)
      at io_none_sending e zero c = quiet given sent gone s _ h (do_send_idle ops laws posted s e c)
      at io_none_sending e (suc n) c = rw (do_send_posts ops laws posted s n e c) (
          post_send-Next given sent gone posted s (suc n) h (h.at_rest e)
            (omega (arith, c, laws.get_rest_size-contents s.send_queue)))

  pub send_packet-Next :
      (given sent gone : List ℕ) (b : ℕ) (posted : Bool) (s : Session ops)
      → Ledger given sent gone s
      → Next (given ++ b ∷ []) sent gone (send_packet ops (some b) posted s)
  unfolding send_packet
  send_packet-Next given sent gone b posted s h =
      do_send-Next (given ++ b ∷ []) sent gone posted
        (record s { send_queue = enqueue b s.send_queue })
        (record {
          queued =
              rw (laws.contents-enqueue b s.send_queue)
                (sym (append_assoc sent _ _) ∙ ap (λ x. x ++ b ∷ []) h.queued);
          in_flight = h.in_flight;
          at_rest = h.at_rest;
          unread = h.unread;
        })

  pub freed_books :
      (given sent gone : List ℕ) (s : Session ops)
      → Ledger given sent gone s
      → Ledger given sent
          (gone ++ take s.buffer_count s.send_buffer_store)
          (record s { buffer_count = 0; io_mode = io_none_sending })
  freed_books given sent gone s h = record {
    queued = h.queued;
    in_flight = append-nil _ ∙ h.in_flight;
    at_rest = λ e. refl;
    unread = h.unread;
  }
