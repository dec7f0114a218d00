-- ===== src/Session/IoCount.antt =====
-- The I/O count of a session: how many I/Os, and holds of the accept thread, are outstanding.
use actor_model_server.Base.{
  ℕ, zero, suc, ◌+◌, ◌≡◌, refl, sym, ap, subst, ◌∙◌, Bool, true, false, Option, some, List, [], ◌∷◌,
  ◌++◌, map, take, min, ◌==◌, arith,
}
use actor_model_server.Base.Int.{pos, increment}
use mathlib.Core.Option.{some-injective}
use actor_model_server.NetLib.{RingOps, QueueOps, QueueLaws}
use actor_model_server.Session.{
  Session, IoMode, io_none_sending, io_sending, IoEvent, wsa_send, freed, increase_io_count,
  decrease_io_count, release_session, do_recv, do_send, post_send, send_packet,
  on_send_io_completed, before,
}
use actor_model_server.Session.SendPath.{
  dequeue_batch-Taken, do_send_busy, do_send_idle, do_send_posts,
}
use actor_model_server.Session.Ledger.{loaded, post_send_posted, post_send_failed}
use actor_model_server.Session.Logs.{sends_in, started, releases, sends_in-quiet}

module _ (ops : QueueOps) (ring : RingOps) where
  -- The states that a session comes to, each with the number of I/Os and holds outstanding. A
  -- completion is of an I/O that is outstanding; its handler counts it down.
  pub data Reached : Session ops → ℕ → Type 0 where
    begins : (s : Session ops) → s.io_count ≡ pos 0 → Reached s 0
    -- `IncreaseIOCount` of the accept thread.
    holds : (s : Session ops) (n : ℕ) → Reached s n → Reached (increase_io_count ops s) (suc n)
    -- The accept thread's hold, or a receive, ends.
    finishes : (s : Session ops) (n : ℕ) → Reached s (suc n) → Reached (decrease_io_count ops s).0 n
    receives :
        (s : Session ops) (n : ℕ) (r : ring.Ring)
        → Reached s n
        → Reached (do_recv ops ring true r s).0 (suc n)
    receive_fails :
        (s : Session ops) (n : ℕ) (r : ring.Ring)
        → Reached s n
        → Reached (do_recv ops ring false r s).0 n
    sends :
        (s : Session ops) (n b : ℕ) (posted : Bool) (s' : Session ops) (events : List IoEvent)
        (result : Bool)
        → Reached s n
        → send_packet ops (some b) posted s ≡ some (s', events, result)
        → Reached s' (n + started posted events)
    send_completes :
        (s : Session ops) (n : ℕ) (posted : Bool) (s' : Session ops) (events : List IoEvent)
        (result : Bool)
        → Reached s (suc n)
        → on_send_io_completed ops posted s ≡ some (s', events, result)
        → Reached s' (n + started posted events)

decrease_sends_none : (ops : QueueOps) (s : Session ops) → sends_in (decrease_io_count ops s).1 ≡ 0
unfolding decrease_io_count release_session
decrease_sends_none ops s = ground arith

module _ (ops : QueueOps) where
  -- Counting down an outstanding I/O releases the session exactly if it was the last one.
  pub decrease_io_count_last :
      (s : Session ops) (n : ℕ)
      → s.io_count ≡ pos (suc n)
      → ((decrease_io_count ops s).0.io_count ≡ pos n)
        × (releases (decrease_io_count ops s).1 ≡ (n == 0))
  unfolding decrease_io_count release_session
  decrease_io_count_last s zero e = rw e (refl, refl)
  decrease_io_count_last s (suc n) e = rw e (refl, ground arith)

  -- A result that leaves the count right, `n` being outstanding without it.
  record Balanced (n : ℕ) (posted : Bool) (r : Option (Session ops × List IoEvent × Bool))
      : Type 0 where
    after : Session ops
    events : List IoEvent
    result : Bool
    runs : r ≡ some (after, events, result)
    balance : after.io_count ≡ pos (n + started posted events)

  unsent :
      (n : ℕ) (posted : Bool) (s : Session ops) (r : Option (Session ops × List IoEvent × Bool))
      → s.io_count ≡ pos n
      → r ≡ some (s, [], true)
      → Balanced n posted r
  unsent n true s r e h = record {
    after = s;
    events = [];
    result = true;
    runs = h;
    balance = e ∙ ap pos (omega arith);
  }
  unsent n false s r e h = record {
    after = s;
    events = [];
    result = true;
    runs = h;
    balance = e ∙ ap pos (omega arith);
  }

  module _ (laws : QueueLaws ops) where
    post_send-Balanced :
        (n size : ℕ) (posted : Bool) (s : Session ops)
        → s.io_count ≡ pos n
        → Balanced n posted (some (post_send ops posted size (record s { io_mode = io_sending })))
    unfolding increase_io_count
    post_send-Balanced n size true s e =
        let q = laws.contents s.send_queue in
        let k = dequeue_batch-Taken ops laws (min 20 size) s.send_queue q refl in
        record {
          after = loaded ops laws (min 20 size) (take (min 20 size) q) k.left s;
          events = wsa_send (take (min 20 size) q) ∷ [];
          result = true;
          runs = ap some (post_send_posted ops laws s size (take (min 20 size) q) k.left k.taken);
          balance = ap increment e ∙ ap pos (omega arith);
        }
    post_send-Balanced n size false s e =
        let q = laws.contents s.send_queue in
        let k = dequeue_batch-Taken ops laws (min 20 size) s.send_queue q refl in
        let l = loaded ops laws (min 20 size) (take (min 20 size) q) k.left s in
        record {
          after = (decrease_io_count ops l).0;
          events = wsa_send (take (min 20 size) q) ∷ (decrease_io_count ops l).1;
          result = false;
          runs = ap some (post_send_failed ops laws s size (take (min 20 size) q) k.left k.taken);
          balance = (decrease_io_count_last l n (ap increment e)).0 ∙ ap pos (omega arith);
        }

    do_send-Balanced :
        (n : ℕ) (posted : Bool) (s : Session ops)
        → s.io_count ≡ pos n
        → Balanced n posted (do_send ops [] posted s)
    do_send-Balanced n posted s h = at s.io_mode refl (ops.get_rest_size s.send_queue) refl
      where
        at :
            (mode : IoMode)
            → s.io_mode ≡ mode
            → (size : ℕ) → ops.get_rest_size s.send_queue ≡ size
            → Balanced n posted (do_send ops [] posted s)
        at io_sending e size c = unsent n posted s _ h (do_send_busy ops laws posted s e)
        at io_none_sending e zero c = unsent n posted s _ h (do_send_idle ops laws posted s e c)
        at io_none_sending e (suc size) c =
            rw (do_send_posts ops laws posted s size e c)
              (post_send-Balanced n (suc size) posted s h)

    on_send_io_completed-Balanced :
        (n : ℕ) (posted : Bool) (s : Session ops)
        → s.io_count ≡ pos (suc n)
        → Balanced n posted (on_send_io_completed ops posted s)
    unfolding on_send_io_completed
    on_send_io_completed-Balanced n posted s e =
        let s' : Session ops = record s { buffer_count = 0; io_mode = io_none_sending } in
        let d = decrease_io_count ops s' in
        let k = do_send-Balanced n posted d.0 (decrease_io_count_last s' n e).0 in
        record {
          after = k.after;
          events = (map freed (take s.buffer_count s.send_buffer_store) ++ d.1) ++ k.events;
          result = k.result;
          runs =
              ap (before ops (map freed (take s.buffer_count s.send_buffer_store) ++ d.1)) k.runs;
          balance =
              k.balance
              ∙ ap (λ x. pos (n + x))
                  (sym (
                    sends_in-quiet posted (take s.buffer_count s.send_buffer_store) d.1 k.events
                      (decrease_sends_none ops s')));
        }

    Balanced-counts :
        (n : ℕ) (posted result : Bool) (s' : Session ops) (events : List IoEvent)
        (r : Option (Session ops × List IoEvent × Bool))
        → Balanced n posted r
        → r ≡ some (s', events, result)
        → s'.io_count ≡ pos (n + started posted events)
    Balanced-counts n posted result s' events r k e =
        let same = some-injective _ _ (sym k.runs ∙ e) in
        subst
          (λ (x : Session ops × List IoEvent × Bool). x.0.io_count ≡ pos (n + started posted x.1))
          same k.balance

module _ (ops : QueueOps) (laws : QueueLaws ops) (ring : RingOps) where
  -- In every state that a session comes to, under any order of holds, receives, sends and
  -- completions and whatever `WSARecv` and `WSASend` answer, the I/O count is the number of
  -- outstanding I/Os and holds.
  pub Reached-count : (s : Session ops) (n : ℕ) → Reached ops ring s n → s.io_count ≡ pos n
  unfolding do_recv increase_io_count send_packet
  Reached-count s n (begins _ e) = e
  Reached-count _ _ (holds s n h) = ap increment (Reached-count s n h)
  Reached-count _ _ (finishes s n h) =
      (decrease_io_count_last ops s n (Reached-count s (suc n) h)).0
  Reached-count _ _ (receives s n r h) = ap increment (Reached-count s n h)
  Reached-count _ _ (receive_fails s n r h) =
      (decrease_io_count_last ops (increase_io_count ops s) n
        (ap increment (Reached-count s n h))).0
  Reached-count _ _ (sends s n b posted s' events result h e) =
      Balanced-counts ops laws n posted result s' events _
        (do_send-Balanced ops laws n posted (record s { send_queue = ops.enqueue b s.send_queue })
          (Reached-count s n h))
        e
  Reached-count _ _ (send_completes s n posted s' events result h e) =
      Balanced-counts ops laws n posted result s' events _
        (on_send_io_completed-Balanced ops laws n posted s (Reached-count s (suc n) h)) e
