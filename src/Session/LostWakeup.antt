-- ===== src/Session/LostWakeup.antt =====
-- `DoSend` while other threads enqueue between its steps, and the release of a session by the
-- completion of its last I/O.
use actor_model_server.Base.{
  ℕ, suc, ◌≡◌, refl, sym, ap, ◌∙◌, Bool, true, false, some, List, [], ◌∷◌, ◌++◌, map, take, length,
  min, arith, append_assoc, append-nil,
}
use actor_model_server.Base.Int.{pos}
use actor_model_server.NetLib.{QueueOps, QueueLaws}
use actor_model_server.Session.{
  Session, io_none_sending, io_sending, IoEvent, freed, wsa_send, actor_destroyed, session_released,
  head_gap, tail_gaps, enqueue_all, post_send, do_send_loop, do_send, before, increase_io_count,
  decrease_io_count, release_session, on_send_io_completed,
}
use actor_model_server.Session.Ledger.{loaded, post_send_posted}
use actor_model_server.Session.SendPath.{dequeue_batch-Taken, do_send_posts}

module _ (ops : QueueOps) where
  open ops use {Queue, get_rest_size}

  -- The session when a round of `DoSend` has found an empty queue: others have enqueued since.
  abbrev pub second : List (List ℕ) → Session ops → Session ops
  second gaps s = record s {
    io_mode = io_sending;
    send_queue = enqueue_all ops (head_gap ops gaps) s.send_queue;
  }

  -- The session that gives the mode back in its second round.
  abbrev pub given_up : List (List ℕ) → Session ops → Session ops
  given_up gaps s = record (second gaps s) {
    io_mode = io_none_sending;
    send_queue = enqueue_all ops (head_gap ops (tail_gaps ops gaps)) (second gaps s).send_queue;
  }

  do_send_once :
      (gaps : List (List ℕ)) (posted : Bool) (s : Session ops)
      → s.io_mode ≡ io_none_sending
      → get_rest_size s.send_queue ≡ 0
      → get_rest_size (second gaps s).send_queue ≡ 0
      → do_send ops gaps posted s ≡ some (given_up gaps s, [], true)
  unfolding do_send do_send_loop
  do_send_once gaps posted s m e e' = ground arith

  do_send_twice :
      (gaps : List (List ℕ)) (posted : Bool) (s : Session ops) (n : ℕ)
      → s.io_mode ≡ io_none_sending
      → get_rest_size s.send_queue ≡ 0
      → get_rest_size (second gaps s).send_queue ≡ suc n
      → do_send ops gaps posted s ≡ some (post_send ops posted (suc n) (second gaps s))
  unfolding do_send do_send_loop
  do_send_twice gaps posted s n m e e' = ground arith

module _ (ops : QueueOps) (laws : QueueLaws ops) where
  open ops use {Queue, get_rest_size}
  open laws use {contents}

  contents-enqueue_all :
      (bs : List ℕ) (q : Queue) → contents (enqueue_all ops bs q) ≡ contents q ++ bs
  unfolding enqueue_all
  contents-enqueue_all [] q = sym (append-nil _)
  contents-enqueue_all (b ∷ bs) q =
      contents-enqueue_all bs _
      ∙ ap (λ x. x ++ bs) (laws.contents-enqueue b q)
      ∙ append_assoc (contents q) (b ∷ []) bs

  -- A wake-up that is lost: with no send under way and a queue that is empty in both rounds of
  -- `DoSend`, buffers that other threads enqueue between the second look at the queue and the
  -- exchange that gives the mode back stay in the queue, with no send under way.
  pub do_send_strands :
      (late : List ℕ) (posted : Bool) (s : Session ops)
      → s.io_mode ≡ io_none_sending
      → contents s.send_queue ≡ []
      → (left : Session ops) × (do_send ops ([] ∷ late ∷ []) posted s ≡ some (left, [], true))
        × (left.io_mode ≡ io_none_sending)
        × (contents left.send_queue ≡ late)
  unfolding enqueue_all
  do_send_strands late posted s m e = (
    given_up ops ([] ∷ late ∷ []) s,
    do_send_once ops ([] ∷ late ∷ []) posted s m empty still,
    refl,
    contents-enqueue_all late _ ∙ rw e refl,
  )
    where
      empty : get_rest_size s.send_queue ≡ 0
      empty = laws.get_rest_size-contents _ ∙ rw e refl

      still : get_rest_size (second ops ([] ∷ late ∷ []) s).send_queue ≡ 0
      still = unfold enqueue_all in empty

  -- With no send under way and an empty queue, what other threads enqueue between the first look
  -- at the queue and the failed exchange is not lost: the second round finds it and posts it.
  pub do_send_meanwhile :
      (b : ℕ) (bs : List ℕ) (later : List (List ℕ)) (posted : Bool) (s : Session ops)
      → s.io_mode ≡ io_none_sending
      → contents s.send_queue ≡ []
      → (do_send ops ((b ∷ bs) ∷ later) posted s
          ≡ some (post_send ops posted (length (b ∷ bs)) (second ops ((b ∷ bs) ∷ later) s)))
        × (contents (second ops ((b ∷ bs) ∷ later) s).send_queue ≡ b ∷ bs)
  do_send_meanwhile b bs later posted s m e = (
    do_send_twice ops ((b ∷ bs) ∷ later) posted s (length bs) m
        (laws.get_rest_size-contents _ ∙ rw e refl) (laws.get_rest_size-contents _ ∙ rw came refl),
    came,
  )
    where
      came : contents (enqueue_all ops (b ∷ bs) s.send_queue) ≡ b ∷ bs
      came = contents-enqueue_all (b ∷ bs) s.send_queue ∙ rw e refl

  abbrev released : Session ops → Session ops
  released s = record s {
    buffer_count = 0;
    io_mode = io_none_sending;
    io_count = pos 0;
    is_using_session = false;
  }

  on_send_io_completed_last :
      (s : Session ops)
      → s.io_count ≡ pos 1
      → on_send_io_completed ops true s
        ≡ before ops
            (map freed (take s.buffer_count s.send_buffer_store)
              ++ (actor_destroyed ∷ session_released ∷ []))
            (do_send ops [] true (released s))
  unfolding on_send_io_completed decrease_io_count release_session
  on_send_io_completed_last s c = rw c refl

  -- A session whose last I/O is a send and in whose queue buffers wait: the completion counts the
  -- I/O down to 0 and releases the session, and only then sends what waits, so that, where that
  -- send is posted, an I/O of a released session is under way.
  pub on_send_io_completed_after_release :
      (s : Session ops) (n : ℕ)
      → s.io_count ≡ pos 1
      → get_rest_size s.send_queue ≡ suc n
      → (left : Session ops) × (on_send_io_completed ops true s
          ≡ some (
            left,
            map freed (take s.buffer_count s.send_buffer_store)
                ++ (actor_destroyed
                    ∷ session_released
                    ∷ wsa_send (take (min 20 (suc n)) (contents s.send_queue))
                    ∷ []),
            true,
          ))
        × (left.io_count ≡ pos 1)
        × (left.is_using_session ≡ false)
  unfolding increase_io_count
  on_send_io_completed_after_release s n c e =
      let k = dequeue_batch-Taken ops laws (min 20 (suc n)) s.send_queue _ refl in
      let freeing = map freed (take s.buffer_count s.send_buffer_store) in
      let gone : List IoEvent = actor_destroyed ∷ session_released ∷ [] in
      let batch = take (min 20 (suc n)) (contents s.send_queue) in
      (
        loaded ops laws (min 20 (suc n)) batch k.left (released s),
        on_send_io_completed_last s c
            ∙ ap (before ops (freeing ++ gone)) (
                do_send_posts ops laws true (released s) n refl e
                ∙ ap some (post_send_posted ops laws (released s) (suc n) batch k.left k.taken))
            ∙ ap (λ l. some (loaded ops laws (min 20 (suc n)) batch k.left (released s), l, true))
                (append_assoc freeing gone (wsa_send batch ∷ [])),
        refl,
        refl,
      )
