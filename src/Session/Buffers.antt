-- ===== src/Session/Buffers.antt =====
-- What becomes of the packet buffers of a session under any sequence of sends and completions, up to
-- its disconnection.
use actor_model_server.Base.{
  ℕ, ◌≡◌, refl, sym, ap, ◌∙◌, Bool, Option, none, some, List, [], ◌∷◌, ◌++◌, map, take,
  append_assoc, append-nil,
}
use actor_model_server.NetLib.{QueueOps, QueueLaws}
use actor_model_server.Session.{
  Session, io_none_sending, IoEvent, freed, decrease_io_count, send_packet, before,
  on_send_io_completed, on_disconnected,
}
use actor_model_server.Session.SendPath.{drain-Drained}
use actor_model_server.Session.Logs.{
  sent_of, freed_of, sent_of-append, freed_of-append, freed_of-frees, sent_of-frees,
}
use actor_model_server.Session.Ledger.{
  Ledger, Next, decrease_io_count-Aside, Ledger-Aside, do_send-Next, send_packet-Next, freed_books,
}

-- A call of `SendPacket` with the buffer that it built, or a completed send; the Boolean is the
-- result of the `WSASend` that follows.
pub data Io : Type 0 where
  give : ℕ → Bool → Io
  complete : Bool → Io

abbrev pub given_of : List Io → List ℕ
given_of [] = []
given_of (give b posted ∷ ios) = b ∷ given_of ios
given_of (complete posted ∷ ios) = given_of ios

module _ (ops : QueueOps) where
  unfoldable pub run_step : Io → Session ops → Option (Session ops × List IoEvent × Bool)
  run_step (give b posted) s = send_packet ops (some b) posted s
  run_step (complete posted) s = on_send_io_completed ops posted s

  -- The session and the log that a list of operations leaves.
  unfoldable pub run_io : List Io → Session ops → List IoEvent → Option (Session ops × List IoEvent)
  run_io [] s log = some (s, log)
  run_io (io ∷ ios) s log = elim (run_step io s) [
    | none ↦ none
    | some (s', events, result) ↦ run_io ios s' (log ++ events)
  ]

module _ (ops : QueueOps) (laws : QueueLaws ops) where
  open ops use {get_rest_size}
  open laws use {contents}

  before-Next :
      (given sent gone : List ℕ) (evs : List IoEvent)
      (r : Option (Session ops × List IoEvent × Bool))
      → sent_of evs ≡ []
      → Next ops laws given sent (gone ++ freed_of evs) r
      → Next ops laws given sent gone (before ops evs r)
  before-Next given sent gone evs r quiet h = record {
    after = h.after;
    events = evs ++ h.events;
    result = h.result;
    runs = ap (before ops evs) h.runs;
    books =
        rw (sent_of-append evs h.events, freed_of-append evs h.events, quiet)
          (rw (sym (append_assoc gone (freed_of evs) (freed_of h.events))) h.books);
  }

  on_send_io_completed-Next :
      (given sent gone : List ℕ) (posted : Bool) (s : Session ops)
      → Ledger ops laws given sent gone s
      → Next ops laws given sent gone (on_send_io_completed ops posted s)
  unfolding on_send_io_completed
  on_send_io_completed-Next given sent gone posted s h =
      let waiting = take s.buffer_count s.send_buffer_store in
      let s' : Session ops = record s { buffer_count = 0; io_mode = io_none_sending } in
      let a = decrease_io_count-Aside ops laws s' in
      let evs = map freed waiting ++ (decrease_io_count ops s').1 in
      before-Next given sent gone evs _
        (sent_of-append (map freed waiting) _ ∙ rw (sent_of-frees waiting) a.unsent)
        (rw
          (
            freed_of-append (map freed waiting) (decrease_io_count ops s').1,
            freed_of-frees waiting,
            a.unfreed,
            append-nil waiting,
          )
          (do_send-Next ops laws given sent _ posted (decrease_io_count ops s').0
            (Ledger-Aside ops laws _ _ _ _ _ a (freed_books ops laws given sent gone s h))))

  run_step-Next :
      (given sent gone : List ℕ) (io : Io) (s : Session ops)
      → Ledger ops laws given sent gone s
      → Next ops laws (given ++ given_of (io ∷ [])) sent gone (run_step ops io s)
  unfolding run_step
  run_step-Next given sent gone (give b posted) s h =
      send_packet-Next ops laws given sent gone b posted s h
  run_step-Next given sent gone (complete posted) s h =
      rw (append-nil given) (on_send_io_completed-Next given sent gone posted s h)

  record Ran (given : List ℕ) (r : Option (Session ops × List IoEvent)) : Type 0 where
    pub left : Session ops
    pub log : List IoEvent
    pub runs : r ≡ some (left, log)
    pub books : Ledger ops laws given (sent_of log) (freed_of log) left

  given_of-cons :
      (io : Io) (ios : List Io) → given_of (io ∷ ios) ≡ given_of (io ∷ []) ++ given_of ios
  given_of-cons (give b posted) ios = refl
  given_of-cons (complete posted) ios = refl

  run_io_next :
      (io : Io) (ios : List Io) (s s' : Session ops) (log events : List IoEvent) (result : Bool)
      → run_step ops io s ≡ some (s', events, result)
      → run_io ops (io ∷ ios) s log ≡ run_io ops ios s' (log ++ events)
  unfolding run_io
  run_io_next io ios s s' log events result e = rw (e, run_io) refl

  run_io-Ran :
      (ios : List Io) (s : Session ops) (given : List ℕ) (log : List IoEvent)
      → Ledger ops laws given (sent_of log) (freed_of log) s
      → Ran (given ++ given_of ios) (run_io ops ios s log)
  unfolding run_io
  run_io-Ran [] s given log h = record {
    left = s;
    log = log;
    runs = refl;
    books = rw (append-nil given) h;
  }
  run_io-Ran (io ∷ ios) s given log h =
      let k = run_step-Next given _ _ io s h in
      let b : Ledger ops laws (given ++ given_of (io ∷ [])) (sent_of (log ++ k.events))
          (freed_of (log ++ k.events)) k.after =
        rw (sent_of-append log k.events, freed_of-append log k.events) k.books in
      let rest = run_io-Ran ios k.after (given ++ given_of (io ∷ [])) (log ++ k.events) b in
      rw
        (
          run_io_next io ios s k.after log k.events k.result k.runs,
          given_of-cons io ios,
          sym (append_assoc given (given_of (io ∷ [])) (given_of ios)),
        )
        rest

  on_disconnected_frees :
      (l : Session ops)
      → l.recv_stored_queue ≡ []
      → (freed_of (on_disconnected ops l).1
          ≡ take l.buffer_count l.send_buffer_store ++ contents l.send_queue)
        × (contents (on_disconnected ops l).0.send_queue ≡ [])
  unfolding on_disconnected
  on_disconnected_frees l u =
      let waiting = take l.buffer_count l.send_buffer_store in
      let q = contents l.send_queue in
      let d =
        drain-Drained ops laws (get_rest_size l.send_queue) l.send_queue q refl
          (laws.get_rest_size-contents l.send_queue) in
      (
        rw
            (
              u,
              d.frees,
              freed_of-append (map freed waiting) (map freed q),
              freed_of-frees waiting,
              freed_of-frees q,
            )
            refl,
        rw d.frees d.empty,
      )

  -- From a session without buffers, any sequence of sends and completions runs to its end, whatever
  -- `WSASend` answers. The buffers that were sent and then those that still wait are exactly the
  -- given ones, in their order. When the session disconnects then, `OnDisconnected` leaves no buffer
  -- in the queue, and over the whole life each given buffer has been freed exactly once, in the
  -- order in which it was given.
  pub buffers_freed_once :
      (ios : List Io) (s : Session ops)
      → contents s.send_queue ≡ []
      → s.buffer_count ≡ 0
      → s.recv_stored_queue ≡ []
      → (left : Session ops) × (log : List IoEvent) × (run_io ops ios s [] ≡ some (left, log))
        × (sent_of log ++ contents left.send_queue ≡ given_of ios)
        × (freed_of (log ++ (on_disconnected ops left).1) ≡ given_of ios)
        × (contents (on_disconnected ops left).0.send_queue ≡ [])
  buffers_freed_once ios s q c u =
      let r =
        run_io-Ran ios s [] []
          (record { queued = q; in_flight = rw c refl; at_rest = λ e. c; unread = u }) in
      let frees = on_disconnected_frees r.left r.books.unread in
      (
        r.left,
        r.log,
        r.runs,
        r.books.queued,
        rw (freed_of-append r.log (on_disconnected ops r.left).1, frees.0)
            (sym (append_assoc (freed_of r.log) _ _)
              ∙ ap (λ x. x ++ contents r.left.send_queue) r.books.in_flight
              ∙ r.books.queued),
        frees.1,
      )
