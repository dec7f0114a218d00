-- ===== src/ServerCore/RecvPath/Termination.antt =====
-- The receive loop ends on any bytes, and a completed receive keeps the books: it has posted the
-- next receive, or it has given its count back.
use actor_model_server.Base.{
  ℕ, zero, suc, ◌+◌, ◌≤◌, ◌<◌, ◌≡◌, refl, Bool, true, false, Option, none, some, List, [], ◌∷◌,
  ◌++◌, ltb, arith, Bool-cases, Option-cases, inl, inr, ltb→lt, subst, ap, ◌&&◌, if◌then◌else◌, ◌∙◌,
}
use actor_model_server.Base.Int.{pos}
use actor_model_server.NetLib.{RingOps, QueueOps, PacketFormat}
use actor_model_server.Actor.Packets.{NetBufferOps, PacketMessage}
use actor_model_server.Session.{
  Session, IoEvent, session_released, do_recv, decrease_io_count, increase_io_count,
  release_session,
}
use actor_model_server.SimpleClient.{payload_length_of}
use actor_model_server.ServerCore.RecvPath.{
  Streamed, decode_streamed, recv_stream_to_buffer, Connection, send_created, send_streamed,
  recv_loop, after_recv_loop, on_recv_io_completed,
}

module _ (ring : RingOps) (format : PacketFormat) where
  open format use {header_size, default_size, decode}

  -- A packet that comes out leaves less to read.
  abbrev Shrinks : ℕ → Streamed ring → Type 0
  Shrinks rest s = elim s.packet [ none ↦ Unit | some packet ↦ s.rest_size < rest ]

  decode_streamed-Shrinks :
      (header : List ℕ) (rest : ℕ) (taken : List ℕ × ring.Ring)
      → 0 < header_size
      → header_size < rest
      → Shrinks rest (decode_streamed ring format header rest taken)
  unfolding decode_streamed
  decode_streamed-Shrinks header rest (payload, left) h more =
      elim (Option-cases (decode header payload)) [
        | inl e ↦ rw (e, decode_streamed) tt
        | inr (packet, e) ↦ rw (e, decode_streamed) (omega arith)
      ]

  recv_stream_to_buffer-Shrinks :
      (rest : ℕ) (r : ring.Ring)
      → 0 < header_size
      → header_size < rest
      → Shrinks rest (recv_stream_to_buffer ring format rest r)
  unfolding recv_stream_to_buffer
  recv_stream_to_buffer-Shrinks rest r h more =
      elim (Bool-cases (ltb rest (stated + header_size) && ltb default_size stated)) [
        | inl long ↦ rw long tt
        | inr takes ↦ rw takes (decode_streamed-Shrinks _ rest _ h more)
      ]
    where
      stated : ℕ
      stated = payload_length_of (ring.peek header_size r)

-- The sessions that the events hand to a release thread.
abbrev pub releases : List IoEvent → ℕ
releases [] = 0
releases (session_released ∷ events) = suc (releases events)
releases (_ ∷ events) = releases events

abbrev pub released_at : ℕ → ℕ
released_at zero = 1
released_at (suc n) = 0

module _ (queue : QueueOps) where
  decrease_io_count_held :
      (n : ℕ) (s : Session queue)
      → s.io_count ≡ pos (suc n)
      → ((decrease_io_count queue s).0.io_count ≡ pos n)
        × (releases (decrease_io_count queue s).1 ≡ released_at n)
  unfolding decrease_io_count release_session
  decrease_io_count_held zero s e = ground arith
  decrease_io_count_held (suc n) s e = ground arith

  do_recv_held :
      (ring : RingOps) (r : ring.Ring) (posted : Bool) (n : ℕ) (s : Session queue)
      → s.io_count ≡ pos (suc n)
      → (let (s', events, result) = do_recv queue ring posted r s in
          let (s'', more) = decrease_io_count queue s' in
          (result ≡ posted)
          × (s''.io_count ≡ (if posted then pos (suc n) else pos n))
          × (releases (events ++ more) ≡ (if posted then 0 else released_at n)))
  unfolding do_recv increase_io_count decrease_io_count release_session
  do_recv_held ring r true zero s e = ground arith
  do_recv_held ring r true (suc n) s e = ground arith
  do_recv_held ring r false zero s e = ground arith
  do_recv_held ring r false (suc n) s e = ground arith

module _ (ring : RingOps) (queue : QueueOps) (format : PacketFormat) (buffers : NetBufferOps)
    (holding : List ℕ → buffers.Buffer) {H W : Type 0} where
  open format use {header_size}

  -- A loop that has ended, with the session as it was.
  abbrev Ends : Session queue → Option (Bool × Connection ring queue H W) → Type 0
  Ends s none = ⊥
  Ends s (some (success, c)) = c.session ≡ s

  send_created_session :
      (m : Option (PacketMessage H)) (c : Connection ring queue H W)
      → (send_created ring queue format buffers holding m c).1.session ≡ c.session
  unfolding send_created
  send_created_session none c = refl
  send_created_session (some m) c = refl

  send_streamed_session :
      (packet : Option (List ℕ)) (c : Connection ring queue H W)
      → (send_streamed ring queue format buffers holding packet c).1.session ≡ c.session
  unfolding send_streamed
  send_streamed_session none c = refl
  send_streamed_session (some packet) c = send_created_session _ c

  round-Ends :
      (fuel rest rest' : ℕ) (packet : Option (List ℕ)) (c : Connection ring queue H W)
      → Shrinks ring format rest
          (record { packet = packet; ring = c.ring_buffer; rest_size = rest' })
      → rest ≤ fuel
      → (again : (c' : Connection ring queue H W)
          → rest' < fuel
          → Ends c'.session (recv_loop ring queue format buffers holding fuel rest' c'))
      → (let (success, c') = send_streamed ring queue format buffers holding packet c in
          Ends c.session (
            if success
            then recv_loop ring queue format buffers holding fuel rest' c'
            else some (false, c')))
  unfolding send_streamed
  round-Ends fuel rest rest' none c shrinks enough again = refl
  round-Ends fuel rest rest' (some packet) c shrinks enough again = elim (Bool-cases sent.0) [
    | inl success ↦ rw success (
        subst (λ s. Ends s (recv_loop ring queue format buffers holding fuel rest' sent.1)) kept
          (again sent.1 (omega arith)))
    | inr failure ↦ rw failure kept
  ]
    where
      sent : Bool × Connection ring queue H W
      sent = send_streamed ring queue format buffers holding (some packet) c

      kept : sent.1.session ≡ c.session
      kept = send_streamed_session (some packet) c

  recv_loop-Ends :
      (fuel rest : ℕ) (c : Connection ring queue H W)
      → 0 < header_size
      → rest < fuel
      → Ends c.session (recv_loop ring queue format buffers holding fuel rest c)
  unfolding recv_loop
  recv_loop-Ends zero rest c h enough = absurd (omega arith)
  recv_loop-Ends (suc fuel) rest c h enough = elim (Bool-cases (ltb header_size rest)) [
    | inr few ↦ rw few refl
    | inl more ↦
        let s = recv_stream_to_buffer ring format rest c.ring_buffer in
        rw more (
          round-Ends fuel rest s.rest_size s.packet (record c { ring_buffer = s.ring })
            (recv_stream_to_buffer-Shrinks ring format rest c.ring_buffer h
              (ltb→lt header_size rest more))
            (omega arith) (λ c' less. recv_loop-Ends fuel s.rest_size c' h less))
  ]

  after_recv_loop_keeps :
      (posted : Bool) (n : ℕ) (before : Session queue)
      (o : Option (Bool × Connection ring queue H W))
      → before.io_count ≡ pos (suc n)
      → Ends before o
      → (c' : Connection ring queue H W) × (events : List IoEvent) × (result : Bool)
        × (after_recv_loop ring queue format buffers holding posted o ≡ some (c', events, result))
        × (c'.session.io_count ≡ (if result then pos (suc n) else pos n))
        × (releases events ≡ (if result then 0 else released_at n))
  unfolding after_recv_loop
  after_recv_loop_keeps posted n before none e h = absurd h
  after_recv_loop_keeps posted n before (some (false, c)) e h =
      let k =
        decrease_io_count_held queue n c.session (ap (λ (s : Session queue). s.io_count) h ∙ e) in
      (_, _, _, refl, k.0, k.1)
  after_recv_loop_keeps true n before (some (true, c)) e h =
      let k =
        do_recv_held queue ring c.ring_buffer true n c.session
          (ap (λ (s : Session queue). s.io_count) h ∙ e) in
      (_, _, _, refl, rw k.0 k.1, rw k.0 k.2)
  after_recv_loop_keeps false n before (some (true, c)) e h =
      let k =
        do_recv_held queue ring c.ring_buffer false n c.session
          (ap (λ (s : Session queue). s.io_count) h ∙ e) in
      (_, _, _, refl, rw k.0 k.1, rw k.0 k.2)

  -- A completed receive returns whatever bytes it brings and whatever its handlers, the mailbox and
  -- `WSARecv` answer. Where it returns true, the session's I/O count is what it was, and the
  -- session is not released. Where it returns false, the count is one less, and the session is
  -- released exactly if that was the last one, once.
  pub on_recv_io_completed_balances :
      (bytes : List ℕ) (posted : Bool) (n : ℕ) (c : Connection ring queue H W)
      → 0 < header_size
      → c.session.io_count ≡ pos (suc n)
      → (c' : Connection ring queue H W) × (events : List IoEvent) × (result : Bool)
        × (on_recv_io_completed ring queue format buffers holding bytes posted c
            ≡ some (c', events, result))
        × (c'.session.io_count ≡ (if result then pos (suc n) else pos n))
        × (releases events ≡ (if result then 0 else released_at n))
  unfolding on_recv_io_completed
  on_recv_io_completed_balances bytes posted n c h e =
      let filled = ring.receive bytes c.ring_buffer in
      let size = ring.get_use_size filled in
      after_recv_loop_keeps posted n c.session _ e
        (recv_loop-Ends (suc size) size (record c { ring_buffer = filled }) h (omega arith))
