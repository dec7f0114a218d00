-- ===== src/ServerCore/RecvPath/Delivery.antt =====
-- A stream of whole packets reaches the session's mailbox as messages, in order.
use actor_model_server.Base.{
  ℕ, zero, suc, ◌+◌, ◌-◌, ◌≤◌, ◌<◌, ◌≡◌, refl, ap, ◌∙◌, true, false, Option, some, List, [], ◌∷◌,
  ◌++◌, map, length, arith, All, append_assoc, append-nil, length-append, lt→ltb, le→not-ltb,
}
use actor_model_server.Base.Int.{pos, decrement-increment}
use actor_model_server.Base.UnorderedMap.{Map}
use actor_model_server.NetLib.{RingOps, RingLaws, QueueOps, PacketFormat}
use actor_model_server.Actor.{send_message}
use actor_model_server.Actor.Packets.{
  NetBufferOps, MessageFactory, PacketMessage, create_message_from_packet,
}
use actor_model_server.Session.{Session, wsa_recv, do_recv, decrease_io_count, increase_io_count}
use actor_model_server.SimpleClient.Receiving.{
  Frame, IsFrame, frame_bytes, stream, length-frame_bytes, front,
}
use actor_model_server.ServerCore.RecvPath.{
  Streamed, Connection, recv_stream_to_buffer, decode_streamed, send_streamed, send_created,
  recv_loop, after_recv_loop, on_recv_io_completed,
}

module _ (ops : RingOps) (laws : RingLaws ops) (format : PacketFormat) where
  open ops use {Ring, remove_data, dequeue}
  open laws use {contents}
  open format use {header_size}

  pub recv_stream_to_buffer_frame :
      (ring : Ring) (f : Frame) (rest : List ℕ) (size : ℕ)
      → IsFrame format f
      → contents ring ≡ frame_bytes f ++ rest
      → length (frame_bytes f ++ rest) ≡ size
      → recv_stream_to_buffer ops format size ring ≡ record {
        packet = some f.packet;
        ring = (dequeue (length f.payload) (remove_data header_size ring)).1;
        rest_size = length rest;
      }
  unfolding recv_stream_to_buffer decode_streamed
  recv_stream_to_buffer_frame ring f rest size h e n =
      let sizes = length-append (frame_bytes f) rest in
      let whole = length-frame_bytes format f h in
      let smaller : size - (length f.payload + header_size) ≡ length rest =
        omega (arith, sizes, whole) in
      rw
        (
          front_header,
          h.stated,
          le→not-ltb size (length f.payload + header_size) (omega (arith, sizes, whole)),
          front_taken,
        )
        (rw (h.decodes, decode_streamed) (rw smaller refl))
    where
      open (front ops laws format ring f rest h e) use {
        header as front_header, taken as front_taken,
      }

module _ (queue : QueueOps) where
  decrease_io_count-increase_io_count :
      (n : ℕ) (s : Session queue)
      → s.io_count ≡ pos (suc n)
      → decrease_io_count queue (increase_io_count queue s) ≡ (s, [])
  unfolding increase_io_count decrease_io_count
  decrease_io_count-increase_io_count n s e = ground (arith, decrement-increment s.io_count)

module _ (buffers : NetBufferOps) (holding : List ℕ → buffers.Buffer) {H : Type 0} where
  -- Each packet makes the message beside it.
  abbrev pub Makes : Map (MessageFactory H) → List Frame → List (PacketMessage H) → Type 0
  Makes factories [] [] = Unit
  Makes factories (f ∷ fs) (m ∷ ms) =
      (create_message_from_packet buffers (holding f.packet) factories ≡ some m)
      × Makes factories fs ms
  Makes _ _ _ = ⊥

module _ (ring : RingOps) (laws : RingLaws ring) (queue : QueueOps) (format : PacketFormat)
    (buffers : NetBufferOps) (holding : List ℕ → buffers.Buffer) {H W : Type 0} where
  open laws use {contents}
  open format use {header_size}

  -- The connection after its ring is `left` and some messages are in its mailbox.
  abbrev pub delivered :
      ring.Ring → List (PacketMessage H) → Connection ring queue H W → Connection ring queue H W
  delivered left ms c = record c {
    ring_buffer = left;
    actor = record c.actor { store_queue = c.actor.store_queue ++ map some ms };
  }

  send_streamed_made :
      (packet : List ℕ) (m : PacketMessage H) (c : Connection ring queue H W)
      → c.actor.is_stop ≡ false
      → create_message_from_packet buffers (holding packet) c.factories ≡ some m
      → send_streamed ring queue format buffers holding (some packet) c
        ≡ (true, delivered c.ring_buffer (m ∷ []) c)
  unfolding send_streamed send_created send_message
  send_streamed_made packet m c on e = rw (e, send_created, on) refl

  recv_loop_round :
      (fuel size : ℕ) (c c' : Connection ring queue H W) (s : Streamed ring)
      → header_size < size
      → recv_stream_to_buffer ring format size c.ring_buffer ≡ s
      → send_streamed ring queue format buffers holding s.packet (record c { ring_buffer = s.ring })
        ≡ (true, c')
      → recv_loop ring queue format buffers holding (suc fuel) size c
        ≡ recv_loop ring queue format buffers holding fuel s.rest_size c'
  unfolding recv_loop
  recv_loop_round fuel size c c' s h e e' = rw (lt→ltb header_size size h, e, e') refl

  -- Whole packets and at most a header's worth of bytes behind them.
  pub recv_loop-stream :
      (fs : List Frame) (ms : List (PacketMessage H)) (bs : List ℕ) (fuel size : ℕ)
      (c : Connection ring queue H W)
      → All (IsFrame format) fs
      → Makes buffers holding c.factories fs ms
      → length bs ≤ header_size
      → contents c.ring_buffer ≡ stream fs ++ bs
      → size ≡ length (stream fs ++ bs)
      → size < fuel
      → c.actor.is_stop ≡ false
      → (left : ring.Ring) × (recv_loop ring queue format buffers holding fuel size c
          ≡ some (true, delivered left ms c))
        × (contents left ≡ bs)
  unfolding recv_loop
  recv_loop-stream fs ms bs zero size c h makes short e n enough on = absurd (omega arith)
  recv_loop-stream [] (m ∷ ms) bs (suc fuel) size c h makes short e n enough on = elim makes [ ]
  recv_loop-stream (f ∷ fs) [] bs (suc fuel) size c h makes short e n enough on = elim makes [ ]
  recv_loop-stream [] [] bs (suc fuel) size c h makes short e n enough on = (
    c.ring_buffer,
    rw (le→not-ltb header_size size (omega arith)) (ap (λ x. some (true, x)) unchanged),
    e,
  )
    where
      unchanged : c ≡ delivered c.ring_buffer [] c
      unchanged = ground (arith, append-nil c.actor.store_queue)
  recv_loop-stream (f ∷ fs) (m ∷ ms) bs (suc fuel) size c h makes short e n enough on =
      let e' : contents c.ring_buffer ≡ frame_bytes f ++ (stream fs ++ bs) =
        e ∙ append_assoc (frame_bytes f) (stream fs) bs in
      let sizes = ap length (append_assoc (frame_bytes f) (stream fs) bs) in
      let longer = length-append (frame_bytes f) (stream fs ++ bs) in
      let whole = length-frame_bytes format f h.0 in
      let seen = front ring laws format c.ring_buffer f (stream fs ++ bs) h.0 e' in
      let streamed =
        recv_stream_to_buffer_frame ring laws format c.ring_buffer f (stream fs ++ bs) size h.0 e'
          (omega (arith, sizes)) in
      let ring' =
        (ring.dequeue (length f.payload) (ring.remove_data header_size c.ring_buffer)).1 in
      let c' = delivered ring' (m ∷ []) c in
      let (left, runs, rest) =
        recv_loop-stream fs ms bs fuel (length (stream fs ++ bs)) c' h.1 makes.1 short seen.left
          refl (omega (arith, sizes, longer, whole, h.0.not_empty)) on in
      (
        left,
        recv_loop_round fuel size c c' _ (omega (arith, sizes, longer, whole, h.0.not_empty))
              streamed (send_streamed_made f.packet m (record c { ring_buffer = ring' }) on makes.0)
            ∙ runs
            ∙ ap
                (λ (q : List (Option (PacketMessage H))). some (
                  true,
                  record c { ring_buffer = left; actor = record c.actor { store_queue = q } },
                ))
                (append_assoc c.actor.store_queue (some m ∷ []) (map some ms)),
        rest,
      )

  after_recv_loop_posted :
      (n : ℕ) (c : Connection ring queue H W)
      → c.session.io_count ≡ pos (suc n)
      → after_recv_loop ring queue format buffers holding true (some (true, c))
        ≡ some (
          c,
          wsa_recv
                (ring.get_not_broken_put_size c.ring_buffer)
                (ring.get_free_size c.ring_buffer - ring.get_not_broken_put_size c.ring_buffer)
              ∷ [],
          true,
        )
  unfolding after_recv_loop do_recv increase_io_count decrease_io_count
  after_recv_loop_posted n c e = rw (decrease_io_count-increase_io_count queue n c.session e) refl

  -- The bytes of a completed `WSARecv` that make whole packets with the bytes that the ring held, and
  -- leave at most a header's worth: each packet's message is added to the mailbox, in order, the
  -- bytes behind stay in the ring, one `WSARecv` is posted again, and the session is left as it was,
  -- its I/O count included.
  pub on_recv_io_completed_delivers :
      (fs : List Frame) (ms : List (PacketMessage H)) (bs bytes : List ℕ) (n : ℕ)
      (c : Connection ring queue H W)
      → All (IsFrame format) fs
      → Makes buffers holding c.factories fs ms
      → length bs ≤ header_size
      → contents c.ring_buffer ++ bytes ≡ stream fs ++ bs
      → length bytes ≤ ring.get_free_size c.ring_buffer
      → c.actor.is_stop ≡ false
      → c.session.io_count ≡ pos (suc n)
      → (left : ring.Ring) × (on_recv_io_completed ring queue format buffers holding bytes true c
          ≡ some (
            delivered left ms c,
            wsa_recv
                  (ring.get_not_broken_put_size left)
                  (ring.get_free_size left - ring.get_not_broken_put_size left)
                ∷ [],
            true,
          ))
        × (contents left ≡ bs)
  unfolding on_recv_io_completed
  on_recv_io_completed_delivers fs ms bs bytes n c h makes short e room on io =
      let filled = ring.receive bytes c.ring_buffer in
      let held : contents filled ≡ stream fs ++ bs =
        laws.contents-receive bytes c.ring_buffer room ∙ e in
      let size : ring.get_use_size filled ≡ length (stream fs ++ bs) =
        laws.get_use_size-contents filled ∙ ap length held in
      let (left, runs, rest) =
        recv_loop-stream fs ms bs (suc (ring.get_use_size filled)) (ring.get_use_size filled)
          (record c { ring_buffer = filled }) h makes short held size (omega arith) on in
      (
        left,
        ap (after_recv_loop ring queue format buffers holding true) runs
            ∙ after_recv_loop_posted n (delivered left ms c) io,
        rest,
      )
