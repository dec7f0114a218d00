-- ===== src/SimpleClient/Reassembly.antt =====
-- However the network cuts a stream of packets into pieces, the client makes the same packets.
use actor_model_server.Base.{
  ℕ, suc, ◌+◌, ◌≤◌, ◌≡◌, refl, sym, ap, subst, ◌∙◌, false, Option, some, List, [], ◌∷◌, ◌++◌, map,
  length, arith, All, append_assoc, append-nil, length-append, le→not-ltb,
}
use actor_model_server.NetLib.{RingOps, RingLaws, PacketFormat}
use actor_model_server.SimpleClient.{
  Receiver, received, do_recv, run_recv_thread, after_made, make_packets_from_ring_buffer,
}
use actor_model_server.SimpleClient.Receiving.{
  Frame, IsFrame, frame_bytes, stream, packets, length-frame_bytes, make_packets-stream,
}
use actor_model_server.SimpleClient.Cutting.{
  IsPartial, cut, concat, IsPartial-Incomplete, All-append_split, packets-append,
}

module _ (ops : RingOps) (laws : RingLaws ops) (format : PacketFormat) where
  open ops use {Ring, get_use_size, get_free_size, enqueue}
  open laws use {contents, capacity}

  -- A receiver between two `recv` calls: what it holds of the packets that are still to come.
  record Awaits (c : Receiver ops) (done fs : List Frame) (ys : List ℕ) : Type 0 where
    running : c.need_stop ≡ false
    queued : c.recv_buffer_queue ≡ packets done
    aligned : contents c.ring ++ ys ≡ stream fs
    partial : IsPartial (contents c.ring) fs
    good : All (IsFrame format) fs

  record Progress (r : Option (Receiver ops)) (all : List Frame) (ys : List ℕ) : Type 0 where
    result : Receiver ops
    done : List Frame
    coming : List Frame
    returns : r ≡ some result
    whole : all ≡ done ++ coming
    awaits : Awaits result done coming ys

  do_recv-Progress :
      (c : Receiver ops) (done fs : List Frame) (chunk ys : List ℕ)
      → Awaits c done fs (chunk ++ ys)
      → length chunk ≤ get_free_size c.ring
      → Progress (do_recv ops format (received chunk) c) (done ++ fs) ys
  unfolding do_recv make_packets_from_ring_buffer after_made
  do_recv-Progress c done fs chunk ys a room =
      let ring = enqueue chunk c.ring in
      let held : contents ring ≡ contents c.ring ++ chunk =
        laws.contents-enqueue chunk c.ring room in
      let k =
        cut fs (contents c.ring ++ chunk) ys
          (append_assoc (contents c.ring) chunk ys ∙ a.aligned) in
      let good =
        All-append_split (IsFrame format) k.before k.after
          (subst (All (IsFrame format)) k.whole a.good) in
      let inc = IsPartial-Incomplete format k.after k.part ys good.1 k.partial k.back in
      let (left, runs, rest) =
        make_packets-stream ops laws format k.before k.part (suc (get_use_size ring))
          (get_use_size ring) ring c.recv_buffer_queue good.0 inc (held ∙ k.front)
          (laws.get_use_size-contents ring ∙ ap length (held ∙ k.front)) (omega arith) in
      record {
        result = record c {
          ring = left;
          recv_buffer_queue = c.recv_buffer_queue ++ packets k.before;
        };
        done = done ++ k.before;
        coming = k.after;
        returns = rw (le→not-ltb (get_free_size c.ring) (length chunk) room, runs) refl;
        whole = ap (◌++◌ done) k.whole ∙ sym (append_assoc done k.before k.after);
        awaits = record {
          running = a.running;
          queued =
              ap (λ (q : List (List ℕ)). q ++ packets k.before) a.queued
              ∙ sym (packets-append done k.before);
          aligned = ap (λ (b : List ℕ). b ++ ys) rest ∙ k.back;
          partial = subst (λ (b : List ℕ). IsPartial b k.after) (sym rest) k.partial;
          good = good.1;
        };
      }

  -- A ring that holds any of the packets and a chunk of `k` bytes more.
  abbrev pub HasRoom : ℕ → List Frame → Type 0
  HasRoom k fs = (k ≤ capacity) × All (λ f. length (frame_bytes f) + k ≤ capacity) fs

  partial_room :
      (k : ℕ) (fs : List Frame) (ring : Ring)
      → k ≤ capacity
      → All (λ f. length (frame_bytes f) + k ≤ capacity) fs
      → IsPartial (contents ring) fs
      → k ≤ get_free_size ring
  partial_room k [] ring h fits part = omega (arith, laws.room ring, ap length part)
  partial_room k (f ∷ fs) ring h fits part = omega (arith, laws.room ring)

  nothing_left :
      (fs : List Frame) (bs : List ℕ)
      → bs ++ [] ≡ stream fs
      → IsPartial bs fs
      → (fs ≡ []) × (bs ≡ [])
  nothing_left [] bs e part = (refl, part)
  nothing_left (f ∷ fs) bs e part =
      absurd
        (omega (arith, ap length e, length-append bs [], length-append (frame_bytes f) (stream fs)))

  run_recv_thread-Awaits :
      (k : ℕ) (chunks : List (List ℕ)) (c : Receiver ops) (done fs : List Frame)
      → k ≤ capacity
      → All (λ f. length (frame_bytes f) + k ≤ capacity) (done ++ fs)
      → All (λ x. length x ≤ k) chunks
      → Awaits c done fs (concat chunks)
      → (c' : Receiver ops) × (run_recv_thread ops format (map received chunks) c ≡ some c')
        × (c'.recv_buffer_queue ≡ packets (done ++ fs))
        × (contents c'.ring ≡ [])
        × (c'.need_stop ≡ false)
  unfolding run_recv_thread
  run_recv_thread-Awaits k [] c done fs h fits small a =
      let (none_left, empty) = nothing_left fs (contents c.ring) a.aligned a.partial in
      (
        c,
        refl,
        a.queued ∙ ap packets (sym (append-nil done) ∙ ap (◌++◌ done) (sym none_left)),
        empty,
        a.running,
      )
  run_recv_thread-Awaits k (chunk ∷ chunks) c done fs h fits small a =
      let room =
        partial_room k fs c.ring h
          (All-append_split (λ f. length (frame_bytes f) + k ≤ capacity) done fs fits).1
          a.partial in
      let p = do_recv-Progress c done fs chunk (concat chunks) a (omega (arith, small.0)) in
      let (c', runs, queued, empty, running) =
        run_recv_thread-Awaits k chunks p.result p.done p.coming h
          (subst (All (λ f. length (frame_bytes f) + k ≤ capacity)) p.whole fits) small.1
          p.awaits in
      (
        c',
        rw (a.running, run_recv_thread) (rw (p.returns, run_recv_thread) runs),
        queued ∙ ap packets (sym p.whole),
        empty,
        running,
      )

  -- If a stream of whole packets reaches a running client, cut into any pieces of at most `k`
  -- bytes, and the ring has room for a packet and `k` bytes more, then the receive thread ends up
  -- running, with an empty ring, and with exactly the decoded packets in its queue, in order.
  pub reassembly :
      (k : ℕ) (fs : List Frame) (chunks : List (List ℕ)) (c : Receiver ops)
      → c.need_stop ≡ false
      → contents c.ring ≡ []
      → c.recv_buffer_queue ≡ []
      → All (IsFrame format) fs
      → HasRoom k fs
      → All (λ x. length x ≤ k) chunks
      → concat chunks ≡ stream fs
      → (c' : Receiver ops) × (run_recv_thread ops format (map received chunks) c ≡ some c')
        × (c'.recv_buffer_queue ≡ packets fs)
        × (contents c'.ring ≡ [])
        × (c'.need_stop ≡ false)
  reassembly k fs chunks c running empty idle good room small e =
      run_recv_thread-Awaits k chunks c [] fs room.0 room.1 small (record {
        running = running;
        queued = idle;
        aligned = rw empty e;
        partial = rw empty (starts fs good);
        good = good;
      })
    where
      starts : (gs : List Frame) → All (IsFrame format) gs → IsPartial [] gs
      starts [] g = refl
      starts (f ∷ gs) g = omega (arith, length-frame_bytes format f g.0, g.0.not_empty)
