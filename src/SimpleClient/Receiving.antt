-- ===== src/SimpleClient/Receiving.antt =====
-- One run of the packet loop over a stream of whole packets with an incomplete one behind.
use actor_model_server.Base.{
  ℕ, zero, suc, ◌+◌, ◌-◌, ◌≤◌, ◌<◌, ◌≡◌, refl, sym, ap, ◌∙◌, ◌⊎◌, inl, inr, true, some, List, [],
  ◌∷◌, ◌++◌, take, drop, length, arith, All, append_assoc, append-nil, length-append, take_exact,
  drop_exact, lt→ltb, le→not-ltb,
}
use actor_model_server.NetLib.{RingOps, RingLaws, PacketFormat}
use actor_model_server.SimpleClient.{
  ended, got, decoded, packet_round, payload_length_of, make_packets,
}

-- A packet on the wire, and what it decodes to.
pub record Frame : Type 0 where
  pub header : List ℕ
  pub payload : List ℕ
  pub packet : List ℕ

abbrev pub frame_bytes : Frame → List ℕ
frame_bytes f = f.header ++ f.payload

abbrev pub stream : List Frame → List ℕ
stream [] = []
stream (f ∷ fs) = frame_bytes f ++ stream fs

abbrev pub packets : List Frame → List (List ℕ)
packets [] = []
packets (f ∷ fs) = f.packet ∷ packets fs

module _ (format : PacketFormat) where
  open format use {header_size, default_size, decode}

  -- The header has its length and states the payload's, the payload is not empty and fits a
  -- buffer, and `Decode` accepts the two.
  pub record IsFrame (f : Frame) : Type 0 where
    pub header_length : length f.header ≡ header_size
    pub stated : payload_length_of f.header ≡ length f.payload
    pub not_empty : 0 < length f.payload
    pub fits : length f.payload ≤ default_size
    pub decodes : decode f.header f.payload ≡ some f.packet

  -- Too few bytes for the packet that they begin.
  abbrev pub Incomplete : List ℕ → Type 0
  Incomplete bs =
      (length bs ≤ header_size)
      ⊎ ((payload_length_of (take header_size bs) ≤ default_size)
          × (length bs < payload_length_of (take header_size bs) + header_size))

  pub length-frame_bytes :
      (f : Frame) → IsFrame f → length (frame_bytes f) ≡ header_size + length f.payload
  length-frame_bytes f h = omega (arith, length-append f.header f.payload, h.header_length)

module _ (ops : RingOps) (laws : RingLaws ops) (format : PacketFormat) where
  open ops use {Ring, get_use_size, peek, remove_data, dequeue}
  open laws use {contents}
  open format use {header_size, default_size, decode}

  -- What a round sees of a whole packet at the front.
  pub record Front (ring : Ring) (f : Frame) (rest : List ℕ) : Type 0 where
    pub header : peek header_size ring ≡ f.header
    pub taken : (dequeue (length f.payload) (remove_data header_size ring)).0 ≡ f.payload
    pub left : contents (dequeue (length f.payload) (remove_data header_size ring)).1 ≡ rest

  pub front :
      (ring : Ring) (f : Frame) (rest : List ℕ)
      → IsFrame format f
      → contents ring ≡ frame_bytes f ++ rest
      → Front ring f rest
  front ring f rest h e = record {
    header =
        laws.peek-contents header_size ring
        ∙ ap (take header_size) e'
        ∙ take_exact f.header (f.payload ++ rest) header_size (sym h.header_length);
    taken =
        laws.dequeue-taken _ _
        ∙ ap (take (length f.payload)) behind
        ∙ take_exact f.payload rest (length f.payload) refl;
    left =
        laws.dequeue-left _ _
        ∙ ap (drop (length f.payload)) behind
        ∙ drop_exact f.payload rest (length f.payload) refl;
  }
    where
      e' : contents ring ≡ f.header ++ (f.payload ++ rest)
      e' = e ∙ append_assoc f.header f.payload rest

      behind : contents (remove_data header_size ring) ≡ f.payload ++ rest
      behind =
          laws.contents-remove_data header_size ring
          ∙ ap (drop header_size) e'
          ∙ drop_exact f.header (f.payload ++ rest) header_size (sym h.header_length)

  packet_round_frame :
      (ring : Ring) (f : Frame) (rest : List ℕ) (size : ℕ)
      → IsFrame format f
      → contents ring ≡ frame_bytes f ++ rest
      → length (frame_bytes f ++ rest) ≡ size
      → packet_round ops format size ring
        ≡ got f.packet (dequeue (length f.payload) (remove_data header_size ring)).1 (length rest)
  unfolding packet_round decoded
  packet_round_frame ring f rest size h e n =
      let sizes = length-append (frame_bytes f) rest in
      let whole = length-frame_bytes format f h in
      let smaller : size - (length f.payload + header_size) ≡ length rest =
        omega (arith, sizes, whole) in
      rw
        (
          front_header,
          h.stated,
          lt→ltb header_size size (omega (arith, h.not_empty, sizes, whole)),
          le→not-ltb size (length f.payload + header_size) (omega (arith, sizes, whole)),
          front_taken,
        )
        (rw (h.decodes, decoded) (rw smaller refl))
    where
      open (front ring f rest h e) use {header as front_header, taken as front_taken}

  pub packet_round-Incomplete :
      (ring : Ring) (size : ℕ)
      → size ≡ length (contents ring)
      → Incomplete format (contents ring)
      → packet_round ops format size ring ≡ ended true ring
  unfolding packet_round decoded
  packet_round-Incomplete ring size n (inl short) = rw (le→not-ltb header_size size (omega arith))
  packet_round-Incomplete ring size n (inr (fits, short)) =
      ground (arith, laws.peek-contents header_size ring)

  -- Whole packets and an incomplete one behind: every packet is decoded and queued in order, the
  -- incomplete one stays in the ring, and the loop succeeds, with fuel for each byte and one round.
  pub make_packets-stream :
      (fs : List Frame) (bs : List ℕ) (fuel size : ℕ) (ring : Ring) (queue : List (List ℕ))
      → All (IsFrame format) fs
      → Incomplete format bs
      → contents ring ≡ stream fs ++ bs
      → size ≡ length (stream fs ++ bs)
      → size < fuel
      → (left : Ring) × (make_packets ops format fuel size ring queue
          ≡ some (record { success = true; left = left; queue = queue ++ packets fs }))
        × (contents left ≡ bs)
  unfolding make_packets
  make_packets-stream fs bs zero size ring queue h inc e n enough = absurd (omega arith)
  make_packets-stream [] bs (suc fuel) size ring queue h inc e n enough = (
    ring,
    rw (packet_round-Incomplete ring size (n ∙ ap length (sym e)) (rw e inc), make_packets)
        (ap (λ (q : List (List ℕ)). some (record { success = true; left = ring; queue = q }))
          (sym (append-nil queue))),
    e,
  )
  make_packets-stream (f ∷ fs) bs (suc fuel) size ring queue h inc e n enough =
      let e' : contents ring ≡ frame_bytes f ++ (stream fs ++ bs) =
        e ∙ append_assoc (frame_bytes f) (stream fs) bs in
      let sizes = ap length (append_assoc (frame_bytes f) (stream fs) bs) in
      let seen = front ring f (stream fs ++ bs) h.0 e' in
      let (left, runs, rest) =
        make_packets-stream fs bs fuel (length (stream fs ++ bs)) _ (queue ++ f.packet ∷ []) h.1 inc
          seen.left refl
          (omega (
            arith,
            sizes,
            length-append (frame_bytes f) (stream fs ++ bs),
            length-frame_bytes format f h.0,
            h.0.not_empty,
          )) in
      (
        left,
        rw
            (
              packet_round_frame ring f (stream fs ++ bs) size h.0 e' (omega (arith, sizes)),
              make_packets,
            )
            (runs
              ∙ ap (λ (q : List (List ℕ)). some (record { success = true; left = left; queue = q }))
                  (append_assoc queue (f.packet ∷ []) (packets fs))),
        rest,
      )
