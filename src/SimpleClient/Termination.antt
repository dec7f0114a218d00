-- ===== src/SimpleClient/Termination.antt =====
-- The packet loop and the receive thread end, whatever bytes arrive.
use actor_model_server.Base.{
  ℕ, zero, suc, ◌+◌, ◌≤◌, ◌<◌, ◌≡◌, refl, Bool, true, false, Option, none, some, List, [], ◌∷◌,
  ◌++◌, length, ltb, arith, Bool-cases, Option-cases, inl, inr, ltb→lt, ◌||◌, ◌∙◌,
}
use actor_model_server.NetLib.{RingOps, PacketFormat}
use actor_model_server.SimpleClient.{
  RecvResult, received, closed, broken, Receiver, Made, Round, ended, got, decoded, packet_round,
  payload_length_of, make_packets, make_packets_from_ring_buffer, after_made, do_recv,
  run_recv_thread, close_and_stop,
}

or-false : (b : Bool) → (b || false) ≡ b
or-false true = refl
or-false false = refl

module _ (ops : RingOps) (format : PacketFormat) where
  open ops use {Ring, get_use_size, get_free_size, enqueue}
  open format use {header_size, decode}

  -- A round that does not end the loop leaves less to do.
  abbrev Decreases : ℕ → Round ops → Type 0
  Decreases rest (ended success left) = Unit
  Decreases rest (got packet left rest') = rest' < rest

  decoded-Decreases :
      (header : List ℕ) (rest : ℕ) (taken : List ℕ × Ring)
      → 0 < header_size
      → header_size < rest
      → Decreases rest (decoded ops format header rest taken)
  unfolding decoded
  decoded-Decreases header rest (payload, ring) h some_left =
      elim (Option-cases (decode header payload)) [
        | inl e ↦ rw (e, decoded) tt
        | inr (packet, e) ↦ rw (e, decoded) (omega arith)
      ]

  packet_round-Decreases :
      (rest : ℕ) (ring : Ring)
      → 0 < header_size
      → Decreases rest (packet_round ops format rest ring)
  unfolding packet_round
  packet_round-Decreases rest ring h = elim (Bool-cases (ltb header_size rest)) [
    | inr few ↦ rw few tt
    | inl more ↦ elim (Bool-cases (ltb rest (stated + header_size))) [
      | inr whole ↦
          rw (more, whole) (decoded-Decreases header rest _ h (ltb→lt header_size rest more))
      | inl part ↦ elim (Bool-cases (ltb format.default_size stated)) [
        | inl long ↦ rw (more, part, long) tt
        | inr fits ↦ rw (more, part, fits) tt
      ]
    ]
  ]
    where
      header : List ℕ
      header = ops.peek header_size ring

      stated : ℕ
      stated = payload_length_of header

  abbrev IsMade : Option (Made ops) → Type 0
  IsMade none = ⊥
  IsMade (some m) = Unit

  round_continues-IsMade :
      (fuel rest : ℕ) (r : Round ops) (queue : List (List ℕ))
      → Decreases rest r
      → rest ≤ fuel
      → ((rest' : ℕ) (ring : Ring) (q : List (List ℕ))
          → rest' < fuel
          → IsMade (make_packets ops format fuel rest' ring q))
      → IsMade (elim r [
        | ended success left ↦ some (record { success = success; left = left; queue = queue })
        | got packet left rest' ↦ make_packets ops format fuel rest' left (queue ++ packet ∷ [])
      ])
  round_continues-IsMade fuel rest (ended success left) queue d enough ih = tt
  round_continues-IsMade fuel rest (got packet left rest') queue d enough ih =
      ih rest' left _ (omega arith)

  -- Whatever the ring holds, fuel for each byte that is left and one round is enough.
  make_packets-IsMade :
      (fuel rest : ℕ) (ring : Ring) (queue : List (List ℕ))
      → 0 < header_size
      → rest < fuel
      → IsMade (make_packets ops format fuel rest ring queue)
  unfolding make_packets
  make_packets-IsMade zero rest ring queue h enough = absurd (omega arith)
  make_packets-IsMade (suc fuel) rest ring queue h enough =
      round_continues-IsMade fuel rest (packet_round ops format rest ring) queue
        (packet_round-Decreases rest ring h) (omega arith)
        (λ rest' left q less. make_packets-IsMade fuel rest' left q h less)

  IsMade-some : (o : Option (Made ops)) → IsMade o → (m : Made ops) × (o ≡ some m)
  IsMade-some none h = absurd h
  IsMade-some (some m) h = (m, refl)

  after_made-some :
      (c : Receiver ops) (o : Option (Made ops))
      → IsMade o
      → (c' : Receiver ops) × (after_made ops format c o ≡ some c')
  unfolding after_made
  after_made-some c none h = absurd h
  after_made-some c (some m) h = (_, refl)

  -- A result of `recv` that ends the connection.
  abbrev pub ends : RecvResult → Bool
  ends (received bytes) = false
  ends closed = true
  ends broken = true

  abbrev pub ends_any : List RecvResult → Bool
  ends_any [] = false
  ends_any (r ∷ rs) = ends r || ends_any rs

  pub do_recv-some :
      (r : RecvResult) (c : Receiver ops)
      → 0 < header_size
      → (c' : Receiver ops) × (do_recv ops format r c ≡ some c')
        × ((c'.need_stop || ends r) ≡ c'.need_stop)
  unfolding do_recv make_packets_from_ring_buffer close_and_stop
  do_recv-some closed c h = (close_and_stop ops format c, refl, refl)
  do_recv-some broken c h = (close_and_stop ops format c, refl, refl)
  do_recv-some (received bytes) c h =
      elim (Bool-cases (ltb (get_free_size c.ring) (length bytes))) [
        | inl full ↦ (record c { need_stop = true }, rw full refl, refl)
        | inr fits ↦
            let ring = enqueue bytes c.ring in
            let (c', e) =
              after_made-some (record c { ring = ring }) _
                (make_packets-IsMade (suc (get_use_size ring)) (get_use_size ring) ring
                  c.recv_buffer_queue h (omega arith)) in
            (c', rw fits e, or-false c'.need_stop)
      ]

  pub run_recv_thread-nil : (c : Receiver ops) → run_recv_thread ops format [] c ≡ some c
  unfolding run_recv_thread
  run_recv_thread-nil c = refl

  pub run_recv_thread_next :
      (r : RecvResult) (rs : List RecvResult) (c c' : Receiver ops)
      → c.need_stop ≡ false
      → do_recv ops format r c ≡ some c'
      → run_recv_thread ops format (r ∷ rs) c ≡ run_recv_thread ops format rs c'
  unfolding run_recv_thread
  run_recv_thread_next r rs c c' running e =
      rw (running, run_recv_thread) (rw (e, run_recv_thread) refl)

  pub run_recv_thread_stopped :
      (rs : List RecvResult) (c : Receiver ops)
      → c.need_stop ≡ true
      → run_recv_thread ops format rs c ≡ some c
  unfolding run_recv_thread
  run_recv_thread_stopped [] c stopped = refl
  run_recv_thread_stopped (r ∷ rs) c stopped = ground arith

  -- Whatever `recv` returns, and whatever bytes it gives, each round of the receive thread ends, and
  -- so does its packet loop. Once a result says that the connection is closed or broken, the client
  -- is to stop.
  pub run_recv_thread_ends :
      (results : List RecvResult) (c : Receiver ops)
      → 0 < header_size
      → (c' : Receiver ops) × (run_recv_thread ops format results c ≡ some c')
        × ((c'.need_stop || ends_any results) ≡ c'.need_stop)
  unfolding run_recv_thread
  run_recv_thread_ends [] c h = (c, refl, or-false c.need_stop)
  run_recv_thread_ends (r ∷ rs) c h = elim (Bool-cases c.need_stop) [
    | inl stopped ↦ (c, run_recv_thread_stopped (r ∷ rs) c stopped, ground arith)
    | inr running ↦
        let (c', e, stops) = do_recv-some r c h in
        elim (Bool-cases c'.need_stop) [
          | inl stopped ↦ (
            c',
            run_recv_thread_next r rs c c' running e ∙ run_recv_thread_stopped rs c' stopped,
            ground arith,
          )
          | inr running' ↦
              let (c'', e', stops') = run_recv_thread_ends rs c' h in
              (c'', run_recv_thread_next r rs c c' running e ∙ e', ground arith)
        ]
  ]
