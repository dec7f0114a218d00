-- ===== src/SimpleClient/Behind.antt =====
-- The receive thread only adds to its queue: with more packets in front it does the same.
use actor_model_server.Base.{
  ℕ, zero, suc, ◌≡◌, refl, sym, ap, ◌∙◌, Option, none, some, List, [], ◌∷◌, ◌++◌, length, ltb,
  arith, append_assoc, Bool-cases, Option-cases, inl, inr,
}
use actor_model_server.NetLib.{RingOps, PacketFormat}
use actor_model_server.SimpleClient.{
  RecvResult, received, closed, broken, Receiver, Made, Round, ended, got, packet_round,
  make_packets, make_packets_from_ring_buffer, close_and_stop, after_made, do_recv, run_recv_thread,
}
use actor_model_server.SimpleClient.Termination.{run_recv_thread_next, run_recv_thread_stopped}

module _ (ops : RingOps) where
  abbrev pub queue_behind : List (List ℕ) → Receiver ops → Receiver ops
  queue_behind done c = record c { recv_buffer_queue = done ++ c.recv_buffer_queue }

  abbrev pub made_behind : List (List ℕ) → Option (Made ops) → Option (Made ops)
  made_behind done none = none
  made_behind done (some m) = some (record m { queue = done ++ m.queue })

  abbrev pub received_behind : List (List ℕ) → Option (Receiver ops) → Option (Receiver ops)
  received_behind done none = none
  received_behind done (some c) = some (queue_behind done c)

module _ (ops : RingOps) (format : PacketFormat) where
  open ops use {Ring}

  round_behind :
      (fuel : ℕ) (r : Round ops) (done queue : List (List ℕ))
      → ((rest : ℕ) (ring : Ring) (q : List (List ℕ))
          → make_packets ops format fuel rest ring (done ++ q)
            ≡ made_behind ops done (make_packets ops format fuel rest ring q))
      → ◌≡◌ {A = Option (Made ops)}
          (elim r [
            | ended success left ↦
                some (record { success = success; left = left; queue = done ++ queue })
            | got packet left rest' ↦
                make_packets ops format fuel rest' left ((done ++ queue) ++ packet ∷ [])
          ])
          (made_behind ops done (elim r [
            | ended success left ↦ some (record { success = success; left = left; queue = queue })
            | got packet left rest' ↦ make_packets ops format fuel rest' left (queue ++ packet ∷ [])
          ]))
  round_behind fuel (ended success left) done queue ih = refl
  round_behind fuel (got packet left rest') done queue ih =
      ap (make_packets ops format fuel rest' left) (append_assoc done queue (packet ∷ []))
      ∙ ih rest' left (queue ++ packet ∷ [])

  make_packets_behind :
      (fuel rest : ℕ) (ring : Ring) (done queue : List (List ℕ))
      → make_packets ops format fuel rest ring (done ++ queue)
        ≡ made_behind ops done (make_packets ops format fuel rest ring queue)
  unfolding make_packets
  make_packets_behind zero rest ring done queue = refl
  make_packets_behind (suc fuel) rest ring done queue =
      round_behind fuel (packet_round ops format rest ring) done queue
        (λ rest' left q. make_packets_behind fuel rest' left done q)

  after_made_behind :
      (done : List (List ℕ)) (c : Receiver ops) (o : Option (Made ops))
      → after_made ops format (queue_behind ops done c) (made_behind ops done o)
        ≡ received_behind ops done (after_made ops format c o)
  unfolding after_made close_and_stop
  after_made_behind done c none = refl
  after_made_behind done c (some m) = elim (Bool-cases m.success) [
    | inl good ↦ rw good refl
    | inr bad ↦ rw bad refl
  ]

  do_recv_behind :
      (done : List (List ℕ)) (r : RecvResult) (c : Receiver ops)
      → do_recv ops format r (queue_behind ops done c)
        ≡ received_behind ops done (do_recv ops format r c)
  unfolding do_recv close_and_stop make_packets_from_ring_buffer
  do_recv_behind done closed c = refl
  do_recv_behind done broken c = refl
  do_recv_behind done (received bytes) c =
      elim (Bool-cases (ltb (ops.get_free_size c.ring) (length bytes))) [
        | inl full ↦ rw full refl
        | inr fits ↦
            let ring = ops.enqueue bytes c.ring in
            let size = ops.get_use_size ring in
            rw fits (
              ap (after_made ops format (queue_behind ops done (record c { ring = ring })))
                (make_packets_behind (suc size) size ring done c.recv_buffer_queue)
              ∙ after_made_behind done (record c { ring = ring })
                  (make_packets ops format (suc size) size ring c.recv_buffer_queue))
      ]

  pub run_recv_thread_behind :
      (done : List (List ℕ)) (rs : List RecvResult) (c c' : Receiver ops)
      → run_recv_thread ops format rs c ≡ some c'
      → run_recv_thread ops format rs (queue_behind ops done c) ≡ some (queue_behind ops done c')
  unfolding run_recv_thread
  run_recv_thread_behind done [] c c' e = ap (received_behind ops done) e
  run_recv_thread_behind done (r ∷ rs) c c' e = elim (Bool-cases c.need_stop) [
    | inl stopped ↦
        run_recv_thread_stopped ops format (r ∷ rs) (queue_behind ops done c) stopped
        ∙ ap (received_behind ops done)
            (sym (run_recv_thread_stopped ops format (r ∷ rs) c stopped) ∙ e)
    | inr running ↦ elim (Option-cases (do_recv ops format r c)) [
      | inl lost ↦ absurd (ground arith)
      | inr (c1, d) ↦
          run_recv_thread_next ops format r rs (queue_behind ops done c) (queue_behind ops done c1)
            running (do_recv_behind done r c ∙ ap (received_behind ops done) d)
          ∙ run_recv_thread_behind done rs c1 c'
              (sym (run_recv_thread_next ops format r rs c c1 running d) ∙ e)
    ]
  ]
