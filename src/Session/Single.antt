-- ===== src/Session/Single.antt =====
-- A packet that is sent while nothing else waits or is under way.
use actor_model_server.Base.{ℕ, ◌≡◌, ap, ◌∙◌, true, some, List, [], ◌∷◌, ◌++◌, length}
use actor_model_server.NetLib.{QueueOps, QueueLaws}
use actor_model_server.Session.{Session, io_none_sending, wsa_send, send_packet}
use actor_model_server.Session.SendPath.{dequeue_batch-Taken, do_send_posts}
use actor_model_server.Session.Ledger.{loaded, post_send_posted}

module _ (ops : QueueOps) (laws : QueueLaws ops) where
  -- It goes out at once, alone.
  pub send_packet_single :
      (b : ℕ) (s : Session ops)
      → s.io_mode ≡ io_none_sending
      → laws.contents s.send_queue ≡ []
      → (left : Session ops) × (send_packet ops (some b) true s
          ≡ some (left, wsa_send (b ∷ []) ∷ [], true))
  unfolding send_packet
  send_packet_single b s idle empty =
      let s' : Session ops = record s { send_queue = ops.enqueue b s.send_queue } in
      let one : laws.contents s'.send_queue ≡ b ∷ [] =
        laws.contents-enqueue b s.send_queue ∙ ap (λ (l : List ℕ). l ++ b ∷ []) empty in
      let counted : ops.get_rest_size s'.send_queue ≡ 1 =
        laws.get_rest_size-contents s'.send_queue ∙ ap length one in
      let k = dequeue_batch-Taken ops laws 1 s'.send_queue (b ∷ []) one in
      (
        loaded ops laws 1 (b ∷ []) k.left s',
        do_send_posts ops laws true s' 0 idle counted
            ∙ ap some (post_send_posted ops laws s' 1 (b ∷ []) k.left k.taken),
      )
