-- ===== src/ServerCore/Threads/Accepting.antt =====
-- What the accept thread leaves behind.
use actor_model_server.Base.{
  ℕ, ◌≡◌, refl, ap, ◌∙◌, Bool, true, false, not, none, some, [], ◌∷◌, ◌++◌, if◌then◌else◌,
}
use actor_model_server.Base.Int.{pos, increment}
use actor_model_server.NetLib.{RingOps, QueueOps}
use actor_model_server.Actor.{send_message}
use actor_model_server.Session.{Session, increase_io_count, decrease_io_count, do_recv}
use actor_model_server.Session.IoCount.{decrease_io_count_last}
use actor_model_server.Session.Logs.{releases, releases-append}
use actor_model_server.ServerCore.Startup.{PortHandle, is_invalid_handle_value}
use actor_model_server.ServerCore.Registry.{ServerCore, actor_created, find_session}
use actor_model_server.ServerCore.Registry.Lookup.{find_session-insert_session}
use actor_model_server.ServerCore.Threads.{Newcomer, accept_round}

held_twice :
    (queue : QueueOps) (s : Session queue)
    → s.io_count ≡ pos 0
    → (increase_io_count queue (increase_io_count queue s)).io_count ≡ pos 2
unfolding increase_io_count
held_twice queue s e = ap (λ x. increment (increment x)) e

module _ (ring : RingOps) (queue : QueueOps) {M W : Type 0} where
  -- A new session with no I/O, whose id is free, and for whose socket `CreateIoCompletionPort` gave
  -- anything but INVALID_HANDLE_VALUE, the NULL of its failure included, is in the server's maps after
  -- the round. Where its first receive was posted, that receive is its one I/O and it is not
  -- released; where it was not, the session has no I/O and is released, still in the maps. Its
  -- creation callback is called once, and waits in its mailbox a second time.
  pub accept_round_registered :
      (cell : ℕ) (port : PortHandle) (posted : Bool) (r : ring.Ring) (m : M)
      (n : Newcomer queue M W) (core : ServerCore)
      → is_invalid_handle_value port ≡ false
      → n.session.io_count ≡ pos 0
      → n.actor.is_stop ≡ false
      → find_session n.handle.actor_id n.handle.thread_id core ≡ none
      → let round = accept_round ring queue cell port posted r m n core in
        (find_session n.handle.actor_id n.handle.thread_id round.core ≡ some n.handle)
        × (round.newcomer.session.io_count ≡ pos (if posted then 1 else 0))
        × (releases round.io ≡ not posted)
        × (round.created ≡ actor_created n.handle ∷ [])
        × (round.newcomer.actor.store_queue ≡ n.actor.store_queue ++ some m ∷ [])
  unfolding accept_round do_recv send_message
  accept_round_registered cell port true r m n core valid e on absent =
      let last =
        decrease_io_count_last queue (increase_io_count queue (increase_io_count queue n.session)) 1
          (held_twice queue n.session e) in
      rw valid (find_session-insert_session n.handle core absent, last.0, last.1, refl, rw on refl)
  accept_round_registered cell port false r m n core valid e on absent =
      let twice = increase_io_count queue (increase_io_count queue n.session) in
      let first = decrease_io_count_last queue twice 1 (held_twice queue n.session e) in
      let second = decrease_io_count_last queue (decrease_io_count queue twice).0 0 first.0 in
      rw valid (
        find_session-insert_session n.handle core absent,
        second.0,
        releases-append (decrease_io_count queue twice).1 _ first.1 ∙ second.1,
        refl,
        rw on refl,
      )
