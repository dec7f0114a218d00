-- ===== src/Session/Examples.antt =====
-- A session's send path at concrete inputs, over a queue that is a list.
use actor_model_server.Base.{◌≡◌, refl, true, false, some, List, [], ◌∷◌, ◌++◌}
use actor_model_server.Base.Int.{pos}
use actor_model_server.NetLib.Instances.{list_queue, list_queue-QueueLaws}
use actor_model_server.Session.{
  Session, io_none_sending, io_sending, IoEvent, wsa_send, freed, actor_destroyed, session_released,
  do_send, on_send_io_completed, on_disconnected,
}
use actor_model_server.Session.Logs.{sent_of, freed_of}
use actor_model_server.Session.Buffers.{Io, give, complete, run_io, buffers_freed_once}
use actor_model_server.Session.LostWakeup.{do_send_strands, on_send_io_completed_after_release}
use actor_model_server.Session.{increase_io_count, decrease_io_count, do_recv}
use actor_model_server.Session.IoCount.{Reached, begins, holds, receives, finishes, Reached-count}
use actor_model_server.NetLib.Instances.{list_ring}

abbrev connected : Session list_queue
connected = record {
  sock_open = true;
  io_count = pos 1;
  is_using_session = false;
  recv_stored_queue = [];
  buffer_count = 0;
  io_mode = io_none_sending;
  send_queue = [];
  send_buffer_store = [];
}

abbrev fresh : Session list_queue
fresh = record connected { io_count = pos 0 }

-- Two packets while the first is under way, then its completion, then a send that fails.
abbrev traffic : List Io
traffic =
    give 10 true
    ∷ give 11 true
    ∷ give 12 true
    ∷ complete true
    ∷ complete true
    ∷ give 13 false
    ∷ give 14 true
    ∷ []

buffers_freed_once_example :
    (left : Session list_queue) × (log : List IoEvent) × (run_io list_queue traffic connected []
      ≡ some (left, log))
    × (sent_of log ++ left.send_queue ≡ 10 ∷ 11 ∷ 12 ∷ 13 ∷ 14 ∷ [])
    × (freed_of (log ++ (on_disconnected list_queue left).1) ≡ 10 ∷ 11 ∷ 12 ∷ 13 ∷ 14 ∷ [])
    × ((on_disconnected list_queue left).0.send_queue ≡ [])
unfolding list_queue-QueueLaws
buffers_freed_once_example =
    buffers_freed_once list_queue list_queue-QueueLaws traffic connected refl refl refl

do_send_strands_example :
    (left : Session list_queue) × (do_send list_queue ([] ∷ (5 ∷ []) ∷ []) true connected
      ≡ some (left, [], true))
    × (left.io_mode ≡ io_none_sending)
    × (left.send_queue ≡ 5 ∷ [])
unfolding list_queue-QueueLaws
do_send_strands_example =
    do_send_strands list_queue list_queue-QueueLaws (5 ∷ []) true connected refl refl

abbrev sending : Session list_queue
sending = record connected {
  io_mode = io_sending;
  buffer_count = 1;
  send_buffer_store = 4 ∷ [];
  send_queue = 5 ∷ [];
}

on_send_io_completed_after_release_example :
    (left : Session list_queue) × (on_send_io_completed list_queue true sending
      ≡ some (left, freed 4 ∷ actor_destroyed ∷ session_released ∷ wsa_send (5 ∷ []) ∷ [], true))
    × (left.io_count ≡ pos 1)
    × (left.is_using_session ≡ false)
unfolding list_queue-QueueLaws
on_send_io_completed_after_release_example =
    on_send_io_completed_after_release list_queue list_queue-QueueLaws sending 0 refl refl

-- The accept thread holds a new session, posts a receive, and lets it go.
accepted :
    Reached list_queue list_ring
      (decrease_io_count list_queue
        (do_recv list_queue list_ring true [] (increase_io_count list_queue fresh)).0).0
      1
accepted =
    finishes (do_recv list_queue list_ring true [] (increase_io_count list_queue fresh)).0 1
      (receives (increase_io_count list_queue fresh) 1 [] (holds fresh 0 (begins fresh refl)))

Reached-count_example :
    (decrease_io_count list_queue
      (do_recv list_queue list_ring true [] (increase_io_count list_queue fresh)).0).0.io_count
    ≡ pos 1
Reached-count_example =
    Reached-count list_queue list_queue-QueueLaws list_ring
      (decrease_io_count list_queue
        (do_recv list_queue list_ring true [] (increase_io_count list_queue fresh)).0).0
      1 accepted
