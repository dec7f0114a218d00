-- ===== src/Session.antt =====
-- ActorModelServer/ActorModelServer/Session.h and Session.cpp: a session's socket, its I/O count and
-- its send path. Buffers (`NetBuffer*`) are numbers. The result of `WSASend` and `WSARecv` is an
-- argument: true where the call succeeds or is pending. What the code does to the outside is the
-- list of events that an operation returns. The receive path is ServerCore/RecvPath.antt.
pub mod SendPath
pub mod Logs
pub mod Ledger
pub mod IoCount
pub mod Buffers
pub mod LostWakeup
pub mod Single
mod Examples
use actor_model_server.Base.{
  ℕ, zero, suc, ◌+◌, ◌-◌, Bool, true, false, not, Option, none, some, List, [], ◌∷◌, ◌++◌, map,
  take, drop, length, ltb, leb, ◌==◌, if◌then◌else◌, min,
}
use actor_model_server.Base.Int.{ℤ, pos, increment, decrement, is_zero}
use actor_model_server.NetLib.{RingOps, QueueOps}

-- `enum class IO_MODE`.
pub data IoMode : Type 0 where
  io_none_sending io_sending : IoMode

abbrev pub same_mode : IoMode → IoMode → Bool
same_mode io_none_sending io_none_sending = true
same_mode io_sending io_sending = true
same_mode _ _ = false

abbrev pub one_send_wsabuf_max : ℕ
one_send_wsabuf_max = 20

pub data IoEvent : Type 0 where
  wsa_send : List ℕ → IoEvent
  wsa_recv : ℕ → ℕ → IoEvent
  freed : ℕ → IoEvent
  shutdown_socket close_socket actor_destroyed : IoEvent
  -- `ServerCore::ReleaseSession`, which queues the session for its release thread.
  session_released : IoEvent

module _ (ops : QueueOps) where
  pub record Session : Type 0 where
    pub sock_open : Bool
    pub io_count : ℤ
    pub is_using_session : Bool
    pub recv_stored_queue : List ℕ
    pub buffer_count : ℕ
    pub io_mode : IoMode
    pub send_queue : ops.Queue
    pub send_buffer_store : List ℕ

module _ (ops : QueueOps) where
  open ops use {Queue, enqueue, dequeue, get_rest_size}

  pub on_connected : Session ops → Session ops
  on_connected s = record s { is_using_session = true }

  pub disconnect : Session ops → Session ops × List IoEvent
  disconnect s =
      if s.is_using_session
      then (record s { is_using_session = false }, shutdown_socket ∷ [])
      else (s, [])

  unfoldable pub increase_io_count : Session ops → Session ops
  increase_io_count s = record s { io_count = increment s.io_count }

  unfoldable pub release_session : Session ops → Session ops × List IoEvent
  release_session s =
      (record s { is_using_session = false }, actor_destroyed ∷ session_released ∷ [])

  unfoldable pub decrease_io_count : Session ops → Session ops × List IoEvent
  decrease_io_count s =
      let s' : Session ops = record s { io_count = decrement s.io_count } in
      if is_zero s'.io_count then release_session s' else (s', [])

  -- `DoRecv` over the sizes of the ring's two free parts; the second one is posted if it is not
  -- empty, and is 0 here otherwise.
  unfoldable pub do_recv :
      (ring : RingOps) → Bool → ring.Ring → Session ops → Session ops × List IoEvent × Bool
  do_recv ring posted r s =
      let broken_size = ring.get_not_broken_put_size r in
      let rest_size = ring.get_free_size r - broken_size in
      let s' = increase_io_count s in
      let (s'', events) = decrease_io_count s' in
      if posted
      then (s', wsa_recv broken_size rest_size ∷ [], true)
      else (s'', wsa_recv broken_size rest_size ∷ events, false)

  -- `for (i < n) Dequeue(&sendBufferStore[i])`: the buffers that come out, in order.
  pub dequeue_batch : ℕ → Queue → List ℕ × Queue
  dequeue_batch zero q = ([], q)
  dequeue_batch (suc n) q = elim (dequeue q) [
    | none ↦ ([], q)
    | some (b, q') ↦ let (bs, q'') = dequeue_batch n q' in (b ∷ bs, q'')
  ]

  pub enqueue_all : List ℕ → Queue → Queue
  enqueue_all [] q = q
  enqueue_all (b ∷ bs) q = enqueue_all bs (enqueue b q)

  -- The send of a round of `DoSend` that finds `rest_size` buffers.
  pub post_send : Bool → ℕ → Session ops → Session ops × List IoEvent × Bool
  post_send posted rest_size s =
      let n = min one_send_wsabuf_max rest_size in
      let (batch, queue) = dequeue_batch n s.send_queue in
      let s' : Session ops = increase_io_count (record s {
        send_queue = queue;
        send_buffer_store = batch ++ drop n s.send_buffer_store;
        buffer_count = s.buffer_count + n;
      }) in
      let (s'', events) = decrease_io_count s' in
      if posted then (s', wsa_send batch ∷ [], true) else (s'', wsa_send batch ∷ events, false)

  -- What other threads enqueue between a round's look at the queue and its second exchange; their
  -- own `DoSend` returns at once, as the mode is IO_SENDING then.
  abbrev pub head_gap : List (List ℕ) → List ℕ
  head_gap [] = []
  head_gap (g ∷ gs) = g

  abbrev pub tail_gaps : List (List ℕ) → List (List ℕ)
  tail_gaps [] = []
  tail_gaps (g ∷ gs) = gs

  -- The loop of `DoSend`; `none`: the fuel ran out. A failed `compare_exchange_strong` writes the
  -- mode that it found to `expected`. The queue's size is not negative, so the branch for a
  -- corrupted queue is not there.
  pub do_send_loop :
      ℕ → List (List ℕ) → Bool → IoMode → Session ops → Option (Session ops × List IoEvent × Bool)
  do_send_loop zero gaps posted expected s = none
  do_send_loop (suc fuel) gaps posted expected s =
      let s' : Session ops = record s { io_mode = io_sending } in
      let found : Session ops = record s' {
        send_queue = enqueue_all (head_gap gaps) s.send_queue;
      } in
      let again = do_send_loop fuel (tail_gaps gaps) posted io_sending found in
      if same_mode s.io_mode expected
      then (if get_rest_size s.send_queue == 0
          then (if same_mode io_sending expected
              then some (record found { io_mode = io_none_sending }, [], true)
              else again)
          else some (post_send posted (get_rest_size s.send_queue) s'))
      else some (s, [], true)

  abbrev pub do_send_fuel : ℕ
  do_send_fuel = 3

  pub do_send : List (List ℕ) → Bool → Session ops → Option (Session ops × List IoEvent × Bool)
  do_send gaps posted s = do_send_loop do_send_fuel gaps posted io_none_sending s

  -- The buffer is what `BuildPacketBuffer` gives, nothing where it returns null.
  pub send_packet : Option ℕ → Bool → Session ops → Option (Session ops × List IoEvent × Bool)
  send_packet none posted s = some (s, [], false)
  send_packet (some b) posted s =
      do_send [] posted (record s { send_queue = enqueue b s.send_queue })

  abbrev pub before {ℓ} :
      {A : Type ℓ}
      → List IoEvent
      → Option (A × List IoEvent × Bool)
      → Option (A × List IoEvent × Bool)
  before events none = none
  before events (some (s, more, result)) = some (s, events ++ more, result)

  -- `ServerCore::OnSendIoCompleted`.
  pub on_send_io_completed : Bool → Session ops → Option (Session ops × List IoEvent × Bool)
  on_send_io_completed posted s =
      let freeing = map freed (take s.buffer_count s.send_buffer_store) in
      let (s', events) =
        decrease_io_count (record s { buffer_count = 0; io_mode = io_none_sending }) in
      before (freeing ++ events) (do_send [] posted s')

  -- `while (sendQueue.GetRestSize() > 0)`, with the queue's size as fuel.
  pub drain : ℕ → Queue → Queue × List IoEvent
  drain zero q = (q, [])
  drain (suc fuel) q = elim (dequeue q) [
    | none ↦ (q, [])
    | some (b, q') ↦ let (q'', events) = drain fuel q' in (q'', freed b ∷ events)
  ]

  pub on_disconnected : Session ops → Session ops × List IoEvent
  on_disconnected s =
      let (queue, events) = drain (get_rest_size s.send_queue) s.send_queue in
      (
        record s {
          sock_open = false;
          recv_stored_queue = [];
          buffer_count = 0;
          send_queue = queue;
        },
        close_socket
            ∷ (map freed s.recv_stored_queue
                ++ (map freed (take s.buffer_count s.send_buffer_store) ++ events)),
      )
