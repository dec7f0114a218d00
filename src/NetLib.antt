-- ===== src/NetLib.antt =====
-- What the code calls of the network library that is not in this repository: `CRingbuffer`,
-- `CLockFreeQueue` and `NetBuffer::Decode`. Their operations are parameters of the models, and what
-- the code relies on is a record of laws beside each. The last part shows that the laws can hold.
pub mod Instances
use actor_model_server.Base.{
  ℕ, ◌+◌, ◌-◌, ◌≤◌, ◌<◌, ◌≡◌, Option, none, some, List, [], ◌∷◌, ◌++◌, take, drop, length,
}

-- `CRingbuffer`, a byte stream. `receive` stands for the bytes that the kernel writes behind the
-- write position, and `MoveWritePos` over them.
pub record RingOps : Type 1 where
  pub Ring : Type 0
  pub get_use_size : Ring → ℕ
  pub get_free_size : Ring → ℕ
  pub get_not_broken_put_size : Ring → ℕ
  pub peek : ℕ → Ring → List ℕ
  pub remove_data : ℕ → Ring → Ring
  pub dequeue : ℕ → Ring → List ℕ × Ring
  pub enqueue : List ℕ → Ring → Ring
  pub receive : List ℕ → Ring → Ring

-- The ring holds a sequence of bytes: `Peek` and `Dequeue` give at most as many as there are, from
-- the front, and bytes that fit are added at the back. What is not in use is free.
pub record RingLaws (ops : RingOps) : Type 0 where
  pub contents : ops.Ring → List ℕ
  pub capacity : ℕ
  pub room : (r : ops.Ring) → capacity ≤ ops.get_free_size r + length (contents r)
  pub get_use_size-contents : (r : ops.Ring) → ops.get_use_size r ≡ length (contents r)
  pub peek-contents : (n : ℕ) (r : ops.Ring) → ops.peek n r ≡ take n (contents r)
  pub contents-remove_data :
      (n : ℕ) (r : ops.Ring) → contents (ops.remove_data n r) ≡ drop n (contents r)
  pub dequeue-taken : (n : ℕ) (r : ops.Ring) → (ops.dequeue n r).0 ≡ take n (contents r)
  pub dequeue-left : (n : ℕ) (r : ops.Ring) → contents (ops.dequeue n r).1 ≡ drop n (contents r)
  pub contents-enqueue :
      (bs : List ℕ) (r : ops.Ring)
      → length bs ≤ ops.get_free_size r
      → contents (ops.enqueue bs r) ≡ contents r ++ bs
  pub contents-receive :
      (bs : List ℕ) (r : ops.Ring)
      → length bs ≤ ops.get_free_size r
      → contents (ops.receive bs r) ≡ contents r ++ bs

-- `CLockFreeQueue<NetBuffer*>`, with buffers named by numbers.
pub record QueueOps : Type 1 where
  pub Queue : Type 0
  pub enqueue : ℕ → Queue → Queue
  pub dequeue : Queue → Option (ℕ × Queue)
  pub get_rest_size : Queue → ℕ

-- The queue is first in, first out, and counts its elements.
pub record QueueLaws (ops : QueueOps) : Type 0 where
  pub contents : ops.Queue → List ℕ
  pub contents-enqueue : (b : ℕ) (q : ops.Queue) → contents (ops.enqueue b q) ≡ contents q ++ b ∷ []
  pub get_rest_size-contents : (q : ops.Queue) → ops.get_rest_size q ≡ length (contents q)
  pub dequeue-nil : (q : ops.Queue) → contents q ≡ [] → ops.dequeue q ≡ none
  pub dequeue-cons :
      (q : ops.Queue) (b : ℕ) (bs : List ℕ)
      → contents q ≡ b ∷ bs
      → (q' : ops.Queue) × (ops.dequeue q ≡ some (b, q')) × (contents q' ≡ bs)

-- `NetBuffer`: the constants `df_HEADER_SIZE` and `dfDEFAULTSIZE`, and `Decode`, which reads the
-- header and the payload and gives the decoded payload, or nothing where it returns false.
pub record PacketFormat : Type 0 where
  pub header_size : ℕ
  pub default_size : ℕ
  pub decode : List ℕ → List ℕ → Option (List ℕ)
