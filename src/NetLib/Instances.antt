-- ===== src/NetLib/Instances.antt =====
-- Lists meet the laws of the ring buffer and of the queue.
use actor_model_server.Base.{
  ℕ, ◌-◌, ◌≡◌, refl, ap, Option, none, some, List, [], ◌∷◌, ◌++◌, take, drop, length, arith,
}
use actor_model_server.NetLib.{RingOps, RingLaws, QueueOps, QueueLaws}

-- A ring of 64 bytes as the list of its bytes, never broken by its end.
abbrev pub list_ring : RingOps
list_ring = record {
  Ring = List ℕ;
  get_use_size = length;
  get_free_size = λ r. 64 - length r;
  get_not_broken_put_size = λ r. 64 - length r;
  peek = take;
  remove_data = drop;
  dequeue = λ n r. (take n r, drop n r);
  enqueue = λ bs r. r ++ bs;
  receive = λ bs r. r ++ bs;
}

unfoldable pub list_ring-RingLaws : RingLaws list_ring
list_ring-RingLaws = record {
  contents = λ r. r;
  capacity = 64;
  room = λ r. omega arith;
  get_use_size-contents = λ r. refl;
  peek-contents = λ n r. refl;
  contents-remove_data = λ n r. refl;
  dequeue-taken = λ n r. refl;
  dequeue-left = λ n r. refl;
  contents-enqueue = λ bs r h. refl;
  contents-receive = λ bs r h. refl;
}

abbrev pub list_dequeue : List ℕ → Option (ℕ × List ℕ)
list_dequeue [] = none
list_dequeue (b ∷ bs) = some (b, bs)

pub list_dequeue-nil : (q : List ℕ) → q ≡ [] → list_dequeue q ≡ none
list_dequeue-nil q e = ap list_dequeue e

pub list_dequeue-cons :
    (q : List ℕ) (b : ℕ) (bs : List ℕ) → q ≡ b ∷ bs → list_dequeue q ≡ some (b, bs)
list_dequeue-cons q b bs e = ap list_dequeue e

abbrev pub list_queue : QueueOps
list_queue = record {
  Queue = List ℕ;
  enqueue = λ b q. q ++ b ∷ [];
  dequeue = list_dequeue;
  get_rest_size = length;
}

unfoldable pub list_queue-QueueLaws : QueueLaws list_queue
list_queue-QueueLaws = record {
  contents = λ q. q;
  contents-enqueue = λ b q. refl;
  get_rest_size-contents = λ q. refl;
  dequeue-nil = list_dequeue-nil;
  dequeue-cons = λ q b bs e. (bs, list_dequeue-cons q b bs e, refl);
}
