-- ===== src/Actor/Quiet.antt =====
-- `ProcessMessage` where no message sends to the actor or stops it.
use actor_model_server.Base.{
  ◌≡◌, refl, ap, ◌∙◌, false, Option, none, some, List, [], ◌∷◌, ◌++◌, map,
}
use actor_model_server.Actor.{Actor, Action, call, consume, perform, process_message}
use actor_model_server.Actor.Delivery.{callable, after_batch}

pub callable-map-some : {M : Type 0} (ms : List M) → callable (map some ms) ≡ ms
callable-map-some [] = refl
callable-map-some (m ∷ ms) = ap (◌∷◌ m) (callable-map-some ms)

module _ {M W : Type 0} (invoke : M → W → W × List (Action M)) where
  abbrev pub IsQuiet : Type 0
  IsQuiet = (m : M) (w : W) → (invoke m w).1 ≡ []

  pub after_batch-append :
      (xs ys : List M) (w : W)
      → after_batch invoke (xs ++ ys) w ≡ after_batch invoke ys (after_batch invoke xs w)
  after_batch-append [] ys w = refl
  after_batch-append (x ∷ xs) ys w = after_batch-append xs ys (invoke x w).0

  call_quiet :
      (m : M) (a : Actor M W)
      → IsQuiet
      → call invoke m a ≡ record a { world = (invoke m a.world).0 }
  unfolding call perform
  call_quiet m a quiet = rw (quiet m a.world, perform) refl

  consume_quiet :
      (queue : List (Option M)) (a : Actor M W)
      → IsQuiet
      → consume invoke queue a
        ≡ record a { consumer_queue = []; world = after_batch invoke (callable queue) a.world }
  unfolding consume
  consume_quiet [] a quiet = refl
  consume_quiet (none ∷ queue) a quiet = consume_quiet queue a quiet
  consume_quiet (some m ∷ queue) a quiet =
      ap (consume invoke queue) (call_quiet m a quiet)
      ∙ consume_quiet queue (record a { world = (invoke m a.world).0 }) quiet

  -- The messages that were stored are executed in order, and nothing else changes.
  pub process_message_quiet :
      (s : List (Option M)) (w : W)
      → IsQuiet
      → process_message invoke
          (record { consumer_queue = []; store_queue = s; is_stop = false; world = w })
        ≡ record {
          consumer_queue = [];
          store_queue = [];
          is_stop = false;
          world = after_batch invoke (callable s) w;
        }
  unfolding process_message
  process_message_quiet s w quiet = consume_quiet s _ quiet
