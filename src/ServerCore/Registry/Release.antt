-- ===== src/ServerCore/Registry/Release.antt =====
-- The loop of `RunReleaseThread`.
use actor_model_server.Base.{
  ℕ, ◌+◌, ◌≡◌, refl, ap, ◌∙◌, Bool, false, none, List, [], ◌∷◌, length, length-append, ◌==◌, ◌&&◌,
  ◌||◌, if◌then◌else◌, arith, Option-cases, inl, inr, ℕ_discrete,
}
use actor_model_server.Base.UnorderedMap.{find, erase, find-erase}
use actor_model_server.ServerCore.Registry.{
  ServerCore, CoreEvent, set_at, erase_session, find_session, ReleaseSessionKey, release_one,
  release_each, release_queued,
}
use actor_model_server.ServerCore.Registry.Lookup.{set_at_self, set_at_same, set_at_other}
use actor_model_server.ServerCore.Registry.Users.{IsCounted, total, erase_session-IsCounted}

-- Whether a session's key is in a release queue.
abbrev pub queued : ℕ → ℕ → List ReleaseSessionKey → Bool
queued id t [] = false
queued id t (key ∷ keys) = ((key.session_id == id) && (key.key_thread_id == t)) || queued id t keys

find_session-erase_session :
    (id t j u : ℕ) (r : ServerCore)
    → find_session j u (erase_session id t r)
      ≡ (if (id == j) && (t == u) then none else find_session j u r)
unfolding find_session erase_session
find_session-erase_session id t j u r = elim (ℕ_discrete t u) [
  | yes e ↦
      let here : set_at t (erase id (r.session_map t)) r.session_map u
          ≡ erase id (r.session_map t) =
        set_at_same t u (erase id (r.session_map t)) r.session_map e in
      ap (find j) here ∙ find-erase id j (r.session_map t) ∙ ground (arith, ap r.session_map e)
  | no ne ↦
      let here : set_at t (erase id (r.session_map t)) r.session_map u ≡ r.session_map u =
        set_at_other t u (erase id (r.session_map t)) r.session_map ne in
      ap (find j) here ∙ ground arith
]

absent_anyway :
    (id t j u : ℕ) (r : ServerCore)
    → find_session id t r ≡ none
    → find_session j u r ≡ (if (id == j) && (t == u) then none else find_session j u r)
absent_anyway id t j u r e = elim (ℕ_discrete id j) [
  | yes same ↦ elim (ℕ_discrete t u) [
    | yes here ↦
        ground (arith, ap (λ x. find_session x t r) same, ap (λ x. find_session j x r) here)
    | no ne ↦ ground arith
  ]
  | no ne ↦ ground arith
]

-- What one round does, in both cases.
record Released (key : ReleaseSessionKey) (r : ServerCore) (out : ServerCore × List CoreEvent)
    : Type 0 where
  same_threads : out.0.num_of_logic_thread ≡ r.num_of_logic_thread
  still : IsCounted out.0
  fewer :
      total r.num_of_logic_thread out.0.session_map + length out.1
      ≡ total r.num_of_logic_thread r.session_map
  finds :
      (j u : ℕ)
      → find_session j u out.0
        ≡ (if (key.session_id == j) && (key.key_thread_id == u) then none else find_session j u r)

release_one-Released :
    (key : ReleaseSessionKey) (r : ServerCore) → IsCounted r → Released key r (release_one key r)
unfolding release_one erase_session
release_one-Released key r c =
    elim (Option-cases (find_session key.session_id key.key_thread_id r)) [
      | inl e ↦
          rw (e, release_one)
            (record {
              same_threads = refl;
              still = c;
              fewer = omega arith;
              finds = λ j u. absent_anyway key.session_id key.key_thread_id j u r e;
            })
      | inr (h, e) ↦
          let k = erase_session-IsCounted key.session_id key.key_thread_id h r e c in
          rw (e, release_one)
            (record {
              same_threads = refl;
              still = k.0;
              fewer = k.1;
              finds = λ j u. find_session-erase_session key.session_id key.key_thread_id j u r;
            })
    ]

release_each-Released :
    (keys : List ReleaseSessionKey) (r : ServerCore)
    → IsCounted r
    → (IsCounted (release_each keys r).0)
      × (total r.num_of_logic_thread (release_each keys r).0.session_map
            + length (release_each keys r).1
          ≡ total r.num_of_logic_thread r.session_map)
      × ((j u : ℕ)
          → find_session j u (release_each keys r).0
            ≡ (if queued j u keys then none else find_session j u r))
unfolding release_each
release_each-Released [] r c = (c, omega arith, λ j u. refl)
release_each-Released (key ∷ keys) r c =
    let one = release_one-Released key r c in
    let (still, fewer, finds) = release_each-Released keys (release_one key r).0 one.still in
    (
      still,
      omega (
        arith,
        fewer,
        one.fewer,
        length-append (release_one key r).1 (release_each keys (release_one key r).0).1,
        ap (λ n. total n (release_one key r).0.session_map) one.same_threads,
        ap (λ n. total n (release_each keys (release_one key r).0).0.session_map) one.same_threads,
      ),
      λ j u. finds j u ∙ ground (arith, one.finds j u),
    )

release_one-queue :
    (key : ReleaseSessionKey) (r : ServerCore)
    → (release_one key r).0.release_threads_queue ≡ r.release_threads_queue
unfolding release_one erase_session
release_one-queue key r = elim (Option-cases (find_session key.session_id key.key_thread_id r)) [
  | inl e ↦ rw (e, release_one) refl
  | inr (h, e) ↦ rw (e, release_one) refl
]

release_each-queue :
    (keys : List ReleaseSessionKey) (r : ServerCore)
    → (release_each keys r).0.release_threads_queue ≡ r.release_threads_queue
unfolding release_each
release_each-queue [] r = refl
release_each-queue (key ∷ keys) r =
    release_each-queue keys (release_one key r).0 ∙ release_one-queue key r

-- The release thread, woken with any queue in a server whose user count is right: afterwards the
-- queue is empty, exactly the queued sessions are gone and every other is still found, as many
-- sessions were disconnected as there are fewer now (a key that is queued twice, or whose session is
-- gone, disconnects none), and the user count is right.
pub release_queued_lem :
    (thread j u : ℕ) (r : ServerCore)
    → IsCounted r
    → ((release_queued thread r).0.release_threads_queue thread ≡ [])
      × (find_session j u (release_queued thread r).0
          ≡ (if queued j u (r.release_threads_queue thread) then none else find_session j u r))
      × (total r.num_of_logic_thread (release_queued thread r).0.session_map
            + length (release_queued thread r).1
          ≡ total r.num_of_logic_thread r.session_map)
      × IsCounted (release_queued thread r).0
unfolding release_queued find_session
release_queued_lem thread j u r c =
    let r' : ServerCore = record r {
      release_threads_queue = set_at thread [] r.release_threads_queue;
    } in
    let k =
      release_each-Released (r.release_threads_queue thread) r'
        (record { maps = c.maps; unused = c.unused; counted = c.counted }) in
    (
      ap (λ q. q thread) (release_each-queue (r.release_threads_queue thread) r')
          ∙ set_at_self thread [] r.release_threads_queue,
      k.2 j u,
      k.1,
      k.0,
    )
