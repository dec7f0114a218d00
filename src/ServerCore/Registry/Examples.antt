-- ===== src/ServerCore/Registry/Examples.antt =====
-- A server of two logic threads.
use actor_model_server.Base.{◌+◌, ◌≡◌, refl, some, [], length, arith}
use actor_model_server.Base.Int.{pos}
use actor_model_server.Base.UnorderedMap.{find, insert}
use actor_model_server.ServerCore.Registry.{
  ServerCore, Handle, insert_session, find_session, release_session, release_queued,
}
use actor_model_server.ServerCore.Registry.Users.{total, IsCounted, insert_session-IsCounted}
use actor_model_server.ServerCore.Registry.Release.{release_queued_lem}

abbrev started : ServerCore
started = record {
  num_of_logic_thread = 2;
  num_of_user = pos 0;
  session_map = λ t. [];
  non_network_actor_map = λ t. [];
  release_threads_queue = λ t. [];
}

abbrev first_session : Handle
first_session = record { actor_id = 1; thread_id = 1 }

abbrev second_session : Handle
second_session = record { actor_id = 2; thread_id = 0 }

started-IsCounted : IsCounted started
started-IsCounted = record { maps = λ t. tt; unused = λ t h. refl; counted = refl }

abbrev two_users : ServerCore
two_users = insert_session second_session (insert_session first_session started)

two_users-IsCounted : IsCounted two_users
unfolding insert_session find
two_users-IsCounted =
    insert_session-IsCounted second_session (insert_session first_session started) (omega arith)
      refl (insert_session-IsCounted first_session started (omega arith) refl started-IsCounted)

-- The key of the first session twice.
abbrev leaving : ServerCore
leaving = release_session 1 1 (release_session 1 1 two_users)

leaving-IsCounted : IsCounted leaving
unfolding release_session
leaving-IsCounted =
    let k = two_users-IsCounted in record { maps = k.maps; unused = k.unused; counted = k.counted }

release_queued_lem_example :
    ((release_queued 1 leaving).0.release_threads_queue 1 ≡ [])
    × (find_session 2 0 (release_queued 1 leaving).0 ≡ some second_session)
    × (total 2 (release_queued 1 leaving).0.session_map + length (release_queued 1 leaving).1 ≡ 2)
    × IsCounted (release_queued 1 leaving).0
unfolding release_session insert_session find_session insert find
release_queued_lem_example = release_queued_lem 1 2 0 leaving leaving-IsCounted
