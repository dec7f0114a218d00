-- ===== src/Contents/Examples.antt =====
-- Trades between the actors 2 and 4 of a server, and a sector.
use actor_model_server.Base.{◌≡◌, refl, Bool, true, false, some, [], ◌∷◌}
use actor_model_server.Base.Int.{pos}
use actor_model_server.Base.UnorderedMap.{Map, find}
use actor_model_server.Mediator.{Transaction, init}
use actor_model_server.ServerCore.Registry.{ServerCore, Handle, find_non_network_actor}
use actor_model_server.Contents.{TradeRequest, as_player, request_trade}
use actor_model_server.Contents.Trade.{trade_id, request_trade_pending}

abbrev trade : TradeRequest
trade = record { buyer_id = 2; seller_id = 4; money = 100; item_id = 7 }

-- The two are sessions, or else other actors.
abbrev server : Bool → ServerCore
server are_sessions = record {
  num_of_logic_thread = 2;
  num_of_user = pos 2;
  session_map = λ t. pair are_sessions;
  non_network_actor_map = λ t. pair (not_bool are_sessions);
  release_threads_queue = λ t. [];
}
  where
    pair : Bool → Map Handle
    pair true =
        (2, record { actor_id = 2; thread_id = 0 })
        ∷ (4, record { actor_id = 4; thread_id = 0 })
        ∷ []
    pair false = []

    not_bool : Bool → Bool
    not_bool true = false
    not_bool false = true

request_trade_pending_example :
    ((request_trade (λ h. true) true true trade 9 (server true) init).2 ≡ false)
    × ((t : Transaction) × (find
            (trade_id init)
            (request_trade (λ h. true) true true trade 9 (server true) init).0.active
          ≡ some t))
unfolding find_non_network_actor as_player find
request_trade_pending_example =
    request_trade_pending (λ h. true) true true trade 9 (server true) init refl
