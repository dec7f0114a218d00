-- ===== src/Contents/Trade.antt =====
-- What `RequestTrade` leaves behind.
use actor_model_server.Base.{ℕ, ◌≡◌, refl, Bool, false, none, some, List, [], ◌∷◌, ◌&&◌}
use actor_model_server.Base.UnorderedMap.{find, find-assign_self, find-erase_self}
use actor_model_server.Mediator.{
  Mediator, Transaction, start_transaction, rollback_transaction, generate_transaction_id,
}
use actor_model_server.ServerCore.Registry.{ServerCore, Handle, find_actor, find_non_network_actor}
use actor_model_server.Contents.{
  TradeRequest, trade_timeout, as_player, find_player, after_found, request_trade,
}

-- The transaction that a request starts.
abbrev pub trade_id : Mediator → ℕ
trade_id m = generate_transaction_id m.generator

started_active :
    (pids : List ℕ) (timeout now : ℕ) (m : Mediator)
    → ((start_transaction pids timeout now m).0.generator ≡ trade_id m)
      × ((t : Transaction) × (find (trade_id m) (start_transaction pids timeout now m).0.active
            ≡ some t))
unfolding start_transaction
started_active pids timeout now m = (refl, (_, find-assign_self (trade_id m) _ m.active))

module _ (is_player : Handle → Bool) where
  -- The seller is looked up among the actors that are not sessions. If what is found there, if
  -- anything, is no player, the request fails, and the transaction that it has started stays active.
  pub request_trade_pending :
      (item_sent money_sent : Bool) (request : TradeRequest) (now : ℕ) (core : ServerCore)
      (m : Mediator)
      → as_player is_player (find_non_network_actor request.seller_id core) ≡ none
      → ((request_trade is_player item_sent money_sent request now core m).2 ≡ false)
        × ((t : Transaction) × (find
                (trade_id m)
                (request_trade is_player item_sent money_sent request now core m).0.active
              ≡ some t))
  unfolding request_trade find_player find_actor
  request_trade_pending item_sent money_sent request now core m e =
      let active =
        (started_active (request.buyer_id ∷ request.seller_id ∷ []) trade_timeout now m).1 in
      rw (e, request_trade) (refl, active)

  -- With both players found, a refused message rolls the new transaction back, which is not active
  -- any more then.
  pub request_trade_rolls_back :
      (item_sent money_sent : Bool) (request : TradeRequest) (now : ℕ) (core : ServerCore)
      (m : Mediator) (seller buyer : Handle)
      → find_player is_player request.seller_id core ≡ some seller
      → find_player is_player request.buyer_id core ≡ some buyer
      → (item_sent && money_sent) ≡ false
      → ((request_trade is_player item_sent money_sent request now core m).2 ≡ false)
        × (find
              (trade_id m)
              (request_trade is_player item_sent money_sent request now core m).0.active
            ≡ none)
  unfolding request_trade after_found rollback_transaction start_transaction
  request_trade_rolls_back item_sent money_sent request now core m seller buyer e e' refused =
      rw (e, e', refused, request_trade) (refl, find-erase_self _ _)
