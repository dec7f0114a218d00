-- ===== src/Contents.antt =====
-- ActorModelServer/ContentsServer/MediatorImpl.cpp, MediatorImpl.h, SectorManager.cpp and
-- SectorManager.h: the trade mediator over the mediator and the server core, and the sector map.
-- Whether an actor is a `Player` (the `dynamic_pointer_cast`) and what the two calls of `SendMessage`
-- return are arguments. The trade mediator's own callbacks are empty in the code.
pub mod Trade
pub mod Sectors
pub mod Player
mod Examples
use actor_model_server.Base.{
  ℕ, ◌+◌, ◌*◌, Bool, true, false, Option, none, some, List, [], ◌∷◌, ◌++◌, ◌&&◌, if◌then◌else◌,
}
use actor_model_server.Base.UnorderedMap.{Map, find, insert, erase}
use actor_model_server.Mediator.{
  Mediator, Event, start_transaction, rollback_transaction, generate_transaction_id,
}
use actor_model_server.ServerCore.Registry.{ServerCore, Handle, find_actor}

pub record TradeRequest : Type 0 where
  pub buyer_id : ℕ
  pub seller_id : ℕ
  pub money : ℕ
  pub item_id : ℕ

-- `std::chrono::seconds(30)` in microseconds.
abbrev pub trade_timeout : ℕ
trade_timeout = 30000000

module _ (is_player : Handle → Bool) where
  -- `dynamic_pointer_cast<Player>`.
  pub as_player : Option Handle → Option Handle
  as_player none = none
  as_player (some h) = if is_player h then some h else none

  -- `FindActor<Player>(id, false)`.
  pub find_player : ℕ → ServerCore → Option Handle
  find_player id core = as_player (find_actor id false core)

  -- The last `if` of `RequestTrade`; `accepted` tells whether both messages were.
  pub after_found : Bool → ℕ → Mediator → List Event → Mediator × List Event × Bool
  after_found accepted tid m events =
      let (m', more) = rollback_transaction tid m in
      if accepted then (m, events, true) else (m', events ++ more, false)

  pub request_trade :
      Bool → Bool → TradeRequest → ℕ → ServerCore → Mediator → Mediator × List Event × Bool
  request_trade item_sent money_sent request now core m =
      let (m', events) =
        start_transaction (request.buyer_id ∷ request.seller_id ∷ []) trade_timeout now m in
      elim (find_player request.seller_id core) [
        | none ↦ (m', events, false)
        | some seller ↦ elim (find_player request.buyer_id core) [
          | none ↦ (m', events, false)
          | some buyer ↦ after_found (item_sent && money_sent) m'.generator m' events
        ]
      ]

-- `emplace` keeps a sector that is there, and the call returns true all the same.
pub register_sector {ℓ} : {S : Type ℓ} → ℕ → S → Map S → Map S × Bool
register_sector id sector sectors = (insert id sector sectors, true)

pub unregister_sector {ℓ} : {S : Type ℓ} → ℕ → Map S → Map S
unregister_sector id sectors = erase id sectors

pub get_sector {ℓ} : {S : Type ℓ} → ℕ → Map S → Option S
get_sector id sectors = find id sectors
