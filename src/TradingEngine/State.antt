-- ===== src/TradingEngine/State.antt =====
-- The data members of `TradingEngine`, its constructor, and what `Init` does with pending orders.
use crypto_trading_system.Prelude.{
  ℕ, List, [], ◌∷◌, ◌++◌, map, Bool, true, false, ◌||◌, Text, text_eq, if◌then◌else◌, ◌==◌,
}
use crypto_trading_system.Prelude.Map
use crypto_trading_system.Prelude.Map.{Map}
use crypto_trading_system.Defs.{Side, PosSide, TradeMode, ExecutionReport, SwapPosition}
use crypto_trading_system.Double.{Double}
use crypto_trading_system.Ring.{Ring}
use crypto_trading_system.PositionManager.{
  PositionManager, no_positions, init_spot_from_exchange, init_swap_from_exchange,
}

-- `ExecutionReportRing::capacity`
abbrev pub report_capacity : ℕ
report_capacity = 4096

pub record ReservationInfo (D : Type 0) : Type 0 where
  pub instrument : Text
  pub currency : Text
  pub amount : D
  pub side : Side
  pub trade_mode : TradeMode

-- `strategy_instruments_` is a set; `report_ring` is the shared ring behind the pointer.
pub record TradingEngine (D : Type 0) : Type 0 where
  pub position_manager : PositionManager D
  pub running : Bool
  pub report_ring : Ring (ExecutionReport D)
  pub pending_orders : List (ExecutionReport D)
  pub all_pending_orders : List (ExecutionReport D)
  pub strategy_instruments : List Text
  pub live_order_instruments : Map Text Text
  pub client_order_id_to_reservation : Map Text (ReservationInfo D)

-- `PendingOrderInfo` of src/clients/okx/okx.hpp.
pub record PendingOrderInfo (D : Type 0) : Type 0 where
  pub report : ExecutionReport D
  pub client_order_id : Text

-- `strategy_instruments_.count(instrument)`
abbrev pub is_member : Text → List Text → Bool
is_member x [] = false
is_member x (y ∷ s) = x == y || is_member x s

module _ {D : Type 0} where
  -- The constructor, with the instruments of the configuration.
  unfoldable pub construct : List Text → Ring (ExecutionReport D) → TradingEngine D
  construct instruments ring = record {
    position_manager = no_positions;
    running = true;
    report_ring = ring;
    pending_orders = [];
    all_pending_orders = [];
    strategy_instruments = instruments;
    live_order_instruments = [];
    client_order_id_to_reservation = [];
  }

  abbrev pub enlist : List (ExecutionReport D) → Map Text Text → Map Text Text
  enlist [] live = live
  enlist (order ∷ orders) live = enlist orders (Map.assign order.order_id order.instrument live)

  abbrev pub of_strategy : List Text → List (ExecutionReport D) → List (ExecutionReport D)
  of_strategy instruments [] = []
  of_strategy instruments (order ∷ orders) =
      let rest = of_strategy instruments orders in
      if is_member order.instrument instruments then order ∷ rest else rest

module _ {D : Type 0} ⦃d : Double D⦄ where
  -- What `Init` does to the members, with the answers of the five queries.
  unfoldable pub init_orders :
      TradingEngine D
      → Map Text (D × D × D)
      → Map Text (Map PosSide (SwapPosition D))
      → List (PendingOrderInfo D)
      → List (PendingOrderInfo D)
      → TradingEngine D
  init_orders e balances swap_positions spot_pending swap_pending =
      let all = map (λ i. i.report) spot_pending ++ map (λ i. i.report) swap_pending in
      record e {
        position_manager =
            init_swap_from_exchange (init_spot_from_exchange e.position_manager balances)
              swap_positions;
        all_pending_orders = all;
        live_order_instruments = enlist all e.live_order_instruments;
        pending_orders = of_strategy e.strategy_instruments all;
      }

module _ {D : Type 0} where
  unfoldable pub stop : TradingEngine D → TradingEngine D
  stop e = record e { running = false }
