-- ===== src/Strategy.antt =====
-- The orders that a strategy emits: sdk/include/strategy.hpp and sdk/src/strategy.cpp, with the
-- registry of strategies, sdk/include/strategy_registry.hpp and sdk/src/strategy_registry.cpp.
-- `Strategy` calls an `IPositionManager`; the one it is given is the `PositionManager`. The handlers of
-- a strategy are virtual, the user's code.
pub mod Registered
pub mod Emitted
use crypto_trading_system.Prelude.{
  Bool, true, false, Option, none, some, Text, ℕ, ◌&&◌, if◌then◌else◌,
}
use crypto_trading_system.Defs.{
  MarketType, Action, OrderType, PosSide, TradeMode, Signal, Price, Volume, empty_signal, set_field,
  market_type_eqb, trade_mode_eqb,
}
use crypto_trading_system.Double.{Double}
use crypto_trading_system.Registry
use crypto_trading_system.Registry.{InstrumentRegistry}
use crypto_trading_system.Currency.{extract_base, extract_quote}
use crypto_trading_system.Utils.{decode}
use crypto_trading_system.Ring.{Ring, shm_push}
use crypto_trading_system.PositionManager.{
  PositionManager, Status, done, out_of_range, reserve_spot,
}

-- `SignalRing::capacity`
abbrev pub signal_capacity : ℕ
signal_capacity = 1024

-- What a strategy reaches through its two pointers, and its flag.
pub record Strategy (D : Type 0) : Type 0 where
  pub signal_ring : Ring Signal
  pub position_manager : PositionManager D
  pub running : Bool

-- The signal that `EmitBuy` and `EmitSell` fill in.
unfoldable pub order_signal :
    Action → Text → OrderType → Price → Volume → MarketType → PosSide → TradeMode → Signal
order_signal action instrument order_type price volume market_type position_side trade_mode =
    record empty_signal {
      instrument = set_field 32 instrument;
      action = action;
      order_type = order_type;
      market_type = market_type;
      position_side = position_side;
      trade_mode = trade_mode;
      price = price;
      volume = volume;
    }

module _ {D : Type 0} ⦃d : Double D⦄ where
  open d use {mul}

  -- The result of `shm_push` is not looked at.
  unfoldable pub push_signal : Strategy D → Signal → Strategy D
  push_signal s signal = record s {
    signal_ring = (shm_push signal_capacity s.signal_ring signal).1;
  }

  abbrev pub reserve : Text → D → Strategy D → Strategy D
  reserve currency amount s = record s {
    position_manager = reserve_spot s.position_manager currency amount;
  }

  -- `EmitBuy`; `Get` throws before anything is changed.
  unfoldable pub emit_buy :
      InstrumentRegistry
      → Strategy D
      → Text
      → OrderType
      → Price
      → Volume
      → MarketType
      → PosSide
      → TradeMode
      → Strategy D × Status
  unfolding push_signal
  emit_buy registry s instrument order_type price volume market_type position_side trade_mode =
      let signal =
        order_signal Action.buy instrument order_type price volume market_type position_side
          trade_mode in
      if market_type_eqb market_type MarketType.spot
      then elim (Registry.get registry instrument) [
        | none ↦ (s, out_of_range)
        | some info ↦ (
          push_signal
              (reserve (extract_quote instrument)
                (mul (decode price info.price_precision) (decode volume info.volume_precision)) s)
              signal,
          done,
        )
      ]
      else (push_signal s signal, done)

  unfoldable pub emit_sell :
      InstrumentRegistry
      → Strategy D
      → Text
      → OrderType
      → Price
      → Volume
      → MarketType
      → PosSide
      → TradeMode
      → Strategy D × Status
  unfolding push_signal
  emit_sell registry s instrument order_type price volume market_type position_side trade_mode =
      let signal =
        order_signal Action.sell instrument order_type price volume market_type position_side
          trade_mode in
      if market_type_eqb market_type MarketType.spot && trade_mode_eqb trade_mode TradeMode.cash
      then elim (Registry.get registry instrument) [
        | none ↦ (s, out_of_range)
        | some info ↦ (
          push_signal (reserve (extract_base instrument) (decode volume info.volume_precision) s)
              signal,
          done,
        )
      ]
      else (push_signal s signal, done)

  unfoldable pub emit_cancel : Strategy D → Text → Text → MarketType → Strategy D
  unfolding push_signal
  emit_cancel s instrument order_id market_type = push_signal s (record empty_signal {
    instrument = set_field 32 instrument;
    order_id = set_field 32 order_id;
    action = Action.cancel;
    market_type = market_type;
  })
