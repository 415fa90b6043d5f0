-- ===== src/TradingEngine/Dispatcher.antt =====
-- `TradingEngine::RunOrderDispatcher`: one round of its loop.
use crypto_trading_system.Prelude.{
  ℕ, ◌++◌, [], Option, none, some, Text, text_eq, codes, if◌then◌else◌,
}
use crypto_trading_system.Prelude.Map
use crypto_trading_system.Defs.{
  MarketType, Side, Action, OrderType, TradeMode, Signal, OrderRequest, InstrumentInfo,
  empty_signal, action_eqb, order_type_eqb, market_type_eqb, trade_mode_eqb, side_eqb,
}
use crypto_trading_system.Double.{Double, nought}
use crypto_trading_system.Registry
use crypto_trading_system.Registry.{InstrumentRegistry}
use crypto_trading_system.Currency.{locked_currency}
use crypto_trading_system.Utils.{decode, format, to_string}
use crypto_trading_system.Ring.{Ring, shm_pop}
use crypto_trading_system.PositionManager.{Status, done, out_of_range}
use crypto_trading_system.Strategy.{signal_capacity}
use crypto_trading_system.TradingEngine.State.{ReservationInfo, TradingEngine}

-- The calls of the exchange client.
pub data Sent : Type 0 where
  place_order : OrderRequest → Sent
  cancel_order : Text → Text → Sent

-- `NowNs` is the argument `now`.
unfoldable pub place_request : InstrumentInfo → Signal → ℕ → OrderRequest
place_request info signal now = record {
  instrument = signal.instrument;
  side = if action_eqb signal.action Action.buy then Side.buy else Side.sell;
  order_type = signal.order_type;
  market_type = signal.market_type;
  position_side = signal.position_side;
  trade_mode = signal.trade_mode;
  size = format signal.volume info.volume_precision;
  price =
      if order_type_eqb signal.order_type OrderType.limit
      then format signal.price info.price_precision
      else [];
  target_currency = [];
  client_order_id = codes "cts" ++ to_string now;
}

module _ {D : Type 0} ⦃d : Double D⦄ where
  open d use {mul, lt}

  -- The currency and the amount that the order will lock; zero for an order that locks nothing.
  unfoldable pub locked_amount : InstrumentInfo → Signal → OrderRequest → Text × D
  locked_amount info signal request =
      if market_type_eqb signal.market_type MarketType.spot
      then (if side_eqb request.side Side.buy
          then (
            locked_currency signal.instrument Side.buy,
            mul (decode signal.price info.price_precision)
                (decode signal.volume info.volume_precision),
          )
          else if trade_mode_eqb request.trade_mode TradeMode.cash
          then (
            locked_currency signal.instrument Side.sell,
            decode signal.volume info.volume_precision,
          )
          else ([], nought))
      else ([], nought)

  -- A positive amount is noted under the order's client id.
  unfoldable pub reserve_amount : Signal → OrderRequest → Text → D → Option (ReservationInfo D)
  reserve_amount signal request currency amount =
      if lt nought amount
      then some (record {
        instrument = signal.instrument;
        currency = currency;
        amount = amount;
        side = request.side;
        trade_mode = request.trade_mode;
      })
      else none

  unfoldable pub reservation_of :
      InstrumentInfo → Signal → OrderRequest → Option (ReservationInfo D)
  unfolding locked_amount reserve_amount
  reservation_of info signal request =
      let locked = locked_amount info signal request in
      reserve_amount signal request locked.0 locked.1

  -- What the loop does with a signal: an unknown instrument throws before anything is sent.
  unfoldable pub dispatch :
      InstrumentRegistry → TradingEngine D → ℕ → Signal → TradingEngine D × Option Sent × Status
  unfolding place_request reservation_of
  dispatch registry e now signal =
      if action_eqb signal.action Action.cancel
      then (e, some (cancel_order signal.instrument signal.order_id), done)
      else elim (Registry.get registry signal.instrument) [
        | none ↦ (e, none, out_of_range)
        | some info ↦
            let request = place_request info signal now in
            elim (reservation_of info signal request) [
              | none ↦ (e, some (place_order request), done)
              | some reservation ↦ (
                record e {
                  client_order_id_to_reservation =
                      Map.assign request.client_order_id reservation
                        e.client_order_id_to_reservation;
                },
                some (place_order request),
                done,
              )
            ]
      ]

  -- One round: nothing happens on an empty ring.
  unfoldable pub dispatch_round :
      InstrumentRegistry
      → TradingEngine D
      → Ring Signal
      → ℕ
      → TradingEngine D × Ring Signal × Option Sent × Status
  unfolding dispatch
  dispatch_round registry e ring now =
      let (popped, signal, left) = shm_pop signal_capacity ring empty_signal in
      let (e', sent, status) = dispatch registry e now signal in
      if popped then (e', left, sent, status) else (e, left, none, done)
