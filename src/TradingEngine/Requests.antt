-- ===== src/TradingEngine/Requests.antt =====
-- The orders that the dispatcher of src/trading_engine/trading_engine.cpp sends for the signals of
-- sdk/src/strategy.cpp.
use crypto_trading_system.Prelude.{ℕ, ◌≡◌, sym, ap, ap₂, ◌∙◌, true, false, some, Text, [], arith}
use crypto_trading_system.Defs.{
  MarketType, Side, Action, OrderType, PosSide, TradeMode, Price, Volume, InstrumentInfo, Signal,
  OrderRequest, set_field,
}
use crypto_trading_system.Double.{Double, nought}
use crypto_trading_system.Registry
use crypto_trading_system.Registry.{InstrumentRegistry}
use crypto_trading_system.Currency.{extract_base, extract_quote, locked_currency}
use crypto_trading_system.Utils.{decode}
use crypto_trading_system.PositionManager.{Status, reserve_spot}
use crypto_trading_system.Strategy.{Strategy, order_signal, push_signal, emit_buy, emit_sell}
use crypto_trading_system.TradingEngine.State.{ReservationInfo}
use crypto_trading_system.TradingEngine.Dispatcher.{
  place_request, locked_amount, reserve_amount, reservation_of,
}

-- `EmitBuy` or `EmitSell`.
abbrev pub action_of : Side → Action
action_of Side.buy = Action.buy
action_of Side.sell = Action.sell

module _ {D : Type 0} ⦃d : Double D⦄ where
  abbrev pub emit :
      InstrumentRegistry
      → Strategy D
      → Side
      → Text
      → OrderType
      → Price
      → Volume
      → MarketType
      → PosSide
      → TradeMode
      → Strategy D × Status
  emit registry s Side.buy = emit_buy registry s
  emit registry s Side.sell = emit_sell registry s

  reserve_amount-parts :
      (signal : Signal) (request : OrderRequest) (currency : Text) (amount : D)
      (reservation : ReservationInfo D)
      → reserve_amount signal request currency amount ≡ some reservation
      → (d.lt nought amount ≡ true)
        × (currency ≡ reservation.currency)
        × (amount ≡ reservation.amount)
  unfolding reserve_amount
  reserve_amount-parts signal request currency amount reservation noted = ground arith

  unreserved :
      {A : Type 0} (signal : Signal) (request : OrderRequest) (reservation : ReservationInfo D)
      → d.lt nought nought ≡ false
      → reserve_amount signal request [] nought ≡ some reservation
      → A
  unfolding reserve_amount
  unreserved signal request reservation zero noted = ground arith

  -- The reservation that the dispatcher notes for an emitted order has the currency and the amount
  -- that the emission has reserved with the position manager, where the instrument's name fits the
  -- signal and no zero is below itself.
  pub reservation_of-emit :
      (registry : InstrumentRegistry) (s : Strategy D) (side : Side) (instrument : Text)
      (order_type : OrderType) (price : Price) (volume : Volume) (market_type : MarketType)
      (position_side : PosSide) (trade_mode : TradeMode) (info : InstrumentInfo) (now : ℕ)
      (reservation : ReservationInfo D)
      → Registry.get registry instrument ≡ some info
      → set_field 32 instrument ≡ instrument
      → d.lt nought nought ≡ false
      → let signal =
          order_signal
            (action_of side)
            instrument
            order_type
            price
            volume
            market_type
            position_side
            trade_mode in
        reservation_of info signal (place_request info signal now) ≡ some reservation
        → (emit registry s side instrument order_type price volume market_type position_side
            trade_mode).0.position_manager
          ≡ reserve_spot s.position_manager reservation.currency reservation.amount
  unfolding reservation_of locked_amount place_request order_signal emit_buy emit_sell push_signal
      locked_currency
  reservation_of-emit registry s Side.buy instrument order_type price volume MarketType.spot
        position_side trade_mode info now reservation k fits zero noted =
      let signal =
        order_signal (action_of Side.buy) instrument order_type price volume MarketType.spot
          position_side trade_mode in
      let (more, currency, amount) =
        reserve_amount-parts signal (place_request info signal now)
          (extract_quote (set_field 32 instrument))
          (d.mul (decode price info.price_precision) (decode volume info.volume_precision))
          reservation noted in
      rw k (ap₂ (reserve_spot s.position_manager) (ap extract_quote (sym fits) ∙ currency) amount)
  reservation_of-emit registry s Side.buy instrument order_type price volume MarketType.swap
        position_side trade_mode info now reservation k fits zero noted =
      let signal =
        order_signal (action_of Side.buy) instrument order_type price volume MarketType.swap
          position_side trade_mode in
      unreserved signal (place_request info signal now) reservation zero noted
  reservation_of-emit registry s Side.sell instrument order_type price volume MarketType.spot
        position_side TradeMode.cash info now reservation k fits zero noted =
      let signal =
        order_signal (action_of Side.sell) instrument order_type price volume MarketType.spot
          position_side TradeMode.cash in
      let (more, currency, amount) =
        reserve_amount-parts signal (place_request info signal now)
          (extract_base (set_field 32 instrument)) (decode volume info.volume_precision) reservation
          noted in
      rw k (ap₂ (reserve_spot s.position_manager) (ap extract_base (sym fits) ∙ currency) amount)
  reservation_of-emit registry s Side.sell instrument order_type price volume MarketType.spot
        position_side TradeMode.cross info now reservation k fits zero noted =
      let signal =
        order_signal (action_of Side.sell) instrument order_type price volume MarketType.spot
          position_side TradeMode.cross in
      unreserved signal (place_request info signal now) reservation zero noted
  reservation_of-emit registry s Side.sell instrument order_type price volume MarketType.spot
        position_side TradeMode.isolated info now reservation k fits zero noted =
      let signal =
        order_signal (action_of Side.sell) instrument order_type price volume MarketType.spot
          position_side TradeMode.isolated in
      unreserved signal (place_request info signal now) reservation zero noted
  reservation_of-emit registry s Side.sell instrument order_type price volume MarketType.swap
        position_side trade_mode info now reservation k fits zero noted =
      let signal =
        order_signal (action_of Side.sell) instrument order_type price volume MarketType.swap
          position_side trade_mode in
      unreserved signal (place_request info signal now) reservation zero noted
