-- ===== src/Strategy/Emitted.antt =====
-- What `EmitBuy` and `EmitSell` of sdk/src/strategy.cpp leave when the ring of signals is full.
use crypto_trading_system.Prelude.{ℕ, ◌≡◌, ap, ◌∙◌, true, false, some, Text, text_eq, leb, arith}
use crypto_trading_system.Prelude.Map.{at_or-modify_self}
use crypto_trading_system.Defs.{
  MarketType, Side, OrderType, PosSide, TradeMode, Price, Volume, InstrumentInfo, set_field,
}
use crypto_trading_system.Double.{Double, nought}
use crypto_trading_system.Registry
use crypto_trading_system.Registry.{InstrumentRegistry}
use crypto_trading_system.Ring.{sub_u64, shm_push}
use crypto_trading_system.PositionManager.{PositionManager, effective_available_spot, reserve_spot}
use crypto_trading_system.PositionManager.{available, reserved, entry}
use crypto_trading_system.Strategy.{
  Strategy, signal_capacity, push_signal, order_signal, emit_buy, emit_sell,
}
use crypto_trading_system.TradingEngine.{ReservationInfo, place_request, reservation_of}
use crypto_trading_system.TradingEngine.Requests.{action_of, emit, reservation_of-emit}

module _ {D : Type 0} ⦃d : Double D⦄ where
  emit-ring :
      (registry : InstrumentRegistry) (s : Strategy D) (side : Side) (instrument : Text)
      (order_type : OrderType) (price : Price) (volume : Volume) (market_type : MarketType)
      (position_side : PosSide) (trade_mode : TradeMode) (info : InstrumentInfo)
      → Registry.get registry instrument ≡ some info
      → leb signal_capacity (sub_u64 s.signal_ring.tail s.signal_ring.head) ≡ true
      → (emit registry s side instrument order_type price volume market_type position_side
          trade_mode).0.signal_ring
        ≡ s.signal_ring
  unfolding emit_buy emit_sell push_signal shm_push
  emit-ring registry s Side.buy instrument order_type price volume market_type position_side
        trade_mode info k full =
      ground (arith, k, full)
  emit-ring registry s Side.sell instrument order_type price volume market_type position_side
        trade_mode info k full =
      ground (arith, k, full)

  effective-reserved :
      (m : PositionManager D) (c : Text) (x : D)
      → effective_available_spot (reserve_spot m c x) c
        ≡ d.sub (available m c) (d.add (reserved m c) x)
  unfolding effective_available_spot reserve_spot entry
  effective-reserved m c x =
      ap (d.sub (available m c)) (at_or-modify_self nought c (λ r. d.add r x) m.spot_reserved)

  -- `EmitBuy` or `EmitSell` while the ring of signals is full: the ring stays as it is, and yet the
  -- effective available amount falls by what the dispatcher would have noted as the order's
  -- reservation had it seen the signal, in the currency of that reservation. This is where the
  -- instrument is registered, its name fits the signal, and no zero is below itself.
  pub emit-full :
      (registry : InstrumentRegistry) (s : Strategy D) (side : Side) (instrument : Text)
      (order_type : OrderType) (price : Price) (volume : Volume) (market_type : MarketType)
      (position_side : PosSide) (trade_mode : TradeMode) (info : InstrumentInfo) (now : ℕ)
      (reservation : ReservationInfo D)
      → Registry.get registry instrument ≡ some info
      → set_field 32 instrument ≡ instrument
      → d.lt nought nought ≡ false
      → leb signal_capacity (sub_u64 s.signal_ring.tail s.signal_ring.head) ≡ true
      → let signal =
          order_signal
            (action_of side)
            instrument
            order_type
            price
            volume
            market_type
            position_side
            trade_mode in
        let c = reservation.currency in
        let s' =
          (emit registry s side instrument order_type price volume market_type position_side
            trade_mode).0 in
        reservation_of info signal (place_request info signal now) ≡ some reservation
        → (s'.signal_ring ≡ s.signal_ring)
          × (effective_available_spot s'.position_manager c
              ≡ d.sub
                  (available s.position_manager c)
                  (d.add (reserved s.position_manager c) reservation.amount))
  emit-full registry s side instrument order_type price volume market_type position_side trade_mode
        info now reservation k fits zero full noted =
      (
        emit-ring registry s side instrument order_type price volume market_type position_side
            trade_mode info k full,
        ap (λ m. effective_available_spot m reservation.currency)
              (reservation_of-emit registry s side instrument order_type price volume market_type
                position_side trade_mode info now reservation k fits zero noted)
            ∙ effective-reserved s.position_manager reservation.currency reservation.amount,
      )
