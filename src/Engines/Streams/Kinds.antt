-- ===== src/Engines/Streams/Kinds.antt =====
-- The four kinds of market data, each with its ring.
use crypto_trading_system.Prelude.{◌≡◌, refl, ◌∙◌, Bool, arith}
use crypto_trading_system.Defs.{Ticker, Bbo, Depth, Trade}
use crypto_trading_system.Double.{Double}
use crypto_trading_system.Okx.Messages.{Event}
use crypto_trading_system.Ring.{shm_pop}
use crypto_trading_system.Ring.Feed.{popped, push_all}
use crypto_trading_system.Engines.{
  MarketRings, StrategyRings, ticker_capacity, bbo_capacity, depth_capacity, trade_capacity,
  empty_ticker, empty_bbo, empty_depth, empty_trade, push_event, poll_round,
}
use crypto_trading_system.Engines.Streams.{
  gather, Stream, kept-found, gather-poll_round, ticker_heard, bbo_heard, depth_heard, trade_heard,
  ticker_called, bbo_called, depth_called, trade_called,
}

module _ {D : Type 0} ⦃d : Double D⦄ where
  pub push_event-ticker :
      (e : Event D) (m : MarketRings D)
      → (push_event e m).ticker_ring ≡ push_all ticker_capacity (ticker_heard e) m.ticker_ring
  unfolding push_event
  push_event-ticker e m = ground arith

  pub poll_round-ticker :
      (timer_is_due : Bool) (r : StrategyRings D)
      → (poll_round timer_is_due r).1.market.ticker_ring
        ≡ (shm_pop ticker_capacity r.market.ticker_ring empty_ticker).2
  unfolding poll_round
  poll_round-ticker timer_is_due r = refl

  pub called-ticker :
      (timer_is_due : Bool) (r : StrategyRings D)
      → gather ticker_called (poll_round timer_is_due r).0
        ≡ popped (shm_pop ticker_capacity r.market.ticker_ring empty_ticker)
  called-ticker timer_is_due r =
      gather-poll_round ticker_called timer_is_due r
      ∙ kept-found _ (shm_pop ticker_capacity r.market.ticker_ring empty_ticker).0

  abbrev pub tickers : Stream D (Ticker D)
  tickers = record {
    capacity = ticker_capacity;
    blank = empty_ticker;
    ring = λ r. r.market.ticker_ring;
    of_event = ticker_heard;
    of_call = ticker_called;
    ring-push_event = λ e r. push_event-ticker e r.market;
    ring-poll_round = poll_round-ticker;
    calls-poll_round = called-ticker;
  }

  pub push_event-bbo :
      (e : Event D) (m : MarketRings D)
      → (push_event e m).bbo_ring ≡ push_all bbo_capacity (bbo_heard e) m.bbo_ring
  unfolding push_event
  push_event-bbo e m = ground arith

  pub poll_round-bbo :
      (timer_is_due : Bool) (r : StrategyRings D)
      → (poll_round timer_is_due r).1.market.bbo_ring
        ≡ (shm_pop bbo_capacity r.market.bbo_ring empty_bbo).2
  unfolding poll_round
  poll_round-bbo timer_is_due r = refl

  pub called-bbo :
      (timer_is_due : Bool) (r : StrategyRings D)
      → gather bbo_called (poll_round timer_is_due r).0
        ≡ popped (shm_pop bbo_capacity r.market.bbo_ring empty_bbo)
  called-bbo timer_is_due r =
      gather-poll_round bbo_called timer_is_due r
      ∙ kept-found _ (shm_pop bbo_capacity r.market.bbo_ring empty_bbo).0

  abbrev pub bbos : Stream D Bbo
  bbos = record {
    capacity = bbo_capacity;
    blank = empty_bbo;
    ring = λ r. r.market.bbo_ring;
    of_event = bbo_heard;
    of_call = bbo_called;
    ring-push_event = λ e r. push_event-bbo e r.market;
    ring-poll_round = poll_round-bbo;
    calls-poll_round = called-bbo;
  }

  pub push_event-depth :
      (e : Event D) (m : MarketRings D)
      → (push_event e m).depth_ring ≡ push_all depth_capacity (depth_heard e) m.depth_ring
  unfolding push_event
  push_event-depth e m = ground arith

  pub poll_round-depth :
      (timer_is_due : Bool) (r : StrategyRings D)
      → (poll_round timer_is_due r).1.market.depth_ring
        ≡ (shm_pop depth_capacity r.market.depth_ring empty_depth).2
  unfolding poll_round
  poll_round-depth timer_is_due r = refl

  pub called-depth :
      (timer_is_due : Bool) (r : StrategyRings D)
      → gather depth_called (poll_round timer_is_due r).0
        ≡ popped (shm_pop depth_capacity r.market.depth_ring empty_depth)
  called-depth timer_is_due r =
      gather-poll_round depth_called timer_is_due r
      ∙ kept-found _ (shm_pop depth_capacity r.market.depth_ring empty_depth).0

  abbrev pub depths : Stream D Depth
  depths = record {
    capacity = depth_capacity;
    blank = empty_depth;
    ring = λ r. r.market.depth_ring;
    of_event = depth_heard;
    of_call = depth_called;
    ring-push_event = λ e r. push_event-depth e r.market;
    ring-poll_round = poll_round-depth;
    calls-poll_round = called-depth;
  }

  pub push_event-trade :
      (e : Event D) (m : MarketRings D)
      → (push_event e m).trade_ring ≡ push_all trade_capacity (trade_heard e) m.trade_ring
  unfolding push_event
  push_event-trade e m = ground arith

  pub poll_round-trade :
      (timer_is_due : Bool) (r : StrategyRings D)
      → (poll_round timer_is_due r).1.market.trade_ring
        ≡ (shm_pop trade_capacity r.market.trade_ring empty_trade).2
  unfolding poll_round
  poll_round-trade timer_is_due r = refl

  pub called-trade :
      (timer_is_due : Bool) (r : StrategyRings D)
      → gather trade_called (poll_round timer_is_due r).0
        ≡ popped (shm_pop trade_capacity r.market.trade_ring empty_trade)
  called-trade timer_is_due r =
      gather-poll_round trade_called timer_is_due r
      ∙ kept-found _ (shm_pop trade_capacity r.market.trade_ring empty_trade).0

  abbrev pub trades : Stream D Trade
  trades = record {
    capacity = trade_capacity;
    blank = empty_trade;
    ring = λ r. r.market.trade_ring;
    of_event = trade_heard;
    of_call = trade_called;
    ring-push_event = λ e r. push_event-trade e r.market;
    ring-poll_round = poll_round-trade;
    calls-poll_round = called-trade;
  }
