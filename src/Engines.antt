-- ===== src/Engines.antt =====
-- The two engines at the ends of the rings of market data: `QuotationEngine::Run` of
-- src/quotation_engine/quotation_engine.cpp, which pushes what it hears from the exchange, and
-- `StrategyEngine::Run` of src/strategy_engine/strategy_engine.cpp, which pops and calls its strategy.
pub mod Delivery
pub mod Streams
use crypto_trading_system.Prelude.{
  ℕ, [], ◌∷◌, ◌++◌, List, Bool, true, false, Option, none, some, Text, pos, if◌then◌else◌,
}
use crypto_trading_system.Defs.{
  MarketType, Side, Ticker, Bbo, Depth, Trade, ExecutionReport, empty_report,
}
use crypto_trading_system.Double.{Double, nought}
use crypto_trading_system.Exchange.{PublicEvent}
use crypto_trading_system.Okx.Messages.{Event}
use crypto_trading_system.Ring.{Ring, shm_push, shm_pop}

-- The rings of market data, with the capacities of sdk/include/defs.hpp.
pub record MarketRings (D : Type 0) : Type 0 where
  pub ticker_ring : Ring (Ticker D)
  pub bbo_ring : Ring Bbo
  pub depth_ring : Ring Depth
  pub trade_ring : Ring Trade

abbrev pub ticker_capacity : ℕ
ticker_capacity = 4096

abbrev pub bbo_capacity : ℕ
bbo_capacity = 8192

abbrev pub depth_capacity : ℕ
depth_capacity = 2048

abbrev pub trade_capacity : ℕ
trade_capacity = 8192

abbrev pub strategy_report_capacity : ℕ
strategy_report_capacity = 4096

-- The calls of `Subscribe`: every channel of every instrument.
abbrev pub subscribe_channels : Text → List Text → List PublicEvent
subscribe_channels instrument [] = []
subscribe_channels instrument (channel ∷ channels) =
    PublicEvent.subscribe channel instrument ∷ subscribe_channels instrument channels

unfoldable pub subscribe_all : List Text → List Text → List PublicEvent
subscribe_all [] channels = []
subscribe_all (instrument ∷ instruments) channels =
    subscribe_channels instrument channels ++ subscribe_all instruments channels

-- The variables before a pop: every byte is zero.
abbrev pub empty_ticker : {D : Type 0} ⦃d : Double D⦄ → Ticker D
empty_ticker = record {
  instrument = [];
  market_type = MarketType.spot;
  last_price = pos 0;
  last_volume = pos 0;
  bid_price = pos 0;
  bid_volume = pos 0;
  ask_price = pos 0;
  ask_volume = pos 0;
  open_24h = pos 0;
  high_24h = pos 0;
  low_24h = pos 0;
  volume_24h = pos 0;
  volume_currency_24h = nought;
}

abbrev pub empty_bbo : Bbo
empty_bbo = record {
  instrument = [];
  market_type = MarketType.spot;
  bid_price = pos 0;
  bid_volume = pos 0;
  ask_price = pos 0;
  ask_volume = pos 0;
}

abbrev pub empty_depth : Depth
empty_depth = record {
  instrument = [];
  market_type = MarketType.spot;
  ask_levels = 0;
  bid_levels = 0;
  asks = [];
  bids = [];
}

abbrev pub empty_trade : Trade
empty_trade = record {
  instrument = [];
  trade_id = [];
  market_type = MarketType.spot;
  side = Side.buy;
  price = pos 0;
  volume = pos 0;
}

-- A call of one of the strategy's handlers.
pub data Call (D : Type 0) : Type 0 where
  init : Text → Call D
  reconstruct : List (ExecutionReport D) → Call D
  on_ticker : Ticker D → Call D
  on_bbo : Bbo → Call D
  on_depth : Depth → Call D
  on_trade : Trade → Call D
  on_execution_report : ExecutionReport D → Call D
  on_timer : Call D

abbrev pub ring_left : {A : Type 0} → Bool × A × Ring A → Ring A
ring_left (found, x, ring) = ring

-- The rings that the strategy engine reads.
pub record StrategyRings (D : Type 0) : Type 0 where
  pub market : MarketRings D
  pub report_ring : Ring (ExecutionReport D)

module _ {D : Type 0} where
  -- The handlers of the quotation engine; the result of a push is not looked at. Its client has no
  -- handlers for orders and balances.
  unfoldable pub push_event : Event D → MarketRings D → MarketRings D
  push_event (Event.ticker ticker) m = record m {
    ticker_ring = (shm_push ticker_capacity m.ticker_ring ticker).1;
  }
  push_event (Event.bbo bbo) m = record m { bbo_ring = (shm_push bbo_capacity m.bbo_ring bbo).1 }
  push_event (Event.depth depth) m = record m {
    depth_ring = (shm_push depth_capacity m.depth_ring depth).1;
  }
  push_event (Event.trade trade) m = record m {
    trade_ring = (shm_push trade_capacity m.trade_ring trade).1;
  }
  push_event _ m = m

  unfoldable pub push_events : List (Event D) → MarketRings D → MarketRings D
  unfolding push_event
  push_events [] m = m
  push_events (event ∷ events) m = push_events events (push_event event m)

  -- What the strategy is called with for a pop.
  abbrev pub called : {A : Type 0} → (A → Call D) → Bool × A × Ring A → List (Call D)
  called make (true, x, ring) = make x ∷ []
  called make (false, x, ring) = []

module _ {D : Type 0} ⦃d : Double D⦄ where
  -- One round of the loop, and whether a second has passed since the last call of `OnTimer`.
  unfoldable pub poll_round : Bool → StrategyRings D → List (Call D) × StrategyRings D
  poll_round timer_is_due r =
      let ticker = shm_pop ticker_capacity r.market.ticker_ring empty_ticker in
      let bbo = shm_pop bbo_capacity r.market.bbo_ring empty_bbo in
      let depth = shm_pop depth_capacity r.market.depth_ring empty_depth in
      let trade = shm_pop trade_capacity r.market.trade_ring empty_trade in
      let report = shm_pop strategy_report_capacity r.report_ring (empty_report nought) in
      (
        called Call.on_ticker ticker
            ++ (called Call.on_bbo bbo
                ++ (called Call.on_depth depth
                    ++ (called Call.on_trade trade
                        ++ (called Call.on_execution_report report
                            ++ (if timer_is_due then Call.on_timer ∷ [] else []))))),
        record {
          market = record {
            ticker_ring = ring_left ticker;
            bbo_ring = ring_left bbo;
            depth_ring = ring_left depth;
            trade_ring = ring_left trade;
          };
          report_ring = ring_left report;
        },
      )

  -- The rounds until the engine or its strategy is stopped.
  unfoldable pub poll : List Bool → StrategyRings D → List (Call D) × StrategyRings D
  unfolding poll_round
  poll [] r = ([], r)
  poll (timer_is_due ∷ rounds) r =
      let (calls, left) = poll_round timer_is_due r in
      let (later, rest) = poll rounds left in (calls ++ later, rest)

  abbrev pub reconstruct_call : List (ExecutionReport D) → List (Call D)
  reconstruct_call [] = []
  reconstruct_call (order ∷ orders) = Call.reconstruct (order ∷ orders) ∷ []

  -- `StrategyEngine::Run`: without a strategy nothing is called.
  unfoldable pub run_strategy :
      Bool → Text → List (ExecutionReport D) → List Bool → StrategyRings D → List (Call D)
  unfolding poll
  run_strategy has_strategy params pending_orders rounds r =
      if has_strategy
      then Call.init params ∷ (reconstruct_call pending_orders ++ (poll rounds r).0)
      else []
