-- ===== src/Defs/Structs.antt =====
-- The structs of sdk/include/defs.hpp that carry orders, positions and market data.
use crypto_trading_system.Prelude.{
  ℕ, ◌-◌, List, [], ◌∷◌, Text, ℤ, pos, nat_eqb, take, if◌then◌else◌,
}
use crypto_trading_system.Defs.Enums.{
  MarketType, Side, PosSide, Action, OrderType, TradeMode, OrderStatus,
}

abbrev pub Price : Type 0
Price = ℤ

abbrev pub Volume : Type 0
Volume = ℤ

-- What a C function reads of a byte sequence: it stops at the first zero byte.
abbrev pub c_str : Text → Text
c_str [] = []
c_str (b ∷ s) = if nat_eqb b 0 then [] else b ∷ c_str s

-- `strncpy(field, src, size - 1); field[size - 1] = '\0'`, the body of every `Set...` method.
unfoldable pub set_field : ℕ → Text → Text
set_field size src = take (size - 1) (c_str src)

pub record Ticker (D : Type 0) : Type 0 where
  pub instrument : Text
  pub market_type : MarketType
  pub last_price : Price
  pub last_volume : Volume
  pub bid_price : Price
  pub bid_volume : Volume
  pub ask_price : Price
  pub ask_volume : Volume
  pub open_24h : Price
  pub high_24h : Price
  pub low_24h : Price
  pub volume_24h : Volume
  pub volume_currency_24h : D

pub record Bbo : Type 0 where
  pub instrument : Text
  pub market_type : MarketType
  pub bid_price : Price
  pub bid_volume : Volume
  pub ask_price : Price
  pub ask_volume : Volume

pub record PriceLevel : Type 0 where
  pub price : Price
  pub volume : Volume
  pub order_count : ℤ

pub record Depth : Type 0 where
  pub instrument : Text
  pub market_type : MarketType
  pub ask_levels : ℕ
  pub bid_levels : ℕ
  pub asks : List PriceLevel
  pub bids : List PriceLevel

pub record Trade : Type 0 where
  pub instrument : Text
  pub trade_id : Text
  pub market_type : MarketType
  pub side : Side
  pub price : Price
  pub volume : Volume

pub record Signal : Type 0 where
  pub instrument : Text
  pub order_id : Text
  pub action : Action
  pub order_type : OrderType
  pub market_type : MarketType
  pub position_side : PosSide
  pub trade_mode : TradeMode
  pub price : Price
  pub volume : Volume

pub record ExecutionReport (D : Type 0) : Type 0 where
  pub instrument : Text
  pub order_id : Text
  pub status : OrderStatus
  pub side : Side
  pub market_type : MarketType
  pub position_side : PosSide
  pub trade_mode : TradeMode
  pub price : Price
  pub filled_volume : Volume
  pub total_volume : Volume
  pub avg_fill_price : D
  pub fee : D
  pub fee_currency : Text

pub record OrderRequest : Type 0 where
  pub instrument : Text
  pub side : Side
  pub order_type : OrderType
  pub market_type : MarketType
  pub position_side : PosSide
  pub trade_mode : TradeMode
  pub size : Text
  pub price : Text
  pub target_currency : Text
  pub client_order_id : Text

pub record Fill (D : Type 0) : Type 0 where
  pub instrument : Text
  pub order_id : Text
  pub trade_id : Text
  pub market_type : MarketType
  pub side : Side
  pub position_side : PosSide
  pub price : Price
  pub volume : Volume
  pub fee : D
  pub fee_currency : Text
  pub timestamp_ms : ℤ

pub record SwapPosition (D : Type 0) : Type 0 where
  pub instrument : Text
  pub position_side : PosSide
  pub contracts : D
  pub average_opening_price : D
  pub unrealized_profit_loss : D

pub record InstrumentInfo : Type 0 where
  pub instrument : Text
  pub price_precision : ℕ
  pub volume_precision : ℕ

-- `Signal signal{}`: every byte zero, so every enumeration at its first value.
abbrev pub empty_signal : Signal
empty_signal = record {
  instrument = [];
  order_id = [];
  action = Action.buy;
  order_type = OrderType.market;
  market_type = MarketType.spot;
  position_side = PosSide.net;
  trade_mode = TradeMode.cash;
  price = pos 0;
  volume = pos 0;
}

-- `ExecutionReport report{}`, for the zero of `double`.
abbrev pub empty_report : {D : Type 0} → D → ExecutionReport D
empty_report nought = record {
  instrument = [];
  order_id = [];
  status = OrderStatus.new;
  side = Side.buy;
  market_type = MarketType.spot;
  position_side = PosSide.net;
  trade_mode = TradeMode.cash;
  price = pos 0;
  filled_volume = pos 0;
  total_volume = pos 0;
  avg_fill_price = nought;
  fee = nought;
  fee_currency = [];
}
