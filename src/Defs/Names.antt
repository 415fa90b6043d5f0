-- ===== src/Defs/Names.antt =====
-- `ToString` of each enumeration, and `DetectMarketType`, of sdk/include/defs.hpp.
use crypto_trading_system.Prelude.{
  ◌-◌, ◌&&◌, Text, codes, ltb, length, text_eqb, if◌then◌else◌, drop,
}
use crypto_trading_system.Defs.Enums.{
  MarketType, Side, PosSide, Action, OrderType, TradeMode, OrderStatus,
}

unfoldable pub market_type_to_string : MarketType → Text
market_type_to_string MarketType.spot = codes "SPOT"
market_type_to_string MarketType.swap = codes "SWAP"

unfoldable pub side_to_string : Side → Text
side_to_string Side.buy = codes "BUY"
side_to_string Side.sell = codes "SELL"

unfoldable pub pos_side_to_string : PosSide → Text
pos_side_to_string PosSide.net = codes "NET"
pos_side_to_string PosSide.long = codes "LONG"
pos_side_to_string PosSide.short = codes "SHORT"

unfoldable pub action_to_string : Action → Text
action_to_string Action.buy = codes "BUY"
action_to_string Action.sell = codes "SELL"
action_to_string Action.cancel = codes "CANCEL"

unfoldable pub order_type_to_string : OrderType → Text
order_type_to_string OrderType.market = codes "MARKET"
order_type_to_string OrderType.limit = codes "LIMIT"

unfoldable pub trade_mode_to_string : TradeMode → Text
trade_mode_to_string TradeMode.cash = codes "CASH"
trade_mode_to_string TradeMode.cross = codes "CROSS"
trade_mode_to_string TradeMode.isolated = codes "ISOLATED"

unfoldable pub order_status_to_string : OrderStatus → Text
order_status_to_string OrderStatus.new = codes "NEW"
order_status_to_string OrderStatus.filled = codes "FILLED"
order_status_to_string OrderStatus.partially_filled = codes "PARTIALLY_FILLED"
order_status_to_string OrderStatus.cancelled = codes "CANCELLED"
order_status_to_string OrderStatus.cancel_failed = codes "CANCEL_FAILED"
order_status_to_string OrderStatus.rejected = codes "REJECTED"

abbrev pub swap_suffix : Text
swap_suffix = codes "-SWAP"

-- `instrument + len - 5` points at the last five characters.
unfoldable pub detect_market_type : Text → MarketType
detect_market_type instrument =
    let len = length instrument in
    if ltb 5 len && text_eqb (drop (len - 5) instrument) swap_suffix
    then MarketType.swap
    else MarketType.spot
