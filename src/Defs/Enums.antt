-- ===== src/Defs/Enums.antt =====
-- The enumerations of sdk/include/defs.hpp.
use crypto_trading_system.Prelude.{◌≡◌, ◌↔◌, Bool, true, false, arith, Eq}

pub data MarketType : Type 0 where
  spot : MarketType
  swap : MarketType

pub data Side : Type 0 where
  buy : Side
  sell : Side

pub data PosSide : Type 0 where
  net : PosSide
  long : PosSide
  short : PosSide

pub data Action : Type 0 where
  buy : Action
  sell : Action
  cancel : Action

pub data OrderType : Type 0 where
  market : OrderType
  limit : OrderType

pub data TradeMode : Type 0 where
  cash : TradeMode
  cross : TradeMode
  isolated : TradeMode

pub data OrderStatus : Type 0 where
  new : OrderStatus
  filled : OrderStatus
  partially_filled : OrderStatus
  cancelled : OrderStatus
  cancel_failed : OrderStatus
  rejected : OrderStatus

-- `==` of the enumerations that the code compares or uses as keys.
abbrev pub market_type_eqb : MarketType → MarketType → Bool
market_type_eqb MarketType.spot MarketType.spot = true
market_type_eqb MarketType.swap MarketType.swap = true
market_type_eqb _ _ = false

abbrev pub action_eqb : Action → Action → Bool
action_eqb Action.buy Action.buy = true
action_eqb Action.sell Action.sell = true
action_eqb Action.cancel Action.cancel = true
action_eqb _ _ = false

abbrev pub order_type_eqb : OrderType → OrderType → Bool
order_type_eqb OrderType.market OrderType.market = true
order_type_eqb OrderType.limit OrderType.limit = true
order_type_eqb _ _ = false

abbrev pub side_eqb : Side → Side → Bool
side_eqb Side.buy Side.buy = true
side_eqb Side.sell Side.sell = true
side_eqb _ _ = false

abbrev pub pos_side_eqb : PosSide → PosSide → Bool
pos_side_eqb PosSide.net PosSide.net = true
pos_side_eqb PosSide.long PosSide.long = true
pos_side_eqb PosSide.short PosSide.short = true
pos_side_eqb _ _ = false

abbrev pub trade_mode_eqb : TradeMode → TradeMode → Bool
trade_mode_eqb TradeMode.cash TradeMode.cash = true
trade_mode_eqb TradeMode.cross TradeMode.cross = true
trade_mode_eqb TradeMode.isolated TradeMode.isolated = true
trade_mode_eqb _ _ = false

abbrev pub order_status_eqb : OrderStatus → OrderStatus → Bool
order_status_eqb OrderStatus.new OrderStatus.new = true
order_status_eqb OrderStatus.filled OrderStatus.filled = true
order_status_eqb OrderStatus.partially_filled OrderStatus.partially_filled = true
order_status_eqb OrderStatus.cancelled OrderStatus.cancelled = true
order_status_eqb OrderStatus.cancel_failed OrderStatus.cancel_failed = true
order_status_eqb OrderStatus.rejected OrderStatus.rejected = true
order_status_eqb _ _ = false

pub side_eqb_iff : (a b : Side) → (side_eqb a b ≡ true) ↔ (a ≡ b)
side_eqb_iff a b = ground arith

pub pos_side_eqb_iff : (a b : PosSide) → (pos_side_eqb a b ≡ true) ↔ (a ≡ b)
pos_side_eqb_iff a b = ground arith

pub market_type_eqb_iff : (a b : MarketType) → (market_type_eqb a b ≡ true) ↔ (a ≡ b)
market_type_eqb_iff a b = ground arith

pub trade_mode_eqb_iff : (a b : TradeMode) → (trade_mode_eqb a b ≡ true) ↔ (a ≡ b)
trade_mode_eqb_iff a b = ground arith

pub order_status_eqb_iff : (a b : OrderStatus) → (order_status_eqb a b ≡ true) ↔ (a ≡ b)
order_status_eqb_iff a b = ground arith

instance abbrev pub side_eq : Eq Side
side_eq = record { beq = side_eqb; beq_iff = side_eqb_iff }

instance abbrev pub pos_side_eq : Eq PosSide
pos_side_eq = record { beq = pos_side_eqb; beq_iff = pos_side_eqb_iff }

instance abbrev pub market_type_eq : Eq MarketType
market_type_eq = record { beq = market_type_eqb; beq_iff = market_type_eqb_iff }

instance abbrev pub trade_mode_eq : Eq TradeMode
trade_mode_eq = record { beq = trade_mode_eqb; beq_iff = trade_mode_eqb_iff }

instance abbrev pub order_status_eq : Eq OrderStatus
order_status_eq = record { beq = order_status_eqb; beq_iff = order_status_eqb_iff }
