-- ===== src/Okx.antt =====
-- What src/clients/okx/okx.hpp and okx.cpp say to the exchange and read of its words: the tables of
-- names, the messages for an order and its cancellation, and the report that is made of an order the
-- exchange refuses. Reading JSON is the library simdjson's; what it reads is an argument.
pub mod Accounts
pub mod Market
pub mod Messages
pub mod Orders
pub mod Paging
pub mod Queries
pub mod Replies
pub mod Words
pub mod Refused
use crypto_trading_system.Prelude.{
  ℕ, List, [], ◌∷◌, ◌++◌, Bool, true, false, ◌&&◌, Option, none, some, Text, text_eq, codes,
  is_empty, ℤ, pos, get_or_else, ◌==◌, if◌then◌else◌,
}
use crypto_trading_system.Prelude.Map
use crypto_trading_system.Prelude.Map.{Map}
use crypto_trading_system.Defs.{
  MarketType, Side, PosSide, OrderType, TradeMode, OrderStatus, OrderRequest, ExecutionReport,
  InstrumentInfo, empty_report, set_field, side_eqb, order_type_eqb, market_type_eqb,
}
use crypto_trading_system.Double.{Double, nought}
use crypto_trading_system.Registry
use crypto_trading_system.Registry.{InstrumentRegistry}
use crypto_trading_system.Utils.{encode, to_string, to_string_ℤ}

-- `kOkxSide`, `kOkxPosSide`, `kOkxOrderType`, `kOkxTradeMode` and `kOkxInstType`.
unfoldable pub okx_side : Side → Text
okx_side Side.buy = codes "buy"
okx_side Side.sell = codes "sell"

unfoldable pub okx_pos_side : PosSide → Text
okx_pos_side PosSide.net = codes "net"
okx_pos_side PosSide.long = codes "long"
okx_pos_side PosSide.short = codes "short"

unfoldable pub okx_order_type : OrderType → Text
okx_order_type OrderType.market = codes "market"
okx_order_type OrderType.limit = codes "limit"

unfoldable pub okx_trade_mode : TradeMode → Text
okx_trade_mode TradeMode.cash = codes "cash"
okx_trade_mode TradeMode.cross = codes "cross"
okx_trade_mode TradeMode.isolated = codes "isolated"

unfoldable pub okx_inst_type : MarketType → Text
okx_inst_type MarketType.spot = codes "SPOT"
okx_inst_type MarketType.swap = codes "SWAP"

-- `kOkxSideEnum`, `kOkxPosSideEnum`, `kOkxInstTypeEnum`, `kOkxOrderStateEnum` and
-- `kOkxTradeModeEnum`.
abbrev pub okx_side_enum : Map Text Side
okx_side_enum = (codes "buy", Side.buy) ∷ (codes "sell", Side.sell) ∷ []

abbrev pub okx_pos_side_enum : Map Text PosSide
okx_pos_side_enum =
    (codes "net", PosSide.net) ∷ (codes "long", PosSide.long) ∷ (codes "short", PosSide.short) ∷ []

abbrev pub okx_inst_type_enum : Map Text MarketType
okx_inst_type_enum = (codes "SPOT", MarketType.spot) ∷ (codes "SWAP", MarketType.swap) ∷ []

abbrev pub okx_order_state_enum : Map Text OrderStatus
okx_order_state_enum =
    (codes "filled", OrderStatus.filled)
    ∷ (codes "partially_filled", OrderStatus.partially_filled)
    ∷ (codes "canceled", OrderStatus.cancelled)
    ∷ (codes "live", OrderStatus.new)
    ∷ []

abbrev pub okx_trade_mode_enum : Map Text TradeMode
okx_trade_mode_enum =
    (codes "cash", TradeMode.cash)
    ∷ (codes "cross", TradeMode.cross)
    ∷ (codes "isolated", TradeMode.isolated)
    ∷ []

unfoldable pub okx_parse_side : Text → Side
okx_parse_side s = get_or_else Side.buy (Map.find s okx_side_enum)

unfoldable pub okx_parse_pos_side : Text → PosSide
okx_parse_pos_side s = get_or_else PosSide.net (Map.find s okx_pos_side_enum)

unfoldable pub okx_parse_inst_type : Text → MarketType
okx_parse_inst_type s = get_or_else MarketType.spot (Map.find s okx_inst_type_enum)

unfoldable pub okx_parse_order_state : Text → OrderStatus
okx_parse_order_state s = get_or_else OrderStatus.rejected (Map.find s okx_order_state_enum)

unfoldable pub okx_parse_trade_mode : Text → TradeMode
okx_parse_trade_mode s = get_or_else TradeMode.cash (Map.find s okx_trade_mode_enum)

-- `"name":"value"` behind a comma.
abbrev pub field : Text → Text → Text
field name value = codes ",\"" ++ name ++ codes "\":\"" ++ value ++ codes "\""

-- `BuildOrderMessage`: the message, for the id that `NowNs` gives and the client's codes of
-- instruments. The request is kept under the id until the exchange has answered.
unfoldable pub order_message : Map Text ℤ → Text → OrderRequest → Text
unfolding okx_side okx_order_type okx_trade_mode okx_pos_side to_string_ℤ
order_message inst_id_codes id req =
    codes "{\"id\":\""
    ++ id
    ++ codes "\",\"op\":\"order\",\"args\":[{\"instIdCode\":"
    ++ to_string_ℤ (Map.at_or (pos 0) req.instrument inst_id_codes)
    ++ field (codes "side") (okx_side req.side)
    ++ field (codes "ordType") (okx_order_type req.order_type)
    ++ field (codes "sz") req.size
    ++ field (codes "tdMode") (okx_trade_mode req.trade_mode)
    ++ (if market_type_eqb req.market_type MarketType.swap
        then field (codes "posSide") (okx_pos_side req.position_side)
        else if order_type_eqb req.order_type OrderType.market && side_eqb req.side Side.buy
        then field (codes "tgtCcy")
            (if is_empty req.target_currency then codes "quote_ccy" else req.target_currency)
        else [])
    ++ (if order_type_eqb req.order_type OrderType.limit
        then (if is_empty req.price then [] else field (codes "px") req.price)
        else [])
    ++ (if is_empty req.client_order_id then [] else field (codes "clOrdId") req.client_order_id)
    ++ codes "}]}"

unfoldable pub build_order_message :
    Map Text ℤ → Map Text OrderRequest → ℕ → OrderRequest → Text × Map Text OrderRequest
unfolding order_message
build_order_message inst_id_codes pending_ws_ops now req =
    let id = to_string now in (order_message inst_id_codes id req, Map.assign id req pending_ws_ops)

unfoldable pub build_cancel_order_message : Map Text ℤ → ℕ → Text → Text → Text
build_cancel_order_message inst_id_codes now instrument order_id =
    codes "{\"id\":\""
    ++ to_string now
    ++ codes "\",\"op\":\"cancel-order\",\"args\":[{\"instIdCode\":"
    ++ to_string_ℤ (Map.at_or (pos 0) instrument inst_id_codes)
    ++ field (codes "ordId") order_id
    ++ codes "}]}"

abbrev pub code_is_ok : Text → Bool
code_is_ok code = code == codes "0"

abbrev pub precision_of : (InstrumentInfo → ℕ) → InstrumentRegistry → Text → Option ℕ
precision_of precision registry instrument = elim (Registry.find registry instrument) [
  | none ↦ none
  | some info ↦ some (precision info)
]

module _ {D : Type 0} ⦃d : Double D⦄ where
  -- `Encode(std::stod(text), precision)`, zero for no text or an unknown instrument.
  abbrev pub encode_text : (Text → D) → Option ℕ → Text → ℤ
  encode_text stod none text = pos 0
  encode_text stod (some precision) text =
      if is_empty text then pos 0 else encode (stod text) precision

  -- The report that `OnPrivateMessage` makes of a request whose operation failed.
  unfoldable pub refused_report : InstrumentRegistry → (Text → D) → OrderRequest → ExecutionReport D
  refused_report registry stod req = record (empty_report nought) {
    instrument = set_field 32 req.instrument;
    status = OrderStatus.rejected;
    side = req.side;
    market_type = req.market_type;
    position_side = req.position_side;
    price =
        encode_text stod (precision_of (λ i. i.price_precision) registry req.instrument) req.price;
    total_volume =
        encode_text stod (precision_of (λ i. i.volume_precision) registry req.instrument) req.size;
  }

  -- The branch of `OnPrivateMessage` for an answer to an order: the operation's code and id, the
  -- pending requests, and what is handed to `on_order_update_`, if anything.
  unfoldable pub on_order_op :
      InstrumentRegistry
      → (Text → D)
      → Map Text OrderRequest
      → Text
      → Text
      → Map Text OrderRequest × Option (ExecutionReport D × Text)
  unfolding refused_report
  on_order_op registry stod pending_ws_ops code id =
      if is_empty id
      then (pending_ws_ops, none)
      else if code_is_ok code
      then (Map.erase id pending_ws_ops, none)
      else elim (Map.find id pending_ws_ops) [
        | none ↦ (pending_ws_ops, none)
        | some req ↦ (
          Map.erase id pending_ws_ops,
          some (refused_report registry stod req, req.client_order_id),
        )
      ]
