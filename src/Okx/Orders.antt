-- ===== src/Okx/Orders.antt =====
-- How src/clients/okx/okx.cpp reads an order and a fill of the exchange: the bodies of the loops of
-- `QueryPendingOrdersByType`, `QueryOrderById` and `QueryRecentFills`, and `DecodeOrderUpdate`.
use crypto_trading_system.Prelude.{
  Option, some, Text, codes, is_empty, pos, get_or_else, bind, if◌then◌else◌,
}
use crypto_trading_system.Defs.{
  MarketType, ExecutionReport, Fill, InstrumentInfo, c_str, empty_report, set_field,
  detect_market_type,
}
use crypto_trading_system.Double.{Double, nought}
use crypto_trading_system.Json.{Json, text_or_empty}
use crypto_trading_system.Registry
use crypto_trading_system.Registry.{InstrumentRegistry}
use crypto_trading_system.Utils.{encode}
use crypto_trading_system.TradingEngine.{PendingOrderInfo}
use crypto_trading_system.Okx.{
  okx_parse_side, okx_parse_pos_side, okx_parse_inst_type, okx_parse_order_state,
  okx_parse_trade_mode,
}

-- `word.empty() ? otherwise : word`
abbrev pub word_or : Text → Text → Text
word_or otherwise word = if is_empty word then otherwise else word

-- `double v = 0.0; (void)value[key].get_double_in_string().get(v);`
abbrev pub double_or_nought : {J D : Type 0} ⦃d : Double D⦄ → Json J D → Text → J → D
double_or_nought json key value = get_or_else nought (json.double_at key value)

module _ {J D : Type 0} ⦃d : Double D⦄ (json : Json J D) (registry : InstrumentRegistry) where
  -- The instrument of an order or a fill, cut to its field.
  abbrev pub instrument_of : J → Text
  instrument_of order = set_field 32 (text_or_empty json (codes "instId") order)

  -- The report that `QueryPendingOrdersByType` makes of an order; its fee is not read.
  unfoldable pub pending_report : MarketType → InstrumentInfo → J → ExecutionReport D
  pending_report market_type info order = record (empty_report nought) {
    instrument = set_field 32 (text_or_empty json (codes "instId") order);
    order_id = set_field 32 (text_or_empty json (codes "ordId") order);
    status = okx_parse_order_state (text_or_empty json (codes "state") order);
    side = okx_parse_side (word_or (codes "buy") (text_or_empty json (codes "side") order));
    market_type = market_type;
    position_side =
        okx_parse_pos_side (word_or (codes "net") (text_or_empty json (codes "posSide") order));
    trade_mode =
        okx_parse_trade_mode (word_or (codes "cash") (text_or_empty json (codes "tdMode") order));
    price = encode (double_or_nought json (codes "px") order) info.price_precision;
    filled_volume = encode (double_or_nought json (codes "accFillSz") order) info.volume_precision;
    total_volume = encode (double_or_nought json (codes "sz") order) info.volume_precision;
    avg_fill_price = double_or_nought json (codes "avgPx") order;
  }

  -- An order of `QueryPendingOrdersByType`; `none` where the instrument is not registered.
  unfoldable pub pending_order : Text → J → Option (PendingOrderInfo D)
  unfolding pending_report
  pending_order inst_type order = bind (Registry.find registry (instrument_of order)) λ info.
      some (record {
        report = pending_report (okx_parse_inst_type inst_type) info order;
        client_order_id = text_or_empty json (codes "clOrdId") order;
      })

  -- The report that `QueryOrderById` makes of an order.
  unfoldable pub queried_report : InstrumentInfo → J → ExecutionReport D
  queried_report info order = record (empty_report nought) {
    instrument = set_field 32 (text_or_empty json (codes "instId") order);
    order_id = set_field 32 (text_or_empty json (codes "ordId") order);
    status = okx_parse_order_state (text_or_empty json (codes "state") order);
    side = okx_parse_side (word_or (codes "buy") (text_or_empty json (codes "side") order));
    market_type = detect_market_type (c_str (text_or_empty json (codes "instId") order));
    position_side =
        okx_parse_pos_side (word_or (codes "net") (text_or_empty json (codes "posSide") order));
    trade_mode =
        okx_parse_trade_mode (word_or (codes "cash") (text_or_empty json (codes "tdMode") order));
    price = encode (double_or_nought json (codes "px") order) info.price_precision;
    filled_volume = encode (double_or_nought json (codes "accFillSz") order) info.volume_precision;
    total_volume = encode (double_or_nought json (codes "sz") order) info.volume_precision;
    avg_fill_price = double_or_nought json (codes "avgPx") order;
    fee = double_or_nought json (codes "fee") order;
    fee_currency = set_field 16 (text_or_empty json (codes "feeCcy") order);
  }

  -- The order that `QueryOrderById` gives, and its client order id.
  unfoldable pub queried_order : J → Option (ExecutionReport D × Text)
  unfolding queried_report
  queried_order order =
      bind (Registry.find registry (instrument_of order))
        λ info. some (queried_report info order, text_or_empty json (codes "clOrdId") order)

  -- The report that `DecodeOrderUpdate` makes of an order.
  unfoldable pub updated_report : InstrumentInfo → J → ExecutionReport D
  updated_report info order = record (empty_report nought) {
    instrument = set_field 32 (text_or_empty json (codes "instId") order);
    order_id = set_field 32 (text_or_empty json (codes "ordId") order);
    status = okx_parse_order_state (text_or_empty json (codes "state") order);
    side = okx_parse_side (word_or (codes "buy") (text_or_empty json (codes "side") order));
    market_type = detect_market_type (c_str (text_or_empty json (codes "instId") order));
    position_side =
        okx_parse_pos_side (word_or (codes "net") (text_or_empty json (codes "posSide") order));
    trade_mode =
        okx_parse_trade_mode (word_or (codes "cash") (text_or_empty json (codes "tdMode") order));
    price = encode (double_or_nought json (codes "px") order) info.price_precision;
    filled_volume = encode (double_or_nought json (codes "accFillSz") order) info.volume_precision;
    total_volume = encode (double_or_nought json (codes "sz") order) info.volume_precision;
    avg_fill_price = double_or_nought json (codes "avgPx") order;
    fee = double_or_nought json (codes "fillFee") order;
    fee_currency = set_field 16 (text_or_empty json (codes "feeCcy") order);
  }

  -- `DecodeOrderUpdate`: what it hands to `on_order_update_`, if anything.
  unfoldable pub decode_order_update : J → Option (ExecutionReport D × Text)
  unfolding updated_report
  decode_order_update order =
      bind (Registry.find registry (instrument_of order))
        λ info. some (updated_report info order, text_or_empty json (codes "clOrdId") order)

  -- A fill of `QueryRecentFills`.
  unfoldable pub read_fill : J → Option (Fill D)
  read_fill fill = bind (Registry.find registry (instrument_of fill)) λ info. some (record {
    instrument = instrument_of fill;
    order_id = set_field 32 (text_or_empty json (codes "ordId") fill);
    trade_id = set_field 32 (text_or_empty json (codes "tradeId") fill);
    market_type = okx_parse_inst_type (text_or_empty json (codes "instType") fill);
    side = okx_parse_side (word_or (codes "buy") (text_or_empty json (codes "side") fill));
    position_side =
        okx_parse_pos_side (word_or (codes "net") (text_or_empty json (codes "posSide") fill));
    price = encode (double_or_nought json (codes "fillPx") fill) info.price_precision;
    volume = encode (double_or_nought json (codes "fillSz") fill) info.volume_precision;
    fee = double_or_nought json (codes "fee") fill;
    fee_currency = set_field 16 (text_or_empty json (codes "feeCcy") fill);
    timestamp_ms = get_or_else (pos 0) (json.int_text_at (codes "ts") fill);
  })
