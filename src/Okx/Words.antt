-- ===== src/Okx/Words.antt =====
-- The tables of src/clients/okx/okx.hpp against each other.
use crypto_trading_system.Prelude.{◌≡◌, refl, text_eqb}
use crypto_trading_system.Prelude.Map
use crypto_trading_system.Defs.{MarketType, Side, PosSide, TradeMode}
use crypto_trading_system.Okx.{
  okx_side, okx_pos_side, okx_trade_mode, okx_inst_type, okx_parse_side, okx_parse_pos_side,
  okx_parse_inst_type, okx_parse_trade_mode,
}

parse-side : (s : Side) → okx_parse_side (okx_side s) ≡ s
unfolding okx_side okx_parse_side Map.find text_eqb
parse-side Side.buy = refl
parse-side Side.sell = refl

parse-pos_side : (s : PosSide) → okx_parse_pos_side (okx_pos_side s) ≡ s
unfolding okx_pos_side okx_parse_pos_side Map.find text_eqb
parse-pos_side PosSide.net = refl
parse-pos_side PosSide.long = refl
parse-pos_side PosSide.short = refl

parse-trade_mode : (m : TradeMode) → okx_parse_trade_mode (okx_trade_mode m) ≡ m
unfolding okx_trade_mode okx_parse_trade_mode Map.find text_eqb
parse-trade_mode TradeMode.cash = refl
parse-trade_mode TradeMode.cross = refl
parse-trade_mode TradeMode.isolated = refl

parse-inst_type : (t : MarketType) → okx_parse_inst_type (okx_inst_type t) ≡ t
unfolding okx_inst_type okx_parse_inst_type Map.find text_eqb
parse-inst_type MarketType.spot = refl
parse-inst_type MarketType.swap = refl

-- The word that an order's message says for its side, position side, trade mode and instrument type is
-- read back as the same value.
pub words_read_back :
    (s : Side) (p : PosSide) (m : TradeMode) (t : MarketType)
    → (okx_parse_side (okx_side s) ≡ s)
      × (okx_parse_pos_side (okx_pos_side p) ≡ p)
      × (okx_parse_trade_mode (okx_trade_mode m) ≡ m)
      × (okx_parse_inst_type (okx_inst_type t) ≡ t)
words_read_back s p m t = (parse-side s, parse-pos_side p, parse-trade_mode m, parse-inst_type t)
