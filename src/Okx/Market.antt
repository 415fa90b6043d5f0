-- ===== src/Okx/Market.antt =====
-- The decoders of market data of src/clients/okx/okx.cpp: `DecodeTicker`, `DecodeBBO`, `DecodeDepth`
-- and `DecodeTrade`. `none` is the exception of `Get` for an instrument that is not registered.
pub mod Bounds
pub mod Stale
use crypto_trading_system.Prelude.{
  ℕ, zero, suc, ◌+◌, ◌%◌, ◌^◌, ◌-◌, [], ◌∷◌, ◌++◌, List, Option, none, some, Text, codes, ℤ, pos,
  negsuc, ltb, leb, length, take, get_or_else, bind, if◌then◌else◌,
}
use crypto_trading_system.Prelude.Int.{sub_ℕ}
use crypto_trading_system.Defs.{
  Ticker, Bbo, PriceLevel, Depth, Trade, InstrumentInfo, c_str, set_field, detect_market_type,
}
use crypto_trading_system.Double.{Double, nought}
use crypto_trading_system.Json.{Json, text_or_empty, elements_at}
use crypto_trading_system.Registry
use crypto_trading_system.Registry.{InstrumentRegistry}
use crypto_trading_system.Utils.{encode}
use crypto_trading_system.Okx.{okx_parse_side}
use crypto_trading_system.Okx.Orders.{word_or}

-- `MAX_DEPTH_LEVELS`
abbrev pub max_depth_levels : ℕ
max_depth_levels = 5

abbrev pub empty_level : PriceLevel
empty_level = record { price = pos 0; volume = pos 0; order_count = pos 0 }

-- `static_cast<int>` of a 64-bit count.
abbrev pub int_of_count : ℕ → ℤ
int_of_count n = let low = n % 2 ^ 32 in if ltb low (2 ^ 31) then pos low else sub_ℕ low (2 ^ 32)

-- The first element of a list of levels, if it is an array.
abbrev pub first_array : {J D : Type 0} → Json J D → List (Option J) → Option (List (Option J))
first_array json (some level ∷ levels) = json.as_array level
first_array json _ = none

module _ {J D : Type 0} ⦃d : Double D⦄ (json : Json J D) (registry : InstrumentRegistry) where
  -- `(void)data[key].get_double_in_string().get(value);` on a `value` that keeps what it held.
  abbrev pub reread : D → Text → J → D
  reread value key data_value = get_or_else value (json.double_at key data_value)

  unfoldable pub read_ticker : InstrumentInfo → Text → J → Ticker D
  read_ticker info inst_id ticker =
      let last = reread nought (codes "last") ticker in
      let last_sz = reread last (codes "lastSz") ticker in
      let bid_px = reread last_sz (codes "bidPx") ticker in
      let bid_sz = reread bid_px (codes "bidSz") ticker in
      let ask_px = reread bid_sz (codes "askPx") ticker in
      let ask_sz = reread ask_px (codes "askSz") ticker in
      let open_24h = reread ask_sz (codes "open24h") ticker in
      let high_24h = reread open_24h (codes "high24h") ticker in
      let low_24h = reread high_24h (codes "low24h") ticker in
      let vol_24h = reread low_24h (codes "vol24h") ticker in
      record {
        instrument = set_field 32 inst_id;
        market_type = detect_market_type (c_str inst_id);
        last_price = encode last info.price_precision;
        last_volume = encode last_sz info.volume_precision;
        bid_price = encode bid_px info.price_precision;
        bid_volume = encode bid_sz info.volume_precision;
        ask_price = encode ask_px info.price_precision;
        ask_volume = encode ask_sz info.volume_precision;
        open_24h = encode open_24h info.price_precision;
        high_24h = encode high_24h info.price_precision;
        low_24h = encode low_24h info.price_precision;
        volume_24h = encode vol_24h info.volume_precision;
        volume_currency_24h = reread nought (codes "volCcy24h") ticker;
      }

  unfoldable pub decode_ticker : Text → J → Option (Ticker D)
  unfolding read_ticker
  decode_ticker inst_id ticker =
      bind (Registry.get registry (set_field 32 inst_id))
        λ info. some (read_ticker info inst_id ticker)

  -- `elem.get_double_in_string().get(value)` of an element that may be an error.
  abbrev pub reread_element : D → Option J → D
  reread_element value element = get_or_else value (bind element json.as_double)

  abbrev pub count_of : Option J → ℤ
  count_of element = int_of_count (get_or_else 0 (bind element json.as_count))

  abbrev pub read_count : List (Option J) → PriceLevel → PriceLevel
  read_count (skipped ∷ count ∷ elements) level = record level { order_count = count_of count }
  read_count _ level = level

  abbrev pub read_volume : InstrumentInfo → D → List (Option J) → PriceLevel → PriceLevel
  read_volume info price [] level = level
  read_volume info price (sz ∷ elements) level =
      read_count elements
        (record level { volume = encode (reread_element price sz) info.volume_precision })

  -- The elements of a level: price, volume, one that is not read, and the number of orders. What is
  -- missing stays as it is.
  unfoldable pub read_level : InstrumentInfo → List (Option J) → PriceLevel → PriceLevel
  read_level info [] level = level
  read_level info (px ∷ elements) level =
      let price = reread_element nought px in
      let priced = record level { price = encode price info.price_precision } in
      read_volume info price elements priced

  -- What a level adds to its side.
  abbrev pub level_of : InstrumentInfo → Option (List (Option J)) → List PriceLevel
  level_of info none = []
  level_of info (some elements) = read_level info elements empty_level ∷ []

  -- The loop of `DecodeDepth` over the levels of one side: one that is not an array is passed over.
  unfoldable pub read_levels : InstrumentInfo → List (Option J) → List PriceLevel → List PriceLevel
  unfolding read_level
  read_levels info [] levels = levels
  read_levels info (level ∷ rest) levels =
      if leb max_depth_levels (length levels)
      then levels
      else read_levels info rest (levels ++ level_of info (bind level json.as_array))

  unfoldable pub decode_depth : Text → J → Option Depth
  unfolding read_levels
  decode_depth inst_id depth = bind (Registry.get registry (set_field 32 inst_id)) λ info.
      let asks = read_levels info (elements_at json (codes "asks") depth) [] in
      let bids = read_levels info (elements_at json (codes "bids") depth) [] in
      some (record {
        instrument = set_field 32 inst_id;
        market_type = detect_market_type (c_str inst_id);
        ask_levels = length asks;
        bid_levels = length bids;
        asks = asks;
        bids = bids;
      })

  -- The first level of one side of `DecodeBBO`; its price and volume are zero where there is none.
  unfoldable pub best_level : InstrumentInfo → Text → J → PriceLevel
  unfolding read_level
  best_level info side bbo = elim (first_array json (elements_at json side bbo)) [
    | none ↦ empty_level
    | some elements ↦ read_level info (take 2 elements) empty_level
  ]

  unfoldable pub decode_bbo : Text → J → Option Bbo
  unfolding best_level
  decode_bbo inst_id bbo = bind (Registry.get registry (set_field 32 inst_id)) λ info.
      let bid = best_level info (codes "bids") bbo in
      let ask = best_level info (codes "asks") bbo in
      some (record {
        instrument = set_field 32 inst_id;
        market_type = detect_market_type (c_str inst_id);
        bid_price = bid.price;
        bid_volume = bid.volume;
        ask_price = ask.price;
        ask_volume = ask.volume;
      })

  -- The trade's id is copied by its length, cut to its field.
  unfoldable pub decode_trade : Text → J → Option Trade
  decode_trade inst_id trade = bind (Registry.get registry (set_field 32 inst_id)) λ info.
      let px = reread nought (codes "px") trade in
      some (record {
        instrument = set_field 32 inst_id;
        trade_id = c_str (take 31 (text_or_empty json (codes "tradeId") trade));
        market_type = detect_market_type (c_str inst_id);
        side = okx_parse_side (word_or (codes "buy") (text_or_empty json (codes "side") trade));
        price = encode px info.price_precision;
        volume = encode (reread px (codes "sz") trade) info.volume_precision;
      })
