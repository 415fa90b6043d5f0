-- ===== src/Tests/Engines.antt =====
-- The theorems about the engines at concrete inputs.
use crypto_trading_system.Prelude.{
  ℕ, ◌≡◌, refl, text_eqb, ap, true, false, [], ◌∷◌, ◌++◌, List, ℤ, pos, arith, length, codes, Text,
  Option, some, none, is_empty, ◌&&◌, ◌||◌, ◌==◌, text_eq, if◌then◌else◌,
}
use crypto_trading_system.Defs.{Side, Trade, empty_report}
use crypto_trading_system.Double.{nought}
use crypto_trading_system.Double.Whole.{whole_double}
use crypto_trading_system.Okx.Messages.{Event}
use crypto_trading_system.Ring.{fresh}
use crypto_trading_system.Ring.Feed.{Takes, Takes-fresh, push_all, contents-push_all}
use crypto_trading_system.Engines.{
  StrategyRings, ticker_capacity, bbo_capacity, depth_capacity, trade_capacity,
  strategy_report_capacity, empty_ticker, empty_bbo, empty_depth, empty_trade, poll,
}
use crypto_trading_system.Engines.Streams.{
  Turn, hears, polls, take_turns, gather, heard, ticker_called, bbo_called, depth_called,
  trade_called,
}
use crypto_trading_system.Engines.Streams.Kinds.{tickers, bbos, depths, trades}
use crypto_trading_system.Engines.Delivery.{waiting, take_turns_delivers, poll_empties}
use crypto_trading_system.Config.{Dom, Loading, SystemConfig, load_config}
use crypto_trading_system.Config.Loaded.{load_config_lem}
use crypto_trading_system.Tests.{pair}

abbrev sale : ℕ → Trade
sale price = record empty_trade {
  instrument = pair;
  side = Side.sell;
  price = pos price;
  volume = pos 1;
}

abbrev new_rings : StrategyRings ℤ
new_rings = record {
  market = record {
    ticker_ring = fresh ticker_capacity empty_ticker;
    bbo_ring = fresh bbo_capacity empty_bbo;
    depth_ring = fresh depth_capacity empty_depth;
    trade_ring = fresh trade_capacity empty_trade;
  };
  report_ring = fresh strategy_report_capacity (empty_report nought);
}

-- Two trades are heard, and the strategy goes round once between them.
abbrev two_sales : List (Turn ℤ)
two_sales = hears (Event.trade (sale 5)) ∷ polls false ∷ hears (Event.trade (sale 6)) ∷ []

take_turns_delivers_example :
    let (calls, left) = take_turns two_sales new_rings in
    (gather ticker_called calls ++ waiting tickers left
      ≡ waiting tickers new_rings ++ gather (heard tickers) two_sales)
    × (gather bbo_called calls ++ waiting bbos left
        ≡ waiting bbos new_rings ++ gather (heard bbos) two_sales)
    × (gather depth_called calls ++ waiting depths left
        ≡ waiting depths new_rings ++ gather (heard depths) two_sales)
    × (gather trade_called calls ++ waiting trades left
        ≡ waiting trades new_rings ++ gather (heard trades) two_sales)
take_turns_delivers_example =
    take_turns_delivers two_sales new_rings
      (Takes-fresh empty_ticker ticker_capacity 0 (omega arith) (omega arith) (omega arith))
      (Takes-fresh empty_bbo bbo_capacity 0 (omega arith) (omega arith) (omega arith))
      (Takes-fresh empty_depth depth_capacity 0 (omega arith) (omega arith) (omega arith))
      (Takes-fresh empty_trade trade_capacity 2 (omega arith) (omega arith) (omega arith))

-- Two trades wait.
abbrev loaded_rings : StrategyRings ℤ
loaded_rings = record new_rings {
  market = record new_rings.market {
    trade_ring = push_all trade_capacity (sale 5 ∷ sale 6 ∷ []) (fresh trade_capacity empty_trade);
  };
}

loaded-trades :
    (waiting trades loaded_rings ≡ sale 5 ∷ sale 6 ∷ [])
    × Takes empty_trade trade_capacity 0 loaded_rings.market.trade_ring
unfolding fresh
loaded-trades =
    contents-push_all empty_trade trade_capacity (sale 5 ∷ sale 6 ∷ []) 0
      (fresh trade_capacity empty_trade)
      (Takes-fresh empty_trade trade_capacity 2 (omega arith) (omega arith) (omega arith))

poll_empties_example :
    let (calls, left) = poll (false ∷ true ∷ []) loaded_rings in
    ((gather ticker_called calls ≡ waiting tickers loaded_rings) × (waiting tickers left ≡ []))
    × ((gather bbo_called calls ≡ waiting bbos loaded_rings) × (waiting bbos left ≡ []))
    × ((gather depth_called calls ≡ waiting depths loaded_rings) × (waiting depths left ≡ []))
    × ((gather trade_called calls ≡ waiting trades loaded_rings) × (waiting trades left ≡ []))
unfolding fresh
poll_empties_example =
    poll_empties (false ∷ true ∷ []) loaded_rings
      (Takes-fresh empty_ticker ticker_capacity 0 (omega arith) (omega arith) (omega arith)).valid
      (Takes-fresh empty_bbo bbo_capacity 0 (omega arith) (omega arith) (omega arith)).valid
      (Takes-fresh empty_depth depth_capacity 0 (omega arith) (omega arith) (omega arith)).valid
      loaded-trades.1.valid (omega arith) (omega arith) (omega arith)
      (omega (arith, ap length loaded-trades.0))

-- A file with the two keys and nothing else.
data Part : Type 0 where
  whole : Part
  section : Part
  word : Text → Part

abbrev key_member : Text → Part → Option Part
key_member key whole = if key == codes "exchange" then some section else none
key_member key section =
    if key == codes "api_key"
    then some (word (codes "k"))
    else if key == codes "secret_key"
    then some (word (codes "s"))
    else none
key_member key (word text) = none

abbrev word_of : Part → Option Text
word_of (word text) = some text
word_of part = none

abbrev key_file : Dom Part
key_file = record {
  load = λ path. Loading.loaded whole;
  member = key_member;
  as_text = word_of;
  as_int = λ value. none;
  as_array = λ value. none;
  minify = λ value. [];
}

abbrev no_config : SystemConfig
no_config = record {
  logger = record { cpu_affinity = pos 0; path = [] };
  exchange = record { name = []; api_key = []; secret_key = []; passphrase = [] };
  quotation_engine = record { instruments = []; channels = []; cpu_affinity = [] };
  strategy_engine = record { name = []; params_json = []; cpu_affinity = []; plugin_paths = [] };
  trading_engine = record { cpu_affinity = [] };
}

load_config_lem_example :
    let first = load_config key_file (codes "config.json") no_config in
    (first.ok ≡ is_empty first.err)
    × ((first.ok && (is_empty first.out.exchange.api_key || is_empty first.out.exchange.secret_key))
        ≡ false)
    × (load_config key_file (codes "config.json") first.out ≡ first)
load_config_lem_example = load_config_lem key_file (codes "config.json") no_config

load_config-ok : (load_config key_file (codes "config.json") no_config).ok ≡ true
unfolding load_config text_eqb
load_config-ok = refl
