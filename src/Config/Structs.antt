-- ===== src/Config/Structs.antt =====
-- The structs of src/common/config.hpp, and what `LoadConfig` reads them with.
use crypto_trading_system.Prelude.{List, Bool, Option, Text, ℤ}

-- What the code calls of simdjson's DOM; `none` is an error.
pub data Loading (J : Type 0) : Type 0 where
  loaded : J → Loading J
  failed : Text → Loading J  -- with the text of `error_message`

pub record Dom (J : Type 0) : Type 0 where
  pub load : Text → Loading J  -- `parser.load(path)`
  pub member : Text → J → Option J  -- `value[key]`
  pub as_text : J → Option Text  -- `value.get_string()`
  pub as_int : J → Option ℤ  -- `value.get_int64()`
  pub as_array : J → Option (List J)  -- `value.get_array()`
  pub minify : J → Text  -- `simdjson::minify(value)`

pub record LoggerConfig : Type 0 where
  pub cpu_affinity : ℤ
  pub path : Text

pub record ExchangeConfig : Type 0 where
  pub name : Text
  pub api_key : Text
  pub secret_key : Text
  pub passphrase : Text

pub record QuotationEngineConfig : Type 0 where
  pub instruments : List Text
  pub channels : List Text
  pub cpu_affinity : List ℤ

pub record StrategyEngineConfig : Type 0 where
  pub name : Text
  pub params_json : Text
  pub cpu_affinity : List ℤ
  pub plugin_paths : List Text

pub record TradingEngineConfig : Type 0 where
  pub cpu_affinity : List ℤ

pub record SystemConfig : Type 0 where
  pub logger : LoggerConfig
  pub exchange : ExchangeConfig
  pub quotation_engine : QuotationEngineConfig
  pub strategy_engine : StrategyEngineConfig
  pub trading_engine : TradingEngineConfig

-- What `LoadConfig` returns, with the configuration and the error text that it leaves.
pub record Result : Type 0 where
  pub ok : Bool
  pub out : SystemConfig
  pub err : Text
