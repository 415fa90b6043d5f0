-- ===== src/Config.antt =====
-- The configuration of src/common/config.hpp: `LoadConfig` with `ParseCpuAffinity` and
-- `ParseStringArray`. Reading a file of JSON is simdjson's.
mod Structs
pub mod Loaded
pub use Structs.{
  Loading, loaded, failed, Dom, LoggerConfig, ExchangeConfig, QuotationEngineConfig,
  StrategyEngineConfig, TradingEngineConfig, SystemConfig, Result,
}
use crypto_trading_system.Prelude.{
  ℕ, ◌+◌, ◌-◌, ◌%◌, ◌^◌, [], ◌∷◌, ◌++◌, List, Bool, true, false, Option, none, some, Text, codes, ℤ,
  pos, negsuc, ltb, is_empty, if◌then◌else◌, get_or_else, bind, ◌||◌,
}

-- `static_cast<int>` of an `int64_t`.
abbrev pub signed_32 : ℕ → ℤ
signed_32 n = if ltb n (2 ^ 31) then pos n else negsuc (2 ^ 32 - 1 - n)

unfoldable pub to_int : ℤ → ℤ
to_int (pos n) = signed_32 (n % 2 ^ 32)
to_int (negsuc n) = signed_32 (2 ^ 32 - 1 - n % 2 ^ 32)

module _ {J : Type 0} (dom : Dom J) where
  abbrev pub text_member : Text → J → Option Text
  text_member key value = bind (dom.member key value) dom.as_text

  abbrev pub int_member : Text → J → Option ℤ
  int_member key value = bind (dom.member key value) dom.as_int

  abbrev pub ints_of : List J → List ℤ
  ints_of [] = []
  ints_of (item ∷ items) = elim (dom.as_int item) [
    | some val ↦ to_int val ∷ ints_of items
    | none ↦ ints_of items
  ]

  abbrev pub affinity_of : J → List ℤ
  affinity_of affinity = elim (dom.as_int affinity) [
    | some cpu ↦ to_int cpu ∷ []
    | none ↦ ints_of (get_or_else [] (dom.as_array affinity))
  ]

  unfoldable pub parse_cpu_affinity : J → List ℤ
  parse_cpu_affinity node = elim (dom.member (codes "cpu_affinity") node) [
    | none ↦ []
    | some affinity ↦ affinity_of affinity
  ]

  abbrev pub texts_of : List J → List Text
  texts_of [] = []
  texts_of (item ∷ items) = elim (dom.as_text item) [
    | some text ↦ text ∷ texts_of items
    | none ↦ texts_of items
  ]

  unfoldable pub parse_string_array : J → Text → List Text
  parse_string_array node key = texts_of (get_or_else [] (bind (dom.member key node) dom.as_array))

  unfoldable pub load_logger : Option J → LoggerConfig → LoggerConfig
  load_logger none out = out
  load_logger (some logger) out = record {
    cpu_affinity = elim (int_member (codes "cpu_affinity") logger) [
      | some cpu ↦ to_int cpu
      | none ↦ out.cpu_affinity
    ];
    path = get_or_else out.path (text_member (codes "path") logger);
  }

  unfoldable pub load_exchange : J → ExchangeConfig
  load_exchange exchange = record {
    name = get_or_else (codes "okx") (text_member (codes "name") exchange);
    api_key = get_or_else [] (text_member (codes "api_key") exchange);
    secret_key = get_or_else [] (text_member (codes "secret_key") exchange);
    passphrase = get_or_else [] (text_member (codes "passphrase") exchange);
  }

  unfoldable pub load_quotation_engine : Option J → QuotationEngineConfig → QuotationEngineConfig
  unfolding parse_cpu_affinity parse_string_array
  load_quotation_engine none out = out
  load_quotation_engine (some qe) out = record {
    instruments = parse_string_array qe (codes "instruments");
    channels = parse_string_array qe (codes "channels");
    cpu_affinity = parse_cpu_affinity qe;
  }

  -- The parameters of the strategy, given in place or in a file of their own.
  unfoldable pub load_params : J → Text → Loading Text
  load_params se old = elim (dom.member (codes "params") se) [
    | some params ↦ Loading.loaded (dom.minify params)
    | none ↦ elim (text_member (codes "params_path") se) [
      | none ↦ Loading.loaded old
      | some path ↦ elim (dom.load path) [
        | Loading.loaded params ↦ Loading.loaded (dom.minify params)
        | Loading.failed message ↦
            Loading.failed (
              codes "failed to load strategy_engine.params_path '"
              ++ path
              ++ codes "': "
              ++ message)
      ]
    ]
  ]

  -- The section of the strategy engine, and whether it could be read.
  unfoldable pub load_strategy_engine :
      Option J → StrategyEngineConfig → StrategyEngineConfig × Option Text
  unfolding load_params parse_cpu_affinity parse_string_array
  load_strategy_engine none out = (out, none)
  load_strategy_engine (some se) out =
      let name = get_or_else (codes "mesh") (text_member (codes "name") se) in
      elim (load_params se out.params_json) [
        | Loading.failed err ↦ (record out { name = name }, some err)
        | Loading.loaded params ↦ (
          record {
            name = name;
            params_json = params;
            cpu_affinity = parse_cpu_affinity se;
            plugin_paths = parse_string_array se (codes "plugin_paths");
          },
          none,
        )
      ]

  unfoldable pub load_trading_engine : Option J → TradingEngineConfig → TradingEngineConfig
  unfolding parse_cpu_affinity
  load_trading_engine none out = out
  load_trading_engine (some te) out = record { cpu_affinity = parse_cpu_affinity te }

  -- The last section and the check of the two keys.
  unfoldable pub finish_config : J → SystemConfig → Result
  unfolding load_trading_engine
  finish_config root out =
      let out' = record out {
        trading_engine =
            load_trading_engine (dom.member (codes "trading_engine") root) out.trading_engine;
      } in
      if is_empty out'.exchange.api_key || is_empty out'.exchange.secret_key
      then record {
        ok = false;
        out = out';
        err = codes "exchange.api_key and exchange.secret_key are required";
      }
      else record { ok = true; out = out'; err = [] }

  -- The sections behind the one of the exchange.
  unfoldable pub load_engines : J → SystemConfig → Result
  unfolding load_quotation_engine load_strategy_engine finish_config
  load_engines root out =
      let qe =
        load_quotation_engine (dom.member (codes "quotation_engine") root) out.quotation_engine in
      let (se, err) =
        load_strategy_engine (dom.member (codes "strategy_engine") root) out.strategy_engine in
      let out' = record out { quotation_engine = qe; strategy_engine = se } in
      elim err [
        | some message ↦ record { ok = false; out = out'; err = message }
        | none ↦ finish_config root out'
      ]

  -- The sections from that of the exchange on.
  unfoldable pub load_sections : Option J → J → SystemConfig → Result
  unfolding load_exchange load_engines
  load_sections none root out = record {
    ok = false;
    out = out;
    err = codes "missing 'exchange' section";
  }
  load_sections (some exchange) root out =
      load_engines root (record out { exchange = load_exchange exchange })

  unfoldable pub load_document : Loading J → SystemConfig → Result
  unfolding load_logger load_sections
  load_document (failed message) out = record {
    ok = false;
    out = out;
    err = codes "invalid JSON config: " ++ message;
  }
  load_document (loaded root) out =
      load_sections (dom.member (codes "exchange") root) root
        (record out { logger = load_logger (dom.member (codes "logger") root) out.logger })

  unfoldable pub load_config : Text → SystemConfig → Result
  unfolding load_document
  load_config path out = load_document (dom.load path) out
