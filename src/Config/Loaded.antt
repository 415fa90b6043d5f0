-- ===== src/Config/Loaded.antt =====
-- When `LoadConfig` succeeds, and what a second call changes.
use crypto_trading_system.Prelude.{
  ◌≡◌, refl, ap, ap₂, sym, ◌∙◌, Bool, true, false, Option, none, some, Text, codes, is_empty, arith,
  ◌||◌, ◌&&◌,
}
use crypto_trading_system.Config.{
  Dom, Loading, loaded, failed, SystemConfig, StrategyEngineConfig, Result, load_config,
  load_engines, finish_config, load_strategy_engine, load_params, LoggerConfig,
  QuotationEngineConfig, TradingEngineConfig, load_logger, load_quotation_engine,
  load_trading_engine, load_exchange, load_sections, load_document,
}

module _ {J : Type 0} (dom : Dom J) where
  -- A result says in its text of the error whether it is a success, and a success has both keys.
  abbrev IsSound : Result → Type 0
  IsSound result =
      (result.ok ≡ is_empty result.err)
      × ((result.ok
            && (is_empty result.out.exchange.api_key || is_empty result.out.exchange.secret_key))
          ≡ false)

  finish_config-IsSound : (root : J) (out : SystemConfig) → IsSound (finish_config dom root out)
  unfolding finish_config
  finish_config-IsSound root out = ground arith

  -- A failure comes with a text.
  abbrev reason : Option Text → Bool
  reason none = true
  reason (some err) = is_empty err

  abbrev is_failed : Option Text → Bool
  is_failed none = true
  is_failed (some err) = false

  abbrev params_reason : Loading Text → Bool
  params_reason (loaded params) = false
  params_reason (failed err) = is_empty err

  load_params-reason : (se : J) (old : Text) → params_reason (load_params dom se old) ≡ false
  unfolding load_params
  load_params-reason se old = ground arith

  load_strategy_engine-reason :
      (se : Option J) (out : StrategyEngineConfig)
      → reason (load_strategy_engine dom se out).1 ≡ is_failed (load_strategy_engine dom se out).1
  unfolding load_strategy_engine
  load_strategy_engine-reason none out = refl
  load_strategy_engine-reason (some se) out = ground (arith, load_params-reason se out.params_json)

  load_engines-IsSound : (root : J) (out : SystemConfig) → IsSound (load_engines dom root out)
  unfolding load_engines
  load_engines-IsSound root out = ground (
    arith,
    load_strategy_engine-reason (dom.member (codes "strategy_engine") root) out.strategy_engine,
    finish_config-IsSound root,
  )

  load_sections-IsSound :
      (exchange : Option J) (root : J) (out : SystemConfig)
      → IsSound (load_sections dom exchange root out)
  unfolding load_sections
  load_sections-IsSound none root out = (refl, refl)
  load_sections-IsSound (some exchange) root out = load_engines-IsSound root _

  load_document-IsSound :
      (document : Loading J) (out : SystemConfig) → IsSound (load_document dom document out)
  unfolding load_document
  load_document-IsSound (failed message) out = (refl, refl)
  load_document-IsSound (loaded root) out = load_sections-IsSound _ root _

  load_logger-again :
      (logger : Option J) (out : LoggerConfig)
      → load_logger dom logger (load_logger dom logger out) ≡ load_logger dom logger out
  unfolding load_logger
  load_logger-again none out = refl
  load_logger-again (some logger) out = ground arith

  load_quotation_engine-again :
      (qe : Option J) (out : QuotationEngineConfig)
      → load_quotation_engine dom qe (load_quotation_engine dom qe out)
        ≡ load_quotation_engine dom qe out
  unfolding load_quotation_engine
  load_quotation_engine-again none out = refl
  load_quotation_engine-again (some qe) out = refl

  load_trading_engine-again :
      (te : Option J) (out : TradingEngineConfig)
      → load_trading_engine dom te (load_trading_engine dom te out) ≡ load_trading_engine dom te out
  unfolding load_trading_engine
  load_trading_engine-again none out = refl
  load_trading_engine-again (some te) out = refl

  load_strategy_engine-again :
      (se : Option J) (out : StrategyEngineConfig)
      → load_strategy_engine dom se (load_strategy_engine dom se out).0
        ≡ load_strategy_engine dom se out
  unfolding load_strategy_engine load_params
  load_strategy_engine-again none out = refl
  load_strategy_engine-again (some se) out = ground arith

  finish_config-again :
      (root : J) (out : SystemConfig)
      → finish_config dom root (finish_config dom root out).out ≡ finish_config dom root out
  unfolding finish_config
  finish_config-again root out = ground (
    arith,
    load_trading_engine-again (dom.member (codes "trading_engine") root) out.trading_engine,
  )

  load_engines-again :
      (root : J) (out : SystemConfig)
      → load_engines dom root (load_engines dom root out).out ≡ load_engines dom root out
  unfolding load_engines finish_config
  load_engines-again root out = ground (
    arith,
    load_trading_engine-again (dom.member (codes "trading_engine") root) out.trading_engine,
    load_quotation_engine-again (dom.member (codes "quotation_engine") root) out.quotation_engine,
    load_strategy_engine-again (dom.member (codes "strategy_engine") root) out.strategy_engine,
  )

  load_engines-keeps :
      (root : J) (out : SystemConfig)
      → ((load_engines dom root out).out.logger ≡ out.logger)
        × ((load_engines dom root out).out.exchange ≡ out.exchange)
  unfolding load_engines finish_config
  load_engines-keeps root out = ground arith

  -- A call that sets the first two sections as they are.
  load_engines-set_again :
      (root : J) (out : SystemConfig) (logger : LoggerConfig)
      → logger ≡ out.logger
      → load_engines dom root
          (record (load_engines dom root out).out { logger = logger; exchange = out.exchange })
        ≡ load_engines dom root out
  load_engines-set_again root out logger p =
      ap₂
        (λ l e.
          load_engines dom root
            (record (load_engines dom root out).out { logger = l; exchange = e }))
        (p ∙ sym (load_engines-keeps root out).0) (sym (load_engines-keeps root out).1)
      ∙ load_engines-again root out

  load_sections-again :
      (exchange : Option J) (root : J) (logger : Option J) (out : SystemConfig)
      → load_logger dom logger out.logger ≡ out.logger
      → let first = load_sections dom exchange root out in
        load_sections dom exchange root
          (record first.out { logger = load_logger dom logger first.out.logger })
        ≡ first
  unfolding load_sections
  load_sections-again none root logger out p =
      ap (λ l. load_sections dom none root (record out { logger = l })) p
  load_sections-again (some exchange) root logger out p =
      let out' = record out { exchange = load_exchange dom exchange } in
      load_engines-set_again root out' _
        (ap (load_logger dom logger) (load_engines-keeps root out').0 ∙ p)

  load_document-again :
      (document : Loading J) (out : SystemConfig)
      → load_document dom document (load_document dom document out).out
        ≡ load_document dom document out
  unfolding load_document
  load_document-again (failed message) out = refl
  load_document-again (loaded root) out =
      load_sections-again _ root _ _
        (load_logger-again (dom.member (codes "logger") root) out.logger)

  -- Loading a file into any configuration succeeds exactly when no text of an error is left, and then
  -- neither of the two keys is empty; a second call on what the first left returns and leaves the same.
  pub load_config_lem :
      (path : Text) (out : SystemConfig)
      → let first = load_config dom path out in
        (first.ok ≡ is_empty first.err)
        × ((first.ok
              && (is_empty first.out.exchange.api_key || is_empty first.out.exchange.secret_key))
            ≡ false)
        × (load_config dom path first.out ≡ first)
  unfolding load_config
  load_config_lem path out =
      let (says, keys) = load_document-IsSound (dom.load path) out in
      (says, keys, load_document-again (dom.load path) out)
