-- ===== src/Okx/Refused.antt =====
-- What the report of a refused order, of src/clients/okx/okx.cpp, does to the positions.
use crypto_trading_system.Prelude.{
  ◌≡◌, refl, ap, ◌∙◌, some, Text, arith, true, false, beq_refl, text_eq, if◌then◌else◌,
}
use crypto_trading_system.Defs.{
  MarketType, Side, TradeMode, OrderStatus, OrderRequest, ExecutionReport, InstrumentInfo,
  set_field, trade_mode_eqb,
}
use crypto_trading_system.Double.{Double}
use crypto_trading_system.Registry
use crypto_trading_system.Registry.{InstrumentRegistry}
use crypto_trading_system.Currency.{extract_base}
use crypto_trading_system.Utils.{decode}
use crypto_trading_system.PositionManager.{
  PositionManager, done, reject_locked, update_spot_on_rejected,
}
use crypto_trading_system.PositionManager.{available, frozen}
use crypto_trading_system.PositionManager.Locks.{release_lem}
use crypto_trading_system.TradingEngine.{settle}
use crypto_trading_system.Okx.{refused_report}

module _ {D : Type 0} ⦃d : Double D⦄ where
  settle-rejected :
      (registry : InstrumentRegistry) (m : PositionManager D) (report : ExecutionReport D)
      (info : InstrumentInfo)
      → report.status ≡ OrderStatus.rejected
      → report.side ≡ Side.sell
      → report.market_type ≡ MarketType.spot
      → report.trade_mode ≡ TradeMode.cash
      → Registry.get registry report.instrument ≡ some info
      → settle registry m report ≡ (
        reject_locked
            (extract_base report.instrument)
            (decode report.total_volume info.volume_precision)
            m,
        done,
      )
  unfolding settle update_spot_on_rejected
  settle-rejected registry m report info status side spot cash k = ground arith

  update-rejected :
      (registry : InstrumentRegistry) (m : PositionManager D) (report : ExecutionReport D)
      (mode : TradeMode) (info : InstrumentInfo)
      → report.side ≡ Side.sell
      → trade_mode_eqb mode TradeMode.cash ≡ false
      → Registry.get registry report.instrument ≡ some info
      → update_spot_on_rejected registry m report mode ≡ (m, done)
  unfolding update_spot_on_rejected
  update-rejected registry m report mode info side margin k = ground arith

  -- An amount that the frozen balance covers is taken from it and made available.
  reject_locked-frozen :
      (c : Text) (x : D) (m : PositionManager D)
      → d.le (d.sub x d.tiny) (frozen m c) ≡ true
      → (frozen (reject_locked c x m) c ≡ d.sub (frozen m c) x)
        × (available (reject_locked c x m) c ≡ d.add (available m c) x)
  unfolding reject_locked
  reject_locked-frozen c x m covers =
      let released = release_lem c c x (λ p. p) m (λ p. (refl, refl)) in
      rw covers (
        released.1 ∙ ap (λ b. if b then d.sub (frozen m c) x else frozen m c) (beq_refl c),
        released.0 ∙ ap (λ b. if b then d.add (available m c) x else available m c) (beq_refl c),
      )

  -- The report of a refused spot sale on margin, cross or isolated, says cash, so the position manager
  -- settles it as a sale that had locked its base: where the frozen base, which other orders hold,
  -- covers the volume, the volume is taken from it and made available. Settled with the order's own
  -- mode the report changes nothing. The instrument is registered and its name fits its field.
  pub margin_refused :
      (registry : InstrumentRegistry) (m : PositionManager D) (stod : Text → D) (req : OrderRequest)
      (info : InstrumentInfo)
      → req.side ≡ Side.sell
      → req.market_type ≡ MarketType.spot
      → trade_mode_eqb req.trade_mode TradeMode.cash ≡ false
      → set_field 32 req.instrument ≡ req.instrument
      → Registry.get registry req.instrument ≡ some info
      → let report = refused_report registry stod req in
        let base = extract_base req.instrument in
        let amount = decode {D = D} report.total_volume info.volume_precision in
        let m' = (settle registry m report).0 in
        d.le (d.sub amount d.tiny) (frozen m base) ≡ true
        → (frozen m' base ≡ d.sub (frozen m base) amount)
          × (available m' base ≡ d.add (available m base) amount)
          × (update_spot_on_rejected registry m report req.trade_mode ≡ (m, done))
  unfolding refused_report
  margin_refused registry m stod req info side spot margin fits k covers =
      let report : ExecutionReport D = refused_report registry stod req in
      let known : Registry.get registry report.instrument ≡ some info =
        ap (Registry.get registry) fits ∙ k in
      let amount : D = decode report.total_volume info.volume_precision in
      let settled : (settle registry m report).0
          ≡ reject_locked (extract_base req.instrument) amount m =
        ap (λ p. p.0) (settle-rejected registry m report info refl side spot refl known)
        ∙ ap (λ i. reject_locked (extract_base i) amount m) fits in
      let (taken, given) = reject_locked-frozen (extract_base req.instrument) amount m covers in
      (
        ap (λ n. frozen n (extract_base req.instrument)) settled ∙ taken,
        ap (λ n. available n (extract_base req.instrument)) settled ∙ given,
        update-rejected registry m report req.trade_mode info side margin known,
      )
