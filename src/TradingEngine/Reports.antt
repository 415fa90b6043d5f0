-- ===== src/TradingEngine/Reports.antt =====
-- Which reports `HandleOrderUpdate` of src/trading_engine/trading_engine.cpp passes on to the strategies.
use crypto_trading_system.Prelude.{
  ◌≡◌, sym, ap, ◌∙◌, Option, some, Text, text_eq, arith, if◌then◌else◌,
}
use crypto_trading_system.Defs.{ExecutionReport, InstrumentInfo}
use crypto_trading_system.Double.{Double}
use crypto_trading_system.Registry
use crypto_trading_system.Registry.{InstrumentRegistry}
use crypto_trading_system.Ring.{Ring, shm_push}
use crypto_trading_system.PositionManager.{
  PositionManager, Status, done, out_of_range, null_info, and_then,
}
use crypto_trading_system.TradingEngine.State.{TradingEngine, report_capacity, is_member}
use crypto_trading_system.TradingEngine.Handler.{
  recover, mark_live, drop_reservation, settle, notify, apply_update, handle_order_update,
}
use crypto_trading_system.TradingEngine.Live.{recover-eq, handle_order_update-finish, finish}

module _ {D : Type 0} ⦃d : Double D⦄ where
  -- The ring of reports with one more report, for an instrument of the strategy.
  abbrev pub forwarded : TradingEngine D → ExecutionReport D → Ring (ExecutionReport D)
  forwarded e report =
      if is_member report.instrument e.strategy_instruments
      then (shm_push report_capacity e.report_ring report).1
      else e.report_ring

  ring-after :
      (dropped : TradingEngine D) (report : ExecutionReport D) (r : PositionManager D × Status)
      → let after =
          and_then r
            (λ m. record dropped { position_manager = m })
            (λ m. (notify (record dropped { position_manager = m }) report, done)) in
        after.1 ≡ done → after.0.report_ring ≡ forwarded dropped report
  unfolding notify
  ring-after dropped report (m, done) e = ground arith
  ring-after dropped report (m, out_of_range) e = ground arith
  ring-after dropped report (m, null_info) e = ground arith

  forwarded-drop :
      (e : TradingEngine D) (report : ExecutionReport D) (client_order_id : Text)
      → forwarded (drop_reservation e report client_order_id) report ≡ forwarded e report
  unfolding drop_reservation
  forwarded-drop e report client_order_id = ground arith

  ring-apply_update :
      (registry : InstrumentRegistry) (e : TradingEngine D) (report : ExecutionReport D)
      (client_order_id : Text)
      → (apply_update registry e report client_order_id).1 ≡ done
      → (apply_update registry e report client_order_id).0.report_ring ≡ forwarded e report
  unfolding apply_update
  ring-apply_update registry e report client_order_id ends =
      let dropped = drop_reservation e report client_order_id in
      ring-after dropped report (settle registry dropped.position_manager report) ends
      ∙ forwarded-drop e report client_order_id

  forwarded-mark_live :
      (e marked : TradingEngine D) (report : ExecutionReport D)
      → mark_live e report ≡ some marked
      → forwarded marked report ≡ forwarded e report
  unfolding mark_live
  forwarded-mark_live e marked report h = ground arith

  forwarded-recover :
      (registry : InstrumentRegistry) (e : TradingEngine D) (report : ExecutionReport D)
      (client_order_id : Text) (info : InstrumentInfo)
      → Registry.get registry report.instrument ≡ some info
      → forwarded (recover registry e report client_order_id).0 report ≡ forwarded e report
  forwarded-recover registry e report client_order_id info k =
      ap (λ r. forwarded r.0 report) (recover-eq registry e report client_order_id info k)
      ∙ ground arith

  finish-some :
      (registry : InstrumentRegistry) (r marked : TradingEngine D) (report : ExecutionReport D)
      (client_order_id : Text) (o : Option (TradingEngine D))
      → o ≡ some marked
      → finish registry r report client_order_id o
        ≡ apply_update registry marked report client_order_id
  finish-some registry r marked report client_order_id o h =
      ap (finish registry r report client_order_id) h

  -- An update for a registered instrument that is not skipped as a repeated cancellation and that ends
  -- without a fault is pushed on the ring of reports just when its instrument is one of the strategy's,
  -- and that is all that happens to the ring.
  pub report_ring-handle_order_update :
      (registry : InstrumentRegistry) (e marked : TradingEngine D) (report : ExecutionReport D)
      (client_order_id : Text) (info : InstrumentInfo)
      → Registry.get registry report.instrument ≡ some info
      → mark_live (recover registry e report client_order_id).0 report ≡ some marked
      → (handle_order_update registry e report client_order_id).1 ≡ done
      → (handle_order_update registry e report client_order_id).0.report_ring ≡ (
          if is_member report.instrument e.strategy_instruments
          then (shm_push report_capacity e.report_ring report).1
          else e.report_ring)
  report_ring-handle_order_update registry e marked report client_order_id info k live ends =
      let r = (recover registry e report client_order_id).0 in
      let applied =
        handle_order_update-finish registry e report client_order_id info k
        ∙ finish-some registry r marked report client_order_id (mark_live r report) live in
      ap (λ x. x.0.report_ring) applied
      ∙ ring-apply_update registry marked report client_order_id
          (sym (ap (λ x. x.1) applied) ∙ ends)
      ∙ forwarded-mark_live r marked report live
      ∙ forwarded-recover registry e report client_order_id info k
