-- ===== src/TradingEngine/Recovery.antt =====
-- Updates that `HandleOrderUpdate` sees twice or whose NEW it has missed, in
-- src/trading_engine/trading_engine.cpp.
use crypto_trading_system.Prelude.{
  ◌≡◌, refl, ap, ◌∙◌, true, false, none, some, Text, text_eq, text_eqb_iff, arith, Bool-cases, inl,
  inr, is_some,
}
use crypto_trading_system.Prelude.Map
use crypto_trading_system.Prelude.Map.{
  Map, find-assign, find-erase, find-erase_self, find-assign_self, erase-erase,
}
use crypto_trading_system.Defs.{OrderStatus, ExecutionReport, InstrumentInfo}
use crypto_trading_system.Double.{Double}
use crypto_trading_system.Registry
use crypto_trading_system.Registry.{InstrumentRegistry}
use crypto_trading_system.PositionManager.{
  PositionManager, Status, done, out_of_range, null_info, and_then,
}
use crypto_trading_system.TradingEngine.State.{TradingEngine, ReservationInfo}
use crypto_trading_system.TradingEngine.Handler.{
  needs_recovery, recover, mark_live, drop_reservation, settle, notify, apply_update,
  handle_order_update,
}
use crypto_trading_system.TradingEngine.Live.{
  handle_order_update-finish, live-recover, find-handle_order_update, finish,
}

-- What an update leaves, save for the ring of the strategies' reports, and how it ends.
abbrev pub Core : Type 0 → Type 0
Core D = PositionManager D × Map Text Text × Map Text (ReservationInfo D) × Status

abbrev pub core : {D : Type 0} → TradingEngine D × Status → Core D
core (e, s) = (e.position_manager, e.live_order_instruments, e.client_order_id_to_reservation, s)

module _ {D : Type 0} ⦃d : Double D⦄ where
  core-after :
      (dropped : TradingEngine D) (report : ExecutionReport D) (r : PositionManager D × Status)
      → core (
          and_then r
            (λ m. record dropped { position_manager = m })
            (λ m. (notify (record dropped { position_manager = m }) report, done)))
        ≡ (r.0, dropped.live_order_instruments, dropped.client_order_id_to_reservation, r.1)
  unfolding notify
  core-after dropped report (m, done) = ground arith
  core-after dropped report (m, out_of_range) = refl
  core-after dropped report (m, null_info) = refl

  pub core-apply_update :
      (registry : InstrumentRegistry) (e : TradingEngine D) (report : ExecutionReport D)
      (client_order_id : Text)
      → let settled = settle registry e.position_manager report in
        core (apply_update registry e report client_order_id) ≡ (
          settled.0,
          e.live_order_instruments,
          (drop_reservation e report client_order_id).client_order_id_to_reservation,
          settled.1,
        )
  unfolding apply_update drop_reservation
  core-apply_update registry e report client_order_id =
      let dropped = drop_reservation e report client_order_id in
      core-after dropped report (settle registry dropped.position_manager report) ∙ ground arith

  -- An update that needs no recovery, of an order that is not live, changes nothing if it is a
  -- cancellation.
  pub handle-ignored :
      (registry : InstrumentRegistry) (e : TradingEngine D) (report : ExecutionReport D)
      (client_order_id : Text) (info : InstrumentInfo)
      → Registry.get registry report.instrument ≡ some info
      → report.status ≡ OrderStatus.cancelled
      → needs_recovery e report client_order_id ≡ false
      → Map.contains report.order_id e.live_order_instruments ≡ false
      → handle_order_update registry e report client_order_id ≡ (e, done)
  unfolding handle_order_update recover mark_live
  handle-ignored registry e report client_order_id info k s n c = ground arith

  marked-cancelled :
      (r : TradingEngine D) (report : ExecutionReport D)
      → report.status ≡ OrderStatus.cancelled
      → Map.contains report.order_id r.live_order_instruments ≡ true
      → mark_live r report
        ≡ some (record r {
          live_order_instruments = Map.erase report.order_id r.live_order_instruments;
        })
  unfolding mark_live
  marked-cancelled r report s c = ground arith

  marked-skipped :
      (r : TradingEngine D) (report : ExecutionReport D)
      → report.status ≡ OrderStatus.cancelled
      → Map.contains report.order_id r.live_order_instruments ≡ false
      → mark_live r report ≡ none
  unfolding mark_live
  marked-skipped r report s c = ground arith

  -- After a cancellation that was not skipped, no recovery is due for its order.
  dropped-no_recovery :
      (e : TradingEngine D) (report : ExecutionReport D) (client_order_id : Text)
      (s : report.status ≡ OrderStatus.cancelled) (e' : TradingEngine D)
      → e'.client_order_id_to_reservation
        ≡ (drop_reservation e report client_order_id).client_order_id_to_reservation
      → needs_recovery e' report client_order_id ≡ false
  unfolding needs_recovery drop_reservation
  dropped-no_recovery e report client_order_id s e' h =
      ground (arith, find-erase_self client_order_id e.client_order_id_to_reservation)

  pub recover-seen :
      (registry : InstrumentRegistry) (e : TradingEngine D) (report : ExecutionReport D)
      (client_order_id : Text)
      → needs_recovery e report client_order_id ≡ false
      → recover registry e report client_order_id ≡ (e, done)
  unfolding recover
  recover-seen registry e report client_order_id n = rw n refl

  recovered-same :
      (registry : InstrumentRegistry) (e : TradingEngine D) (report : ExecutionReport D)
      (client_order_id : Text) (info : InstrumentInfo)
      → Registry.get registry report.instrument ≡ some info
      → let r = (recover registry e report client_order_id).0 in
        Map.contains report.order_id r.live_order_instruments ≡ false
        → (needs_recovery e report client_order_id ≡ false) × (r ≡ e)
  recovered-same registry e report client_order_id info k c =
      let unmissed : needs_recovery e report client_order_id ≡ false = ground (
        arith,
        text_eqb_iff report.order_id report.order_id,
        live-recover registry e report client_order_id report.order_id info k,
      ) in
      (unmissed, ap (λ r. r.0) (recover-seen registry e report client_order_id unmissed))

  drop-live :
      (r : TradingEngine D) (report : ExecutionReport D) (client_order_id : Text)
      (live : Map Text Text)
      → (drop_reservation
          (record r { live_order_instruments = live })
          report
          client_order_id).client_order_id_to_reservation
        ≡ (drop_reservation r report client_order_id).client_order_id_to_reservation
  unfolding drop_reservation
  drop-live r report client_order_id live = ground arith

  once-no_recovery :
      (registry : InstrumentRegistry) (e : TradingEngine D) (report : ExecutionReport D)
      (client_order_id : Text) (info : InstrumentInfo)
      → Registry.get registry report.instrument ≡ some info
      → report.status ≡ OrderStatus.cancelled
      → needs_recovery
          (handle_order_update registry e report client_order_id).0
          report
          client_order_id
        ≡ false
  once-no_recovery registry e report client_order_id info k s =
      let r = (recover registry e report client_order_id).0 in
      let first = handle_order_update-finish registry e report client_order_id info k in
      let once = (handle_order_update registry e report client_order_id).0 in
      elim (Bool-cases (Map.contains report.order_id r.live_order_instruments)) [
        | inl live ↦ dropped-no_recovery r report client_order_id s once (
            ap (λ c. c.2)
              (ap core (
                  first
                  ∙ ap (finish registry r report client_order_id)
                      (marked-cancelled r report s live))
                ∙ core-apply_update registry
                    (record r {
                      live_order_instruments = Map.erase report.order_id r.live_order_instruments;
                    })
                    report client_order_id)
            ∙ drop-live r report client_order_id
                (Map.erase report.order_id r.live_order_instruments))
        | inr skipped ↦
            let (seen, same) = recovered-same registry e report client_order_id info k skipped in
            ap (λ x. needs_recovery x report client_order_id)
              (ap (λ x. x.0)
                  (first
                    ∙ ap (finish registry r report client_order_id)
                        (marked-skipped r report s skipped))
                ∙ same)
            ∙ seen
      ]

  -- A CANCELLED that comes twice in a row counts once: the second one leaves the engine exactly as the
  -- first one left it, and does not fail.
  pub cancelled_twice :
      (registry : InstrumentRegistry) (e : TradingEngine D) (report : ExecutionReport D)
      (client_order_id : Text) (info : InstrumentInfo)
      → Registry.get registry report.instrument ≡ some info
      → report.status ≡ OrderStatus.cancelled
      → let once = (handle_order_update registry e report client_order_id).0 in
        handle_order_update registry once report client_order_id ≡ (once, done)
  cancelled_twice registry e report client_order_id info k s =
      let once = (handle_order_update registry e report client_order_id).0 in
      let gone : Map.find report.order_id once.live_order_instruments ≡ none = ground (
        arith,
        text_eqb_iff report.order_id report.order_id,
        find-handle_order_update registry e report client_order_id report.order_id info k,
      ) in
      handle-ignored registry once report client_order_id info k s
        (once-no_recovery registry e report client_order_id info k s) (ap is_some gone)
