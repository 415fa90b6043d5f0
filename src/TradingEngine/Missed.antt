-- ===== src/TradingEngine/Missed.antt =====
-- A NEW that `HandleOrderUpdate` has missed, in src/trading_engine/trading_engine.cpp.
use crypto_trading_system.Prelude.{
  ◌≡◌, refl, sym, ap, ap₂, ◌∙◌, Bool, true, false, ◌||◌, some, Text, text_eq, text_eqb_iff,
  is_empty, arith, if◌then◌else◌,
}
use crypto_trading_system.Prelude.Map
use crypto_trading_system.Prelude.Map.{
  Map, find-assign, find-erase, find-erase_self, find-assign_self, erase-erase,
}
use crypto_trading_system.Defs.{
  MarketType, OrderStatus, ExecutionReport, InstrumentInfo, order_status_eqb, market_type_eqb,
}
use crypto_trading_system.Double.{Double}
use crypto_trading_system.Registry
use crypto_trading_system.Registry.{InstrumentRegistry}
use crypto_trading_system.PositionManager.{PositionManager, Status, done, update_spot_on_new}
use crypto_trading_system.TradingEngine.State.{TradingEngine, ReservationInfo}
use crypto_trading_system.TradingEngine.Handler.{
  needs_recovery, recover, mark_live, is_settled, drop_reservation, settle, apply_update,
  handle_order_update,
}
use crypto_trading_system.TradingEngine.Recovery.{Core, core, core-apply_update, recover-seen}
use crypto_trading_system.TradingEngine.Live.{recover-eq, handle_order_update-finish, finish}

-- The order is over.
abbrev pub is_over : OrderStatus → Bool
is_over status =
    order_status_eqb status OrderStatus.filled
    || order_status_eqb status OrderStatus.cancelled
    || order_status_eqb status OrderStatus.rejected

over-settled : (status : OrderStatus) → is_over status ≡ true → is_settled status ≡ true
over-settled status o = ground arith

module _ {D : Type 0} ⦃d : Double D⦄ where
  -- A missed NEW.
  abbrev pub announced : ExecutionReport D → ExecutionReport D
  announced report = record report { status = OrderStatus.new }

  -- What the handler leaves when it has nothing to recover.
  core-unmissed :
      (registry : InstrumentRegistry) (e marked : TradingEngine D) (report : ExecutionReport D)
      (client_order_id : Text) (info : InstrumentInfo)
      → Registry.get registry report.instrument ≡ some info
      → needs_recovery e report client_order_id ≡ false
      → mark_live e report ≡ some marked
      → core (handle_order_update registry e report client_order_id)
        ≡ core (apply_update registry marked report client_order_id)
  core-unmissed registry e marked report client_order_id info k n h = ap core (
      handle_order_update-finish registry e report client_order_id info k
      ∙ ap (λ x. finish registry x.0 report client_order_id (mark_live x.0 report))
          (recover-seen registry e report client_order_id n)
      ∙ ap (finish registry e report client_order_id) h)

  -- The engine after a recovery.
  abbrev pub recovered : InstrumentRegistry → TradingEngine D → ExecutionReport D → TradingEngine D
  recovered registry e report = record e {
    position_manager =
        if market_type_eqb report.market_type MarketType.spot
        then (update_spot_on_new registry e.position_manager report report.trade_mode).0
        else e.position_manager;
    live_order_instruments = Map.assign report.order_id report.instrument e.live_order_instruments;
  }

  settle-announced :
      (registry : InstrumentRegistry) (e : TradingEngine D) (report : ExecutionReport D)
      (info : InstrumentInfo)
      → Registry.get registry report.instrument ≡ some info
      → settle registry e.position_manager (announced report)
        ≡ ((recovered registry e report).position_manager, done)
  unfolding settle update_spot_on_new
  settle-announced registry e report info k = ground arith

  marked-over :
      (r : TradingEngine D) (report : ExecutionReport D) (live : Map Text Text)
      → is_over report.status ≡ true
      → r.live_order_instruments ≡ Map.assign report.order_id report.instrument live
      → mark_live r report
        ≡ some (record r {
          live_order_instruments = Map.erase report.order_id r.live_order_instruments;
        })
  unfolding mark_live
  marked-over r report live o l = ground (
    arith,
    find-assign_self report.order_id report.instrument live,
    text_eqb_iff report.order_id report.order_id,
  )

  -- What an update that ends the order makes of the engine's parts.
  abbrev pub ended :
      InstrumentRegistry
      → ExecutionReport D
      → Text
      → PositionManager D
      → Map Text Text
      → Map Text (ReservationInfo D)
      → Core D
  ended registry report client_order_id m live reservations =
      let settled = settle registry m report in
      (
        settled.0,
        Map.erase report.order_id live,
        (if is_empty client_order_id then reservations else Map.erase client_order_id reservations),
        settled.1,
      )

  ended-twice :
      (registry : InstrumentRegistry) (report : ExecutionReport D) (client_order_id : Text)
      (m : PositionManager D) (live : Map Text Text) (reservations : Map Text (ReservationInfo D))
      → ended registry report client_order_id m live (
          if is_empty client_order_id then reservations else Map.erase client_order_id reservations)
        ≡ ended registry report client_order_id m live reservations
  ended-twice registry report client_order_id m live reservations =
      ground (arith, erase-erase client_order_id reservations)

  drop-over :
      (e : TradingEngine D) (report : ExecutionReport D) (client_order_id : Text)
      → is_settled report.status ≡ true
      → (drop_reservation e report client_order_id).client_order_id_to_reservation ≡ (
          if is_empty client_order_id
          then e.client_order_id_to_reservation
          else Map.erase client_order_id e.client_order_id_to_reservation)
  unfolding drop_reservation
  drop-over e report client_order_id o = ground arith

  core-over :
      (registry : InstrumentRegistry) (e : TradingEngine D) (report : ExecutionReport D)
      (client_order_id : Text)
      → is_over report.status ≡ true
      → core (
          apply_update registry
            (record e {
              live_order_instruments = Map.erase report.order_id e.live_order_instruments;
            })
            report
            client_order_id)
        ≡ ended registry report client_order_id e.position_manager e.live_order_instruments
            e.client_order_id_to_reservation
  core-over registry e report client_order_id o =
      let marked = record e {
        live_order_instruments = Map.erase report.order_id e.live_order_instruments;
      } in
      let settled = settle registry e.position_manager report in
      core-apply_update registry marked report client_order_id
      ∙ ap (λ r. (settled.0, Map.erase report.order_id e.live_order_instruments, r, settled.1))
          (drop-over marked report client_order_id (over-settled report.status o))

  -- What the handler leaves of the engine at the NEW itself.
  core-announced :
      (registry : InstrumentRegistry) (e : TradingEngine D) (report : ExecutionReport D)
      (client_order_id : Text) (info : InstrumentInfo)
      → Registry.get registry report.instrument ≡ some info
      → core (handle_order_update registry e (announced report) client_order_id) ≡ (
        (recovered registry e report).position_manager,
        (recovered registry e report).live_order_instruments,
        (if is_empty client_order_id
            then e.client_order_id_to_reservation
            else Map.erase client_order_id e.client_order_id_to_reservation),
        done,
      )
  unfolding needs_recovery mark_live
  core-announced registry e report client_order_id info k =
      let live = Map.assign report.order_id report.instrument e.live_order_instruments in
      let marked = record e { live_order_instruments = live } in
      core-unmissed registry e marked (announced report) client_order_id info k refl refl
      ∙ core-apply_update registry marked (announced report) client_order_id
      ∙ ap₂ (λ (settled : PositionManager D × Status) r. (settled.0, live, r, settled.1))
          (settle-announced registry e report info k)
          (drop-over marked (announced report) client_order_id refl)

  abbrev pub marked_over : TradingEngine D → ExecutionReport D → TradingEngine D
  marked_over e report = record e {
    live_order_instruments = Map.erase report.order_id e.live_order_instruments;
  }

  live-no_recovery :
      (e : TradingEngine D) (report : ExecutionReport D) (client_order_id : Text)
      (live : Map Text Text)
      → e.live_order_instruments ≡ Map.assign report.order_id report.instrument live
      → needs_recovery e report client_order_id ≡ false
  unfolding needs_recovery
  live-no_recovery e report client_order_id live h =
      ground (arith, find-assign_self report.order_id report.instrument live)

  core-missed :
      (registry : InstrumentRegistry) (e : TradingEngine D) (report : ExecutionReport D)
      (client_order_id : Text) (info : InstrumentInfo)
      → Registry.get registry report.instrument ≡ some info
      → is_over report.status ≡ true
      → needs_recovery e report client_order_id ≡ true
      → let r = recovered registry e report in
        core (handle_order_update registry e report client_order_id)
        ≡ ended registry report client_order_id r.position_manager r.live_order_instruments
            e.client_order_id_to_reservation
  core-missed registry e report client_order_id info k o missed =
      let r = recovered registry e report in
      let same : (recover registry e report client_order_id).0 ≡ r =
        ap (λ x. x.0) (recover-eq registry e report client_order_id info k)
        ∙ ap (λ b. if b then r else e) missed in
      ap core (
        handle_order_update-finish registry e report client_order_id info k
        ∙ ap (λ x. finish registry x report client_order_id (mark_live x report)) same
        ∙ ap (finish registry r report client_order_id)
            (marked-over r report e.live_order_instruments o refl))
      ∙ core-over registry r report client_order_id o

  -- An update that ends an order whose NEW was missed, while its reservation still waits, leaves the
  -- positions, the live orders and the reservations as the NEW and then the update would have left
  -- them, and ends in the same way.
  pub recovered_new :
      (registry : InstrumentRegistry) (e : TradingEngine D) (report : ExecutionReport D)
      (client_order_id : Text) (info : InstrumentInfo)
      → Registry.get registry report.instrument ≡ some info
      → is_over report.status ≡ true
      → needs_recovery e report client_order_id ≡ true
      → let first = (handle_order_update registry e (announced report) client_order_id).0 in
        core (handle_order_update registry e report client_order_id)
        ≡ core (handle_order_update registry first report client_order_id)
  recovered_new registry e report client_order_id info k o missed =
      let r = recovered registry e report in
      let first = (handle_order_update registry e (announced report) client_order_id).0 in
      let parts = core-announced registry e report client_order_id info k in
      let first_live : first.live_order_instruments ≡ r.live_order_instruments =
        ap (λ c. c.1) parts in
      let unmissed : needs_recovery first report client_order_id ≡ false =
        live-no_recovery first report client_order_id e.live_order_instruments first_live in
      core-missed registry e report client_order_id info k o missed
      ∙ sym (
          core-unmissed registry first (marked_over first report) report client_order_id info k
            unmissed (marked-over first report e.live_order_instruments o first_live)
          ∙ core-over registry first report client_order_id o
          ∙ ap (λ (c : Core D). ended registry report client_order_id c.0 c.1 c.2) parts
          ∙ ended-twice registry report client_order_id r.position_manager r.live_order_instruments
              e.client_order_id_to_reservation)
