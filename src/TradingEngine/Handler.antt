-- ===== src/TradingEngine/Handler.antt =====
-- `TradingEngine::HandleOrderUpdate`.
use crypto_trading_system.Prelude.{
  Bool, ◌&&◌, ◌||◌, not, Option, none, some, Text, text_eq, is_empty, if◌then◌else◌,
}
use crypto_trading_system.Prelude.Map
use crypto_trading_system.Prelude.Map.{Map}
use crypto_trading_system.Defs.{
  MarketType, OrderStatus, ExecutionReport, order_status_eqb, market_type_eqb,
}
use crypto_trading_system.Double.{Double}
use crypto_trading_system.Registry
use crypto_trading_system.Registry.{InstrumentRegistry}
use crypto_trading_system.Ring.{shm_push}
use crypto_trading_system.PositionManager.{
  PositionManager, Status, done, null_info, and_then, update_spot_on_new, update_spot_on_fill,
  update_spot_on_cancel, update_spot_on_rejected, update_swap_on_fill, update_swap_on_cancel,
  update_swap_on_rejected,
}
use crypto_trading_system.TradingEngine.State.{TradingEngine, report_capacity, is_member}

abbrev pub is_settled : OrderStatus → Bool
is_settled status =
    order_status_eqb status OrderStatus.new
    || order_status_eqb status OrderStatus.filled
    || order_status_eqb status OrderStatus.cancelled
    || order_status_eqb status OrderStatus.rejected

module _ {D : Type 0} ⦃d : Double D⦄ where
  -- An update, other than NEW, of an order that is not live though a reservation waits for its NEW.
  unfoldable pub needs_recovery : TradingEngine D → ExecutionReport D → Text → Bool
  needs_recovery e report client_order_id =
      not (order_status_eqb report.status OrderStatus.new)
      && not (is_empty client_order_id)
      && not (Map.contains report.order_id e.live_order_instruments)
      && Map.contains client_order_id e.client_order_id_to_reservation

  -- The first part of the handler: the NEW that was missed.
  unfoldable pub recover :
      InstrumentRegistry → TradingEngine D → ExecutionReport D → Text → TradingEngine D × Status
  unfolding needs_recovery
  recover registry e report client_order_id =
      let live = Map.assign report.order_id report.instrument e.live_order_instruments in
      if needs_recovery e report client_order_id
      then (if market_type_eqb report.market_type MarketType.spot
          then and_then (update_spot_on_new registry e.position_manager report report.trade_mode)
              (λ m. record e { position_manager = m })
              (λ m. (record e { position_manager = m; live_order_instruments = live }, done))
          else (record e { live_order_instruments = live }, done))
      else (e, done)

  -- The second part: which orders are live. The `none` is the early return for a cancellation of an
  -- order that is not live.
  unfoldable pub mark_live : TradingEngine D → ExecutionReport D → Option (TradingEngine D)
  mark_live e report =
      let erased = record e {
        live_order_instruments = Map.erase report.order_id e.live_order_instruments;
      } in
      elim report.status [
        | OrderStatus.cancelled ↦
            if Map.contains report.order_id e.live_order_instruments then some erased else none
        | OrderStatus.new ↦ some (record e {
          live_order_instruments =
              Map.assign report.order_id report.instrument e.live_order_instruments;
        })
        | OrderStatus.filled ↦ some erased
        | OrderStatus.rejected ↦ some erased
        | OrderStatus.partially_filled ↦ some e
        | OrderStatus.cancel_failed ↦ some e
      ]

  -- The third part: the reservation is over, save after a partial fill and a failed cancellation.
  unfoldable pub drop_reservation : TradingEngine D → ExecutionReport D → Text → TradingEngine D
  drop_reservation e report client_order_id =
      if not (is_empty client_order_id) && is_settled report.status
      then record e {
        client_order_id_to_reservation = Map.erase client_order_id e.client_order_id_to_reservation;
      }
      else e

  -- The message to the log reads `info`.
  abbrev pub log_info :
      InstrumentRegistry → Text → PositionManager D × Status → PositionManager D × Status
  log_info registry instrument result =
      and_then result (λ m. m)
        (λ m. elim (Registry.find registry instrument) [
          | none ↦ (m, null_info)
          | some info ↦ (m, done)
        ])

  -- The fourth part: what the update does to the positions.
  unfoldable pub settle :
      InstrumentRegistry → PositionManager D → ExecutionReport D → PositionManager D × Status
  settle registry m report =
      let swap = market_type_eqb report.market_type MarketType.swap in
      let fill = log_info registry report.instrument (
        if swap
        then update_swap_on_fill registry m report
        else update_spot_on_fill registry m report report.trade_mode) in
      elim report.status [
        | OrderStatus.filled ↦ fill
        | OrderStatus.partially_filled ↦ fill
        | OrderStatus.cancelled ↦
            if swap
            then (update_swap_on_cancel m report, done)
            else log_info registry report.instrument
                (update_spot_on_cancel registry m report report.trade_mode)
        | OrderStatus.rejected ↦
            if swap
            then (update_swap_on_rejected m report, done)
            else update_spot_on_rejected registry m report report.trade_mode
        | OrderStatus.new ↦
            if swap
            then (m, done)
            else log_info registry report.instrument
                (update_spot_on_new registry m report report.trade_mode)
        | OrderStatus.cancel_failed ↦ (m, done)
      ]

  -- The last part: a report on a strategy's instrument goes to the strategies.
  unfoldable pub notify : TradingEngine D → ExecutionReport D → TradingEngine D
  notify e report =
      if is_member report.instrument e.strategy_instruments
      then record e { report_ring = (shm_push report_capacity e.report_ring report).1 }
      else e

  -- What follows the early return.
  unfoldable pub apply_update :
      InstrumentRegistry → TradingEngine D → ExecutionReport D → Text → TradingEngine D × Status
  unfolding settle notify drop_reservation
  apply_update registry e report client_order_id =
      let dropped = drop_reservation e report client_order_id in
      and_then (settle registry dropped.position_manager report)
        (λ m. record dropped { position_manager = m })
        (λ m. (notify (record dropped { position_manager = m }) report, done))

  unfoldable pub handle_order_update :
      InstrumentRegistry → TradingEngine D → ExecutionReport D → Text → TradingEngine D × Status
  unfolding recover mark_live apply_update
  handle_order_update registry e report client_order_id =
      and_then (recover registry e report client_order_id) (λ recovered. recovered)
        (λ recovered. elim (mark_live recovered report) [
          | none ↦ (recovered, done)
          | some marked ↦ apply_update registry marked report client_order_id
        ])
