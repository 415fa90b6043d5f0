-- ===== src/TradingEngine/Live.antt =====
-- Which orders `HandleOrderUpdate` leaves live, in src/trading_engine/trading_engine.cpp.
use crypto_trading_system.Prelude.{
  ◌≡◌, refl, ap, ◌∙◌, ◌&&◌, Option, none, some, Text, text_eq, text_eqb_iff, ◌==◌, arith,
  if◌then◌else◌, Bool-cases, inl, inr,
}
use crypto_trading_system.Prelude.Map
use crypto_trading_system.Prelude.Map.{
  Map, find-assign, find-erase, find-erase_self, find-assign_self,
}
use crypto_trading_system.Defs.{
  MarketType, OrderStatus, ExecutionReport, InstrumentInfo, market_type_eqb,
}
use crypto_trading_system.Double.{Double}
use crypto_trading_system.Registry
use crypto_trading_system.Registry.{InstrumentRegistry}
use crypto_trading_system.PositionManager.{
  PositionManager, Status, done, out_of_range, null_info, and_then, update_spot_on_new,
}
use crypto_trading_system.TradingEngine.State.{TradingEngine}
use crypto_trading_system.TradingEngine.Handler.{
  needs_recovery, recover, mark_live, drop_reservation, settle, notify, apply_update,
  handle_order_update,
}

pub and_then-done :
    {A B : Type 0} (r : A × Status) (fault : A → B) (next : A → B × Status)
    → r.1 ≡ done
    → and_then r fault next ≡ next r.0
and_then-done (a, done) fault next e = refl
and_then-done (a, out_of_range) fault next e = ground arith
and_then-done (a, null_info) fault next e = ground arith

module _ {D : Type 0} ⦃d : Double D⦄ where
  -- A NEW for a registered instrument does not throw.
  pub update_spot_on_new-done :
      (registry : InstrumentRegistry) (m : PositionManager D) (report : ExecutionReport D)
      (info : InstrumentInfo)
      → Registry.get registry report.instrument ≡ some info
      → (update_spot_on_new registry m report report.trade_mode).1 ≡ done
  unfolding update_spot_on_new
  update_spot_on_new-done registry m report info e = ground arith

  -- The recovery of a registered instrument, without its faults.
  pub recover-eq :
      (registry : InstrumentRegistry) (e : TradingEngine D) (report : ExecutionReport D)
      (client_order_id : Text) (info : InstrumentInfo)
      → Registry.get registry report.instrument ≡ some info
      → recover registry e report client_order_id ≡ (
        (if needs_recovery e report client_order_id
            then record e {
              position_manager =
                  if market_type_eqb report.market_type MarketType.spot
                  then (update_spot_on_new registry e.position_manager report report.trade_mode).0
                  else e.position_manager;
              live_order_instruments =
                  Map.assign report.order_id report.instrument e.live_order_instruments;
            }
            else e),
        done,
      )
  unfolding recover
  recover-eq registry e report client_order_id info k =
      elim (Bool-cases (needs_recovery e report client_order_id)) [
        | inr seen ↦ rw seen refl
        | inl missed ↦
            rw missed (elim (Bool-cases (market_type_eqb report.market_type MarketType.spot)) [
              | inr swap ↦ rw swap refl
              | inl spot ↦ rw spot (
                  and_then-done
                    (update_spot_on_new registry e.position_manager report report.trade_mode)
                    (λ m. record e { position_manager = m })
                    (λ m. (
                      record e {
                        position_manager = m;
                        live_order_instruments =
                            Map.assign report.order_id report.instrument e.live_order_instruments;
                      },
                      done,
                    ))
                    (update_spot_on_new-done registry e.position_manager report info k))
            ])
      ]

  abbrev pub finish :
      InstrumentRegistry
      → TradingEngine D
      → ExecutionReport D
      → Text
      → Option (TradingEngine D)
      → TradingEngine D × Status
  finish registry r report client_order_id none = (r, done)
  finish registry r report client_order_id (some marked) =
      apply_update registry marked report client_order_id

  finish-elim :
      (registry : InstrumentRegistry) (r : TradingEngine D) (report : ExecutionReport D)
      (client_order_id : Text) (o : Option (TradingEngine D))
      → (elim o as (λ o. TradingEngine D × Status) [
        | none ↦ (r, done)
        | some marked ↦ apply_update registry marked report client_order_id
      ])
        ≡ finish registry r report client_order_id o
  finish-elim registry r report client_order_id none = refl
  finish-elim registry r report client_order_id (some m) = refl

  -- The handler after the recovery, for a registered instrument.
  pub handle_order_update-finish :
      (registry : InstrumentRegistry) (e : TradingEngine D) (report : ExecutionReport D)
      (client_order_id : Text) (info : InstrumentInfo)
      → Registry.get registry report.instrument ≡ some info
      → let r = (recover registry e report client_order_id).0 in
        handle_order_update registry e report client_order_id
        ≡ finish registry r report client_order_id (mark_live r report)
  unfolding handle_order_update
  handle_order_update-finish registry e report client_order_id info k =
      let r = (recover registry e report client_order_id).0 in
      and_then-done (recover registry e report client_order_id) (λ x. x)
        (λ x. elim (mark_live x report) [
          | none ↦ (x, done)
          | some marked ↦ apply_update registry marked report client_order_id
        ])
        (ap (λ x. x.1) (recover-eq registry e report client_order_id info k))
      ∙ finish-elim registry r report client_order_id (mark_live r report)

  live-after :
      (dropped : TradingEngine D) (report : ExecutionReport D) (r : PositionManager D × Status)
      → (and_then r
          (λ m. record dropped { position_manager = m })
          (λ m. (
            notify (record dropped { position_manager = m }) report,
            done,
          ))).0.live_order_instruments
        ≡ dropped.live_order_instruments
  unfolding notify
  live-after dropped report (m, done) = ground arith
  live-after dropped report (m, out_of_range) = refl
  live-after dropped report (m, null_info) = refl

  pub live-apply_update :
      (registry : InstrumentRegistry) (e : TradingEngine D) (report : ExecutionReport D)
      (client_order_id : Text)
      → (apply_update registry e report client_order_id).0.live_order_instruments
        ≡ e.live_order_instruments
  unfolding apply_update drop_reservation
  live-apply_update registry e report client_order_id =
      let dropped = drop_reservation e report client_order_id in
      live-after dropped report (settle registry dropped.position_manager report) ∙ ground arith

  -- The live orders after the first two parts of the handler, for the order of the report.
  abbrev pub live_status : TradingEngine D → ExecutionReport D → Text → Option Text
  live_status e report client_order_id =
      let kept =
        if needs_recovery e report client_order_id
        then some report.instrument
        else Map.find report.order_id e.live_order_instruments in
      elim report.status [
        | OrderStatus.new ↦ some report.instrument
        | OrderStatus.partially_filled ↦ kept
        | OrderStatus.cancel_failed ↦ kept
        | OrderStatus.filled ↦ none
        | OrderStatus.cancelled ↦ none
        | OrderStatus.rejected ↦ none
      ]

  live-finish :
      (registry : InstrumentRegistry) (r : TradingEngine D) (report : ExecutionReport D)
      (client_order_id : Text) (marked : Option (TradingEngine D))
      → (finish registry r report client_order_id marked).0.live_order_instruments
        ≡ elim marked [ none ↦ r.live_order_instruments | some m ↦ m.live_order_instruments ]
  live-finish registry r report client_order_id none = refl
  live-finish registry r report client_order_id (some marked) =
      live-apply_update registry marked report client_order_id

  live-mark_live :
      (r : TradingEngine D) (report : ExecutionReport D) (j : Text)
      → Map.find j (elim (mark_live r report) [
        | none ↦ r.live_order_instruments
        | some m ↦ m.live_order_instruments
      ])
        ≡ (if report.order_id == j
            then elim report.status [
              | OrderStatus.new ↦ some report.instrument
              | OrderStatus.partially_filled ↦ Map.find j r.live_order_instruments
              | OrderStatus.cancel_failed ↦ Map.find j r.live_order_instruments
              | OrderStatus.filled ↦ none
              | OrderStatus.cancelled ↦ none
              | OrderStatus.rejected ↦ none
            ]
            else Map.find j r.live_order_instruments)
  unfolding mark_live
  live-mark_live r report j = ground (
    arith,
    text_eqb_iff report.order_id j,
    find-assign report.order_id j report.instrument r.live_order_instruments,
    find-erase report.order_id j r.live_order_instruments,
  )

  -- The live orders after a recovery.
  pub live-recover :
      (registry : InstrumentRegistry) (e : TradingEngine D) (report : ExecutionReport D)
      (client_order_id j : Text) (info : InstrumentInfo)
      → Registry.get registry report.instrument ≡ some info
      → Map.find j (recover registry e report client_order_id).0.live_order_instruments ≡ (
          if needs_recovery e report client_order_id && (report.order_id == j)
          then some report.instrument
          else Map.find j e.live_order_instruments)
  live-recover registry e report client_order_id j info k =
      ap (λ r. Map.find j r.0.live_order_instruments)
        (recover-eq registry e report client_order_id info k)
      ∙ ground (arith, find-assign report.order_id j report.instrument e.live_order_instruments)

  -- After an update of an order for a registered instrument, whatever its status and whether or not
  -- the update settles: the order of a NEW is live, the order of a FILLED, CANCELLED or REJECTED is
  -- not, the order of a partial fill or a failed cancellation is live if it was or if its NEW has just
  -- been recovered, and no other order's entry changes.
  pub find-handle_order_update :
      (registry : InstrumentRegistry) (e : TradingEngine D) (report : ExecutionReport D)
      (client_order_id j : Text) (info : InstrumentInfo)
      → Registry.get registry report.instrument ≡ some info
      → Map.find j (handle_order_update registry e report client_order_id).0.live_order_instruments
        ≡ (if report.order_id == j
            then live_status e report client_order_id
            else Map.find j e.live_order_instruments)
  find-handle_order_update registry e report client_order_id j info k =
      let r = (recover registry e report client_order_id).0 in
      ap (λ x. Map.find j x.0.live_order_instruments)
        (handle_order_update-finish registry e report client_order_id info k)
      ∙ ap (Map.find j) (live-finish registry r report client_order_id (mark_live r report))
      ∙ live-mark_live r report j
      ∙ ground (
        arith,
        text_eqb_iff report.order_id j,
        live-recover registry e report client_order_id j info k,
      )
