-- ===== src/TradingEngine/Orders.antt =====
-- What `ReconcileOrders` of src/trading_engine/trading_engine.cpp does with orders that the exchange no
-- longer lists.
use crypto_trading_system.Prelude.{
  ◌≡◌, ap, ◌∙◌, [], ◌∷◌, false, none, some, Text, text_eq, text_eqb_iff, ◌==◌, arith, if◌then◌else◌,
  Bool-cases, Option-cases, inl, inr,
}
use crypto_trading_system.Prelude.Map
use crypto_trading_system.Prelude.Map.{Map}
use crypto_trading_system.Defs.{OrderStatus, ExecutionReport, InstrumentInfo, order_status_eqb}
use crypto_trading_system.Double.{Double}
use crypto_trading_system.Registry
use crypto_trading_system.Registry.{InstrumentRegistry}
use crypto_trading_system.PositionManager.{Status, done, out_of_range, null_info, and_then}
use crypto_trading_system.TradingEngine.State.{TradingEngine}
use crypto_trading_system.TradingEngine.Handler.{handle_order_update}
use crypto_trading_system.TradingEngine.Reconciler.{
  Query, is_live, replay_answer, replay_orphan, replay_orphans,
}
use crypto_trading_system.TradingEngine.Live.{find-handle_order_update}

-- The exchange answers a query for an order with that order, whose instrument is registered, in one of
-- the states that it knows; a failed cancellation is none.
pub record IsAnswering {D : Type 0} (registry : InstrumentRegistry) (query : Query D) : Type 0 where
  pub same_order :
      (instrument id : Text) (report : ExecutionReport D) (client_order_id : Text)
      → query instrument id ≡ some (report, client_order_id)
      → report.order_id ≡ id
  pub registered :
      (instrument id : Text) (report : ExecutionReport D) (client_order_id : Text)
      → query instrument id ≡ some (report, client_order_id)
      → (info : InstrumentInfo) × (Registry.get registry report.instrument ≡ some info)
  pub known_state :
      (instrument id : Text) (report : ExecutionReport D) (client_order_id : Text)
      → query instrument id ≡ some (report, client_order_id)
      → order_status_eqb report.status OrderStatus.cancel_failed ≡ false

module _ {D : Type 0} ⦃d : Double D⦄ where
  -- An update that ends its order leaves no entry of it, and no other entry changes.
  ended-handle :
      (registry : InstrumentRegistry) (e : TradingEngine D) (report : ExecutionReport D)
      (client_order_id id : Text) (info : InstrumentInfo)
      → Registry.get registry report.instrument ≡ some info
      → is_live report.status ≡ false
      → order_status_eqb report.status OrderStatus.cancel_failed ≡ false
      → Map.find id (handle_order_update registry e report client_order_id).0.live_order_instruments
        ≡ (if report.order_id == id then none else Map.find id e.live_order_instruments)
  ended-handle registry e report client_order_id id info k over state =
      find-handle_order_update registry e report client_order_id id info k ∙ ground arith

  module _ (registry : InstrumentRegistry) (query : Query D)
      (law : IsAnswering registry query) where
    replay_orphan-over :
        (instrument id j : Text) (e : TradingEngine D) (report : ExecutionReport D)
        (client_order_id : Text)
        → query instrument id ≡ some (report, client_order_id)
        → is_live report.status ≡ false
        → Map.find j (replay_orphan registry query id instrument e).0.live_order_instruments
          ≡ (if id == j then none else Map.find j e.live_order_instruments)
    unfolding replay_answer
    replay_orphan-over instrument id j e report client_order_id q over =
        let (info, k) = law.registered instrument id report client_order_id q in
        ap (λ o. Map.find j (replay_answer registry e o).0.live_order_instruments) q
        ∙ ap
            (λ b.
              Map.find j
                (if b
                  then (e, done)
                  else handle_order_update registry e report
                      client_order_id).0.live_order_instruments)
            over
        ∙ ended-handle registry e report client_order_id j info k over
            (law.known_state instrument id report client_order_id q)
        ∙ ap (λ i. if i == j then none else Map.find j e.live_order_instruments)
            (law.same_order instrument id report client_order_id q)

    -- An order that is not live stays so.
    replay_orphan-none :
        (instrument id j : Text) (e : TradingEngine D)
        → Map.find j e.live_order_instruments ≡ none
        → Map.find j (replay_orphan registry query id instrument e).0.live_order_instruments ≡ none
    unfolding replay_answer
    replay_orphan-none instrument id j e absent = elim (Option-cases (query instrument id)) [
      | inl q ↦
          ap (λ o. Map.find j (replay_answer registry e o).0.live_order_instruments) q ∙ absent
      | inr ((report, client_order_id), q) ↦ elim (Bool-cases (is_live report.status)) [
        | inl live ↦
            ap (λ o. Map.find j (replay_answer registry e o).0.live_order_instruments) q
            ∙ ground arith
        | inr over ↦
            replay_orphan-over instrument id j e report client_order_id q over ∙ ground arith
      ]
    ]

    and_then-replayed :
        (orphans : Map Text Text) (j : Text) (r : TradingEngine D × Status)
        → Map.find j r.0.live_order_instruments ≡ none
        → ((e : TradingEngine D)
            → Map.find j e.live_order_instruments ≡ none
            → Map.find j (replay_orphans registry query orphans e).0.live_order_instruments ≡ none)
        → Map.find j
            (and_then r
              (λ e. e)
              (λ e. replay_orphans registry query orphans e)).0.live_order_instruments
          ≡ none
    and_then-replayed orphans j (e, done) absent rest = rest e absent
    and_then-replayed orphans j (e, out_of_range) absent rest = absent
    and_then-replayed orphans j (e, null_info) absent rest = absent

    replay_orphans-none :
        (orphans : Map Text Text) (j : Text) (e : TradingEngine D)
        → Map.find j e.live_order_instruments ≡ none
        → Map.find j (replay_orphans registry query orphans e).0.live_order_instruments ≡ none
    unfolding replay_orphans
    replay_orphans-none [] j e absent = absent
    replay_orphans-none ((id, instrument) ∷ orphans) j e absent =
        and_then-replayed orphans j (replay_orphan registry query id instrument e)
          (replay_orphan-none instrument id j e absent) (λ e'. replay_orphans-none orphans j e')

    and_then-ended :
        (orphans : Map Text Text) (j : Text) (r : TradingEngine D × Status)
        → (and_then r (λ e. e) (λ e. replay_orphans registry query orphans e)).1 ≡ done
        → ((replay_orphans registry query orphans r.0).1 ≡ done
            → Map.find j (replay_orphans registry query orphans r.0).0.live_order_instruments
              ≡ none)
        → Map.find j
            (and_then r
              (λ e. e)
              (λ e. replay_orphans registry query orphans e)).0.live_order_instruments
          ≡ none
    and_then-ended orphans j (e, done) ends rest = rest ends
    and_then-ended orphans j (e, out_of_range) ends rest = ground arith
    and_then-ended orphans j (e, null_info) ends rest = ground arith

    -- A replay of the orphans that no exception cuts short leaves no orphan live that the exchange
    -- says is filled, cancelled or rejected.
    pub orphans_ended :
        (orphans : Map Text Text) (e : TradingEngine D) (id instrument : Text)
        (report : ExecutionReport D) (client_order_id : Text)
        → (replay_orphans registry query orphans e).1 ≡ done
        → Map.find id orphans ≡ some instrument
        → query instrument id ≡ some (report, client_order_id)
        → is_live report.status ≡ false
        → Map.find id (replay_orphans registry query orphans e).0.live_order_instruments ≡ none
    unfolding replay_orphans Map.find
    orphans_ended [] e id instrument report client_order_id ends found q over = ground arith
    orphans_ended ((j, other) ∷ orphans) e id instrument report client_order_id ends found q over =
        and_then-ended orphans id (replay_orphan registry query j other e) ends (λ ends'.
          elim (Bool-cases (j == id)) [
            | inl same ↦ replay_orphans-none orphans id (replay_orphan registry query j other e).0 (
                replay_orphan-over other j id e report client_order_id
                  (ground (arith, text_eqb_iff j id)) over
                ∙ ap (λ b. if b then none else Map.find id e.live_order_instruments) same)
            | inr differ ↦
                orphans_ended orphans (replay_orphan registry query j other e).0 id instrument
                  report client_order_id ends' (ground arith) q over
          ])
