-- ===== src/TradingEngine/Reconciler.antt =====
-- `TradingEngine::ReconcileOrders`, `ReconcileBalances` and `ReconcileSwapPositions`.
use crypto_trading_system.Prelude.{
  ◌++◌, List, [], ◌∷◌, map, Bool, ◌||◌, Option, none, some, Text, text_eq, is_empty, if◌then◌else◌,
}
use crypto_trading_system.Prelude.Map
use crypto_trading_system.Prelude.Map.{Map}
use crypto_trading_system.Defs.{
  PosSide, OrderStatus, ExecutionReport, SwapPosition, order_status_eqb,
}
use crypto_trading_system.Double.{Double}
use crypto_trading_system.Registry.{InstrumentRegistry}
use crypto_trading_system.PositionManager.{
  PositionManager, Status, done, and_then, sync_spot_from_exchange, sync_swap_from_exchange,
}
use crypto_trading_system.TradingEngine.State.{TradingEngine, PendingOrderInfo, is_member}
use crypto_trading_system.TradingEngine.Handler.{handle_order_update}

-- The live orders that the exchange does not list.
unfoldable pub find_orphans : List Text → Map Text Text → Map Text Text
find_orphans active [] = []
find_orphans active ((id, instrument) ∷ live) =
    let rest = find_orphans active live in
    if is_member id active then rest else (id, instrument) ∷ rest

abbrev pub is_live : OrderStatus → Bool
is_live status =
    order_status_eqb status OrderStatus.new || order_status_eqb status OrderStatus.partially_filled

-- What `QueryOrderById` answers for an instrument and an order id: `none` if it fails.
abbrev pub Query : Type 0 → Type 0
Query D = Text → Text → Option (ExecutionReport D × Text)

module _ {D : Type 0} where
  unfoldable pub remote_active : List (PendingOrderInfo D) → List Text
  remote_active remote = map (λ i. i.report.order_id) remote

  -- `remote_by_client_order_id`; a later order takes the place of an earlier one with its id.
  unfoldable pub remote_by_client_order_id :
      List (PendingOrderInfo D) → Map Text (ExecutionReport D) → Map Text (ExecutionReport D)
  remote_by_client_order_id [] found = found
  remote_by_client_order_id (i ∷ remote) found =
      remote_by_client_order_id remote
        (if is_empty i.client_order_id then found else Map.assign i.client_order_id i.report found)

module _ {D : Type 0} ⦃d : Double D⦄ where
  -- One round of the loop over the orphans, with the answer for the orphan.
  unfoldable pub replay_answer :
      InstrumentRegistry
      → TradingEngine D
      → Option (ExecutionReport D × Text)
      → TradingEngine D × Status
  replay_answer registry e none = (e, done)
  replay_answer registry e (some (report, client_order_id)) =
      if is_live report.status
      then (e, done)
      else handle_order_update registry e report client_order_id

  abbrev pub replay_orphan :
      InstrumentRegistry → Query D → Text → Text → TradingEngine D → TradingEngine D × Status
  replay_orphan registry query id instrument e = replay_answer registry e (query instrument id)

  -- The loop; an exception ends it.
  unfoldable pub replay_orphans :
      InstrumentRegistry → Query D → Map Text Text → TradingEngine D → TradingEngine D × Status
  replay_orphans registry query [] e = (e, done)
  replay_orphans registry query ((id, instrument) ∷ orphans) e =
      and_then (replay_orphan registry query id instrument e) (λ e. e)
        (λ replayed. replay_orphans registry query orphans replayed)

  -- One round of the loop over the reservations: the exchange lists the order, and it is not live
  -- here.
  unfoldable pub replay_new :
      InstrumentRegistry
      → Map Text (ExecutionReport D)
      → Text
      → TradingEngine D
      → TradingEngine D × Status
  replay_new registry remote client_order_id e = elim (Map.find client_order_id remote) [
    | none ↦ (e, done)
    | some report ↦
        if Map.contains report.order_id e.live_order_instruments
        then (e, done)
        else handle_order_update registry e (record report { status = OrderStatus.new })
            client_order_id
  ]

  unfoldable pub replay_news :
      InstrumentRegistry
      → Map Text (ExecutionReport D)
      → List Text
      → TradingEngine D
      → TradingEngine D × Status
  unfolding replay_new
  replay_news registry remote [] e = (e, done)
  replay_news registry remote (client_order_id ∷ ids) e =
      and_then (replay_new registry remote client_order_id e) (λ e. e)
        (λ replayed. replay_news registry remote ids replayed)

  -- `ReconcileOrders`, with the orders that the exchange lists and its answers for single orders.
  unfoldable pub reconcile_orders :
      InstrumentRegistry
      → List (PendingOrderInfo D)
      → List (PendingOrderInfo D)
      → Query D
      → TradingEngine D
      → TradingEngine D × Status
  unfolding remote_active remote_by_client_order_id find_orphans replay_orphans replay_news
  reconcile_orders registry remote_spot remote_swap query e =
      let remote = remote_spot ++ remote_swap in
      let orphans = find_orphans (remote_active remote) e.live_order_instruments in
      and_then (replay_orphans registry query orphans e) (λ e. e)
        (λ replayed.
          replay_news registry (remote_by_client_order_id remote [])
            (map (λ entry. entry.0) replayed.client_order_id_to_reservation) replayed)

  abbrev pub sync_balances : Map Text (D × D × D) → PositionManager D → PositionManager D
  sync_balances [] m = m
  sync_balances ((currency, (free, locked, owed)) ∷ balances) m =
      sync_balances balances (sync_spot_from_exchange m currency free locked owed)

  unfoldable pub reconcile_balances : TradingEngine D → Map Text (D × D × D) → TradingEngine D
  reconcile_balances e balances = record e {
    position_manager = sync_balances balances e.position_manager;
  }

  abbrev pub sync_sides :
      Text → Map PosSide (SwapPosition D) → PositionManager D → PositionManager D
  sync_sides instrument [] m = m
  sync_sides instrument ((side, p) ∷ sides) m =
      sync_sides instrument sides
        (sync_swap_from_exchange m instrument side p.contracts p.average_opening_price)

  abbrev pub sync_positions :
      Map Text (Map PosSide (SwapPosition D)) → PositionManager D → PositionManager D
  sync_positions [] m = m
  sync_positions ((instrument, sides) ∷ positions) m =
      sync_positions positions (sync_sides instrument sides m)

  unfoldable pub reconcile_swap_positions :
      TradingEngine D → Map Text (Map PosSide (SwapPosition D)) → TradingEngine D
  reconcile_swap_positions e positions = record e {
    position_manager = sync_positions positions e.position_manager;
  }
