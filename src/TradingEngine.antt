-- ===== src/TradingEngine.antt =====
-- `class TradingEngine` of src/trading_engine/trading_engine.hpp and trading_engine.cpp.
-- Each thread's handler is one step here. What the exchange answers is an argument: the pending
-- orders, the balances, the positions and the single order that a query returns. Starting the threads,
-- logging in and subscribing are calls of the exchange client, and the messages to the log are left
-- out, save that a message which reads the instrument's precisions through a null pointer ends the
-- step in `null_info`.
mod State
mod Handler
mod Dispatcher
mod Reconciler
pub mod Live
pub mod Recovery
pub mod Missed
pub mod Orders
pub mod Requests
pub mod Reports
pub use State.{
  ReservationInfo, TradingEngine, PendingOrderInfo, report_capacity, is_member, enlist, of_strategy,
}
unfoldable pub use State.{init_orders, stop, construct}
unfoldable pub use Handler.{
  needs_recovery, recover, mark_live, is_settled, drop_reservation, log_info, settle, notify,
  apply_update, handle_order_update,
}
pub use Dispatcher.{Sent, place_order, cancel_order}
unfoldable pub use Dispatcher.{
  place_request, locked_amount, reserve_amount, reservation_of, dispatch, dispatch_round,
}
unfoldable pub use Reconciler.{
  Query, is_live, remote_active, remote_by_client_order_id, find_orphans, replay_answer,
  replay_orphan, replay_orphans, replay_new, replay_news, reconcile_orders, sync_balances,
  reconcile_balances, sync_sides, sync_positions, reconcile_swap_positions,
}
