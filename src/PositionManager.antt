-- ===== src/PositionManager.antt =====
-- `class PositionManager` of src/trading_engine/position_manager.hpp and position_manager.cpp. Each
-- method takes the manager and returns the new one; one that can throw returns its status beside it,
-- with the manager as it stands at the throw. Every method holds the mutex from its start to its end
-- (`UpdateSwapOnCancel` excepted), so a call is one step. The messages to the log are left out.
mod State
pub mod Locks
pub mod Fills
pub mod Reservations
pub mod Lifecycle
pub mod Contracts
mod Spot
mod Swap
unfoldable pub use State.{entry}
pub use State.{
  SpotPosition, PositionManager, Status, done, out_of_range, null_info, and_then, no_positions,
  empty_spot, empty_swap, available, frozen, reserved,
}
unfoldable pub use Spot.{
  init_spot, init_spot_from_exchange, sync_spot_from_exchange, reserve_spot,
  effective_available_spot, borrowed, can_borrow_more, freeze, lock_in, release, cancel_locked,
  untrack, unreserve, update_spot_on_new, next_tracker, settle_buy, settle_sell, name_both, credit,
  spend_frozen, settle_fill, is_fill, spot_tracker, on_spot, update_spot_on_fill, reject_locked,
  update_spot_on_cancel, update_spot_on_rejected, spot_position,
}
unfoldable pub use Swap.{
  init_sides, init_swap, init_swap_from_exchange, sync_swap_from_exchange, is_opening,
  apply_swap_fill, update_swap_on_fill, update_swap_on_cancel, update_swap_on_rejected,
  swap_position,
}
