-- ===== src/PositionManager/Spot.antt =====
-- The spot methods of `PositionManager`.
mod Balances
mod Fill
mod Ending
unfoldable pub use Balances.{
  on_spot, init_spot, init_spot_from_exchange, sync_spot_from_exchange, reserve_spot,
  effective_available_spot, borrowed, can_borrow_more, unreserve, lock_in, freeze,
  update_spot_on_new,
}
unfoldable pub use Fill.{
  is_fill, next_tracker, name_both, credit, spend_frozen, settle_buy, settle_sell, settle_fill,
  spot_tracker, update_spot_on_fill,
}
unfoldable pub use Ending.{
  release, cancel_locked, untrack, update_spot_on_cancel, reject_locked, update_spot_on_rejected,
  spot_position,
}
