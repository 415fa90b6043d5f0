-- ===== src/PositionManager/Swap.antt =====
-- The swap methods of `PositionManager`.
use crypto_trading_system.Prelude.{
  [], ◌∷◌, none, some, Bool, Text, text_eq, pos, ◌-ℤ◌, leb_ℤ, pair_eq, if◌then◌else◌, get_or_else,
}
use crypto_trading_system.Prelude.Map
use crypto_trading_system.Prelude.Map.{Map}
use crypto_trading_system.Defs.{
  Side, PosSide, OrderStatus, ExecutionReport, SwapPosition, order_status_eqb, side_eqb,
  pos_side_eq,
}
use crypto_trading_system.Double.{Double, nought}
use crypto_trading_system.Registry
use crypto_trading_system.Registry.{InstrumentRegistry}
use crypto_trading_system.Utils.{decode}
use crypto_trading_system.PositionManager.State.{
  PositionManager, Status, done, out_of_range, empty_swap,
}

-- A fill opens a position on these sides, and closes it otherwise.
unfoldable pub is_opening : PosSide → Side → Bool
is_opening PosSide.net side = side_eqb side Side.buy
is_opening PosSide.long side = side_eqb side Side.buy
is_opening PosSide.short side = side_eqb side Side.sell

module _ {D : Type 0} ⦃d : Double D⦄ where
  open d use {add, sub, abs, lt, tiny}

  -- The two loops of `InitSwapFromExchange`: the sides of one instrument, and all instruments.
  unfoldable pub init_sides :
      Text
      → Map PosSide (SwapPosition D)
      → Map (Text × PosSide) (SwapPosition D)
      → Map (Text × PosSide) (SwapPosition D)
  init_sides instrument [] positions = positions
  init_sides instrument ((side, position) ∷ sides) positions =
      init_sides instrument sides (Map.assign (instrument, side) position positions)

  unfoldable pub init_swap :
      Map Text (Map PosSide (SwapPosition D))
      → Map (Text × PosSide) (SwapPosition D)
      → Map (Text × PosSide) (SwapPosition D)
  unfolding init_sides
  init_swap [] positions = positions
  init_swap ((instrument, sides) ∷ rest) positions =
      init_swap rest (init_sides instrument sides positions)

  unfoldable pub init_swap_from_exchange :
      PositionManager D → Map Text (Map PosSide (SwapPosition D)) → PositionManager D
  unfolding init_swap
  init_swap_from_exchange m positions = record m { swap_positions = init_swap positions [] }

  unfoldable pub sync_swap_from_exchange :
      PositionManager D → Text → PosSide → D → D → PositionManager D
  sync_swap_from_exchange m instrument side contracts average =
      let put = λ (p : SwapPosition D). record m {
        swap_positions =
            Map.assign (instrument, side)
              (record p {
                instrument = instrument;
                position_side = side;
                contracts = contracts;
                average_opening_price = average;
              })
              m.swap_positions;
      } in
      elim (Map.find (instrument, side) m.swap_positions) [
        | none ↦ put empty_swap
        | some position ↦
            if lt tiny (abs (sub position.contracts contracts)) then put position else m
      ]

  -- The contracts after a fill; closing stops at zero.
  unfoldable pub apply_swap_fill : PosSide → Side → D → D → D
  unfolding is_opening
  apply_swap_fill position_side side incremental contracts =
      if is_opening position_side side
      then add contracts incremental
      else let left = sub contracts incremental in if lt left nought then nought else left

  unfoldable pub update_swap_on_fill :
      InstrumentRegistry → PositionManager D → ExecutionReport D → PositionManager D × Status
  unfolding apply_swap_fill
  update_swap_on_fill registry m report =
      let key : Text × PosSide = (report.instrument, report.position_side) in
      let seen = Map.at_or (pos 0) report.order_id m.swap_order_fill_tracker in
      let incremental_scaled = report.filled_volume -ℤ seen in
      let named = record m {
        swap_positions =
            Map.modify empty_swap key
              (λ p. record p {
                instrument = report.instrument;
                position_side = report.position_side;
              })
              m.swap_positions;
        swap_order_fill_tracker =
            if order_status_eqb report.status OrderStatus.filled
            then Map.erase report.order_id m.swap_order_fill_tracker
            else Map.assign report.order_id report.filled_volume m.swap_order_fill_tracker;
      } in
      if leb_ℤ incremental_scaled (pos 0)
      then (named, done)
      else elim (Registry.get registry report.instrument) [
        | none ↦ (named, out_of_range)
        | some info ↦ (
          record named {
            swap_positions =
                Map.modify empty_swap key
                  (λ p. record p {
                    contracts =
                        apply_swap_fill report.position_side report.side
                          (decode incremental_scaled info.volume_precision) p.contracts;
                  })
                  named.swap_positions;
          },
          done,
        )
      ]

  -- This method does not take the mutex.
  unfoldable pub update_swap_on_cancel : PositionManager D → ExecutionReport D → PositionManager D
  update_swap_on_cancel m report = record m {
    swap_order_fill_tracker = Map.erase report.order_id m.swap_order_fill_tracker;
  }

  -- It only logs.
  unfoldable pub update_swap_on_rejected : PositionManager D → ExecutionReport D → PositionManager D
  update_swap_on_rejected m report = m

  -- `GetSwapPosition`
  unfoldable pub swap_position : PositionManager D → Text → PosSide → SwapPosition D
  swap_position m instrument side =
      get_or_else (record empty_swap { instrument = instrument; position_side = side })
        (Map.find (instrument, side) m.swap_positions)
