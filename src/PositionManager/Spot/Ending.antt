-- ===== src/PositionManager/Spot/Ending.antt =====
-- `PositionManager::UpdateSpotOnCancel`, `UpdateSpotOnRejected` and `GetSpotPosition`.
use crypto_trading_system.Prelude.{
  none, some, Text, text_eq, pos, ◌-ℤ◌, ltb_ℤ, if◌then◌else◌, get_or_else,
}
use crypto_trading_system.Prelude.Map
use crypto_trading_system.Prelude.Map.{Map}
use crypto_trading_system.Defs.{
  Side, TradeMode, OrderStatus, ExecutionReport, trade_mode_eqb, order_status_eqb,
}
use crypto_trading_system.Double.{Double}
use crypto_trading_system.Registry
use crypto_trading_system.Registry.{InstrumentRegistry}
use crypto_trading_system.Currency.{extract_base, extract_quote}
use crypto_trading_system.Utils.{decode}
use crypto_trading_system.PositionManager.State.{
  SpotPosition, PositionManager, Status, done, out_of_range, empty_spot, entry,
}
use crypto_trading_system.PositionManager.Spot.Balances.{on_spot, unreserve}

module _ {D : Type 0} ⦃d : Double D⦄ where
  open d use {add, sub, mul, abs, lt, le, tiny}

  -- A frozen amount becomes available again.
  unfoldable pub release : D → SpotPosition D → SpotPosition D
  release amount p = record p { available = add p.available amount; frozen = sub p.frozen amount }

  -- The body of `UpdateSpotOnCancel` for the currency that the order locks.
  unfoldable pub cancel_locked : Text → D → PositionManager D → PositionManager D
  unfolding release
  cancel_locked currency amount m =
      on_spot currency (λ p. release amount (record p { currency = currency })) m

  unfoldable pub untrack : Text → PositionManager D → PositionManager D
  untrack order_id m = record m {
    spot_order_fill_tracker = Map.erase order_id m.spot_order_fill_tracker;
  }

  unfoldable pub update_spot_on_cancel :
      InstrumentRegistry
      → PositionManager D
      → ExecutionReport D
      → TradeMode
      → PositionManager D × Status
  unfolding cancel_locked untrack
  update_spot_on_cancel registry m report trade_mode =
      let remaining_scaled = report.total_volume -ℤ report.filled_volume in
      if order_status_eqb report.status OrderStatus.cancelled
      then (if ltb_ℤ (pos 0) remaining_scaled
          then elim (Registry.get registry report.instrument) [
            | none ↦ (m, out_of_range)
            | some info ↦
                let remaining = decode remaining_scaled info.volume_precision in
                elim report.side [
                  | Side.buy ↦ (
                    untrack report.order_id (
                        cancel_locked (extract_quote report.instrument)
                          (mul remaining (decode report.price info.price_precision)) m),
                    done,
                  )
                  | Side.sell ↦
                      if trade_mode_eqb trade_mode TradeMode.cash
                      then (
                        untrack report.order_id
                            (cancel_locked (extract_base report.instrument) remaining m),
                        done,
                      )
                      else (untrack report.order_id m, done)
                ]
          ]
          else (untrack report.order_id m, done))
      else (m, done)

  -- The body of `UpdateSpotOnRejected` for the currency that the order locks. `operator[]` makes the
  -- entry of a currency that is not there yet.
  unfoldable pub reject_locked : Text → D → PositionManager D → PositionManager D
  unfolding release unreserve
  reject_locked currency amount m =
      let position = entry m currency in
      if le (sub amount tiny) position.frozen
      then on_spot currency (release amount) m
      else unreserve currency amount (on_spot currency (λ p. p) m)

  unfoldable pub update_spot_on_rejected :
      InstrumentRegistry
      → PositionManager D
      → ExecutionReport D
      → TradeMode
      → PositionManager D × Status
  unfolding reject_locked
  update_spot_on_rejected registry m report trade_mode =
      elim (Registry.get registry report.instrument) [
        | none ↦ (m, out_of_range)
        | some info ↦ elim report.side [
          | Side.sell ↦
              if trade_mode_eqb trade_mode TradeMode.cash
              then (
                reject_locked (extract_base report.instrument)
                    (decode report.total_volume info.volume_precision) m,
                done,
              )
              else (m, done)
          | Side.buy ↦ (
            reject_locked (extract_quote report.instrument)
                (mul (decode report.price info.price_precision)
                  (decode report.total_volume info.volume_precision))
                m,
            done,
          )
        ]
      ]

  -- `GetSpotPosition`
  unfoldable pub spot_position : PositionManager D → Text → SpotPosition D
  spot_position m currency =
      get_or_else (record empty_spot { currency = currency }) (Map.find currency m.spot_positions)
