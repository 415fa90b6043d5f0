-- ===== src/PositionManager/Spot/Fill.antt =====
-- `PositionManager::UpdateSpotOnFill`.
use crypto_trading_system.Prelude.{
  none, some, Bool, ◌||◌, Text, text_eq, text_eqb, pos, ◌-ℤ◌, leb_ℤ, if◌then◌else◌,
}
use crypto_trading_system.Prelude.Map
use crypto_trading_system.Prelude.Map.{Map}
use crypto_trading_system.Defs.{
  Side, TradeMode, OrderStatus, ExecutionReport, Volume, trade_mode_eqb, order_status_eqb,
}
use crypto_trading_system.Double.{Double}
use crypto_trading_system.Registry
use crypto_trading_system.Registry.{InstrumentRegistry}
use crypto_trading_system.Currency.{extract_base, extract_quote}
use crypto_trading_system.Utils.{decode}
use crypto_trading_system.PositionManager.State.{
  SpotPosition, PositionManager, Status, done, out_of_range,
}
use crypto_trading_system.PositionManager.Spot.Balances.{on_spot}

abbrev pub is_fill : OrderStatus → Bool
is_fill status =
    order_status_eqb status OrderStatus.filled
    || order_status_eqb status OrderStatus.partially_filled

module _ {D : Type 0} ⦃d : Double D⦄ where
  open d use {add, sub, mul, abs, lt, le, tiny}

  -- The value of the order's tracker after a fill report.
  unfoldable pub next_tracker : ExecutionReport D → Map Text Volume → Map Text Volume
  next_tracker report tracker =
      if order_status_eqb report.status OrderStatus.filled
      then Map.erase report.order_id tracker
      else Map.assign report.order_id report.filled_volume tracker

  -- The currency names that the fill writes into both entries.
  abbrev pub name_both : Text → Text → PositionManager D → PositionManager D
  name_both base quote m =
      on_spot quote (λ p. record p { currency = quote })
        (on_spot base (λ p. record p { currency = base }) m)

  abbrev pub credit : D → SpotPosition D → SpotPosition D
  credit amount p = record p { available = add p.available amount }

  abbrev pub spend_frozen : D → SpotPosition D → SpotPosition D
  spend_frozen amount p = record p { frozen = sub p.frozen amount }

  -- A bought amount: its price leaves the frozen quote, and the fee comes off either currency.
  unfoldable pub settle_buy :
      Text → Text → ExecutionReport D → D → PositionManager D → PositionManager D
  settle_buy base quote report incremental m =
      let bought =
        on_spot base (credit incremental)
          (on_spot quote (spend_frozen (mul report.avg_fill_price incremental)) m) in
      if text_eqb report.fee_currency base
      then on_spot base (credit report.fee) bought
      else if text_eqb report.fee_currency quote
      then on_spot quote (credit report.fee) bought
      else bought

  unfoldable pub settle_sell :
      Text → Text → ExecutionReport D → TradeMode → D → PositionManager D → PositionManager D
  settle_sell base quote report trade_mode incremental m =
      let given =
        if trade_mode_eqb trade_mode TradeMode.cash
        then on_spot base (spend_frozen incremental) m
        else m in
      let sold = on_spot quote (credit (mul report.avg_fill_price incremental)) given in
      if text_eqb report.fee_currency quote
      then on_spot quote (credit report.fee) sold
      else if text_eqb report.fee_currency base
      then on_spot base (credit report.fee) sold
      else sold

  -- What follows the early return: the part of the order that this report newly shows as filled.
  unfoldable pub settle_fill :
      InstrumentRegistry
      → PositionManager D
      → ExecutionReport D
      → TradeMode
      → Volume
      → PositionManager D × Status
  unfolding settle_buy settle_sell
  settle_fill registry m report trade_mode incremental_scaled =
      elim (Registry.get registry report.instrument) [
        | none ↦ (m, out_of_range)
        | some info ↦
            let base = extract_base report.instrument in
            let quote = extract_quote report.instrument in
            let incremental = decode incremental_scaled info.volume_precision in
            let named = name_both base quote m in
            elim report.side [
              | Side.buy ↦ (settle_buy base quote report incremental named, done)
              | Side.sell ↦ (settle_sell base quote report trade_mode incremental named, done)
            ]
      ]

  abbrev pub spot_tracker : PositionManager D → Text → Volume
  spot_tracker m order_id = Map.at_or (pos 0) order_id m.spot_order_fill_tracker

  unfoldable pub update_spot_on_fill :
      InstrumentRegistry
      → PositionManager D
      → ExecutionReport D
      → TradeMode
      → PositionManager D × Status
  unfolding next_tracker settle_fill
  update_spot_on_fill registry m report trade_mode =
      let incremental_scaled = report.filled_volume -ℤ spot_tracker m report.order_id in
      let tracked = record m {
        spot_order_fill_tracker = next_tracker report m.spot_order_fill_tracker;
      } in
      if is_fill report.status
      then (if leb_ℤ incremental_scaled (pos 0)
          then (tracked, done)
          else settle_fill registry tracked report trade_mode incremental_scaled)
      else (m, done)
