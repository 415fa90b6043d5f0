-- ===== src/PositionManager/Fills/Repeated.antt =====
-- Reports of fills that come twice or late, in src/trading_engine/position_manager.cpp.
use crypto_trading_system.Prelude.{
  ◌≡◌, ap, ◌∙◌, false, none, some, Text, text_eq, text_eqb, ◌==◌, ℤ, pos, ◌-ℤ◌, leb_ℤ,
  if◌then◌else◌, get_or_else,
}
use crypto_trading_system.Prelude.Int.{int_laws}
use crypto_trading_system.Prelude.Map
use crypto_trading_system.Prelude.Map.{Map, find-assign_self, find-erase_self, assign-found}
use crypto_trading_system.Defs.{
  Side, TradeMode, OrderStatus, ExecutionReport, InstrumentInfo, Volume, order_status_eqb,
}
use crypto_trading_system.Double.{Double}
use crypto_trading_system.Registry
use crypto_trading_system.Registry.{InstrumentRegistry}
use crypto_trading_system.Currency.{extract_base, extract_quote}
use crypto_trading_system.Utils.{decode}
use crypto_trading_system.PositionManager.State.{PositionManager, Status, done, entry, available}
use crypto_trading_system.PositionManager.Spot.{
  next_tracker, name_both, credit, settle_buy, settle_sell, is_fill, spot_tracker,
  update_spot_on_fill,
}
use crypto_trading_system.PositionManager.Fills.{
  named, settle_buy_lem, update_spot_on_fill-tracked, tracker-update_spot_on_fill,
  update_spot_on_fill-eq,
}

-ℤ_self : (a : ℤ) → a -ℤ a ≡ pos 0
-ℤ_self a = omega int_laws

-ℤ_zero : (a : ℤ) → a -ℤ pos 0 ≡ a
-ℤ_zero a = omega int_laws

module _ {D : Type 0} ⦃d : Double D⦄ where
  open d use {add, sub, mul}

  next_tracker-seen :
      (report : ExecutionReport D) (tracker : Map Text Volume)
      → report.status ≡ OrderStatus.partially_filled
      → Map.find report.order_id tracker ≡ some report.filled_volume
      → next_tracker report tracker ≡ tracker
  unfolding next_tracker
  next_tracker-seen report tracker s seen =
      ap
        (λ x.
          if order_status_eqb x OrderStatus.filled
          then Map.erase report.order_id tracker
          else Map.assign report.order_id report.filled_volume tracker)
        s
      ∙ assign-found report.order_id report.filled_volume tracker seen

  -- A report of a partial fill that is delivered twice counts once: the second delivery leaves the
  -- whole manager as the first one left it.
  pub partial_fill_repeated :
      (registry : InstrumentRegistry) (m : PositionManager D) (report : ExecutionReport D)
      (mode : TradeMode)
      → report.status ≡ OrderStatus.partially_filled
      → let once = (update_spot_on_fill registry m report mode).0 in
        update_spot_on_fill registry once report mode ≡ (once, done)
  partial_fill_repeated registry m report mode s =
      let once = (update_spot_on_fill registry m report mode).0 in
      let seen : Map.find report.order_id once.spot_order_fill_tracker ≡ some report.filled_volume =
        tracker-update_spot_on_fill registry m report mode (ap is_fill s)
        ∙ ap (λ b. if b then none else some report.filled_volume)
            (ap (λ x. order_status_eqb x OrderStatus.filled) s) in
      let level : spot_tracker once report.order_id ≡ report.filled_volume =
        ap (get_or_else (pos 0)) seen in
      let same : report.filled_volume -ℤ spot_tracker once report.order_id ≡ pos 0 =
        ap (λ t. report.filled_volume -ℤ t) level ∙ -ℤ_self report.filled_volume in
      let kept : next_tracker report once.spot_order_fill_tracker ≡ once.spot_order_fill_tracker =
        next_tracker-seen report once.spot_order_fill_tracker s seen in
      update_spot_on_fill-tracked registry once report mode (ap is_fill s)
        (ap (λ v. leb_ℤ v (pos 0)) same)
      ∙ ap (λ t. (record once { spot_order_fill_tracker = t }, done)) kept

  -- What a FILLED does to the available base when the order has no tracker.
  filled_at_once :
      (registry : InstrumentRegistry) (m : PositionManager D) (report : ExecutionReport D)
      (mode : TradeMode) (info : InstrumentInfo)
      → report.status ≡ OrderStatus.filled
      → report.side ≡ Side.buy
      → Registry.get registry report.instrument ≡ some info
      → Map.find report.order_id m.spot_order_fill_tracker ≡ none
      → leb_ℤ report.filled_volume (pos 0) ≡ false
      → let base = extract_base report.instrument in
        let quote = extract_quote report.instrument in
        (base == quote) ≡ false
        → (quote == base) ≡ false
        → (base == report.fee_currency) ≡ false
        → (quote == report.fee_currency) ≡ false
        → text_eqb report.fee_currency base ≡ false
        → available (update_spot_on_fill registry m report mode).0 base
          ≡ add (available m base) (decode report.filled_volume info.volume_precision)
  unfolding entry
  filled_at_once registry m report mode info s side k unseen more p q r t fee =
      let base = extract_base report.instrument in
      let quote = extract_quote report.instrument in
      let zero : spot_tracker m report.order_id ≡ pos 0 = ap (get_or_else (pos 0)) unseen in
      let whole : report.filled_volume -ℤ spot_tracker m report.order_id ≡ report.filled_volume =
        ap (λ v. report.filled_volume -ℤ v) zero ∙ -ℤ_zero report.filled_volume in
      let tracked = record m {
        spot_order_fill_tracker = next_tracker report m.spot_order_fill_tracker;
      } in
      let amount : D =
        decode (report.filled_volume -ℤ spot_tracker m report.order_id) info.volume_precision in
      let named_both = name_both base quote tracked in
      ap (λ x. available x.0 base)
        (update_spot_on_fill-eq registry m report mode info (ap is_fill s)
          (ap (λ v. leb_ℤ v (pos 0)) whole ∙ more) k)
      ∙ ap
          (λ x.
            available
              (elim x as (λ x. PositionManager D × Status) [
                | Side.buy ↦ (settle_buy base quote report amount named_both, done)
                | Side.sell ↦ (settle_sell base quote report mode amount named_both, done)
              ]).0
              base)
          side
      ∙ ap (λ x. x.available)
          ((settle_buy_lem base quote report.fee_currency report amount tracked p q r t).0
            ∙ ap
                (λ b.
                  if b
                  then credit report.fee (credit amount (named base (entry m base)))
                  else credit amount (named base (entry m base)))
                fee)
      ∙ ap (λ v. add (available m base) (decode v info.volume_precision)) whole

  -- A FILLED report of a purchase that is delivered twice is counted twice: the second delivery adds
  -- the whole filled volume to the available base again, since the first one has erased the order's
  -- tracker. The order had no tracker, its fee is in neither currency of the pair, and the volume is
  -- positive.
  pub filled_repeated :
      (registry : InstrumentRegistry) (m : PositionManager D) (report : ExecutionReport D)
      (mode : TradeMode) (info : InstrumentInfo)
      → report.status ≡ OrderStatus.filled
      → report.side ≡ Side.buy
      → Registry.get registry report.instrument ≡ some info
      → Map.find report.order_id m.spot_order_fill_tracker ≡ none
      → leb_ℤ report.filled_volume (pos 0) ≡ false
      → let base = extract_base report.instrument in
        let quote = extract_quote report.instrument in
        (base == quote) ≡ false
        → (quote == base) ≡ false
        → (base == report.fee_currency) ≡ false
        → (quote == report.fee_currency) ≡ false
        → text_eqb report.fee_currency base ≡ false
        → let amount = decode {D = D} report.filled_volume info.volume_precision in
          let once = (update_spot_on_fill registry m report mode).0 in
          let twice = (update_spot_on_fill registry once report mode).0 in
          available twice base ≡ add (add (available m base) amount) amount
  filled_repeated registry m report mode info s side k unseen more p q r t fee =
      let amount : D = decode report.filled_volume info.volume_precision in
      let once = (update_spot_on_fill registry m report mode).0 in
      let erased : Map.find report.order_id once.spot_order_fill_tracker ≡ none =
        tracker-update_spot_on_fill registry m report mode (ap is_fill s)
        ∙ ap
            (λ x. if order_status_eqb x OrderStatus.filled then none else some report.filled_volume)
            s in
      filled_at_once registry once report mode info s side k erased more p q r t fee
      ∙ ap (λ x. add x amount)
          (filled_at_once registry m report mode info s side k unseen more p q r t fee)
