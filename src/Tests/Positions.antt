-- ===== src/Tests/Positions.antt =====
-- The position manager at concrete inputs.
use crypto_trading_system.Prelude.{◌≡◌, ℤ, refl, [], ◌∷◌, arith, inr, pos, text_eq, text_eqb, codes}
use crypto_trading_system.Prelude.Int.{◌*ℤ◌, ◌-ℤ◌}
use crypto_trading_system.Prelude.Map
use crypto_trading_system.Defs.{ExecutionReport, Side, PosSide, OrderStatus, TradeMode}
use crypto_trading_system.Double.{IsAdditive}
use crypto_trading_system.Double.Whole.{whole_double, Whole-IsExact, div_ℤ-one-IsAdditive}
use crypto_trading_system.Currency.{extract_base, extract_quote}
use crypto_trading_system.Utils.{decode}
use crypto_trading_system.PositionManager.{swap_position, update_swap_on_fill}
use crypto_trading_system.PositionManager.{
  done, available, frozen, reserved, update_spot_on_new, update_spot_on_fill, update_spot_on_cancel,
  update_spot_on_rejected, reserve_spot, effective_available_spot,
}
use crypto_trading_system.PositionManager.Locks.{order_lock}
use crypto_trading_system.PositionManager.Lifecycle.{funds, funds_conserved}
use crypto_trading_system.PositionManager.Reservations.{
  cancelled_unfilled, new_then_cancelled, reserve_then_new, reserve_then_rejected,
}
use crypto_trading_system.PositionManager.Fills.Repeated.{partial_fill_repeated, filled_repeated}
use crypto_trading_system.PositionManager.Fills.Sale.{fills, wholly, IsSale, sell_order_filled}
use crypto_trading_system.PositionManager.Contracts.{
  contracts_after, swap_increment, update_swap_on_fill_lem,
}
use crypto_trading_system.Tests.{pair, pair_info, one_instrument, ten_each, purchase}

funds_conserved_example :
    (funds
        (update_spot_on_new one_instrument ten_each (purchase OrderStatus.new) TradeMode.cash).0
        (codes "B")
      ≡ funds ten_each (codes "B"))
    × (funds
          (update_spot_on_cancel one_instrument ten_each
            (purchase OrderStatus.new)
            TradeMode.cash).0
          (codes "B")
        ≡ funds ten_each (codes "B"))
    × (funds
          (update_spot_on_rejected one_instrument ten_each
            (purchase OrderStatus.new)
            TradeMode.cash).0
          (codes "B")
        ≡ funds ten_each (codes "B"))
funds_conserved_example =
    funds_conserved one_instrument ten_each (purchase OrderStatus.new) TradeMode.cash (codes "B")
      Whole-IsExact

new_then_cancelled_example :
    let placed =
      (update_spot_on_new one_instrument ten_each (purchase OrderStatus.new) TradeMode.cash).0 in
    let m' =
      (update_spot_on_cancel one_instrument placed
        (cancelled_unfilled (purchase OrderStatus.new))
        TradeMode.cash).0 in
    (available m' (codes "B") ≡ available ten_each (codes "B"))
    × (frozen m' (codes "B") ≡ frozen ten_each (codes "B"))
unfolding Map.find text_eqb
new_then_cancelled_example =
    new_then_cancelled one_instrument ten_each (purchase OrderStatus.new) TradeMode.cash pair_info
      (codes "B") Whole-IsExact refl refl

reserve_then_new_example :
    let ordered = reserve_spot ten_each (codes "B") (pos 6) in
    let placed =
      (update_spot_on_new one_instrument ordered (purchase OrderStatus.new) TradeMode.cash).0 in
    (effective_available_spot placed (codes "B") ≡ effective_available_spot ordered (codes "B"))
    × (reserved placed (codes "B") ≡ reserved ten_each (codes "B"))
    × (frozen placed (codes "B") ≡ whole_double.add (frozen ten_each (codes "B")) (pos 6))
unfolding Map.find text_eqb order_lock decode ◌*ℤ◌ extract_quote
reserve_then_new_example =
    reserve_then_new one_instrument ten_each (purchase OrderStatus.new) TradeMode.cash pair_info
      (codes "B") (pos 6) Whole-IsExact refl refl (inr refl)

reserve_then_rejected_example :
    effective_available_spot
      (update_spot_on_rejected one_instrument
        (reserve_spot ten_each (codes "B") (pos 6))
        (purchase OrderStatus.rejected)
        TradeMode.cash).0
      (codes "B")
    ≡ effective_available_spot ten_each (codes "B")
unfolding Map.find text_eqb order_lock decode ◌*ℤ◌ extract_quote
reserve_then_rejected_example =
    reserve_then_rejected one_instrument ten_each (purchase OrderStatus.rejected) TradeMode.cash
      pair_info (codes "B") (pos 6) Whole-IsExact refl refl (inr refl)

partial_fill_repeated_example :
    let once =
      (update_spot_on_fill one_instrument ten_each
        (purchase OrderStatus.partially_filled)
        TradeMode.cash).0 in
    update_spot_on_fill one_instrument once (purchase OrderStatus.partially_filled) TradeMode.cash
    ≡ (once, done)
partial_fill_repeated_example =
    partial_fill_repeated one_instrument ten_each (purchase OrderStatus.partially_filled)
      TradeMode.cash refl

filled_repeated_example :
    let once =
      (update_spot_on_fill one_instrument ten_each
        (purchase OrderStatus.filled)
        TradeMode.cash).0 in
    let twice =
      (update_spot_on_fill one_instrument once (purchase OrderStatus.filled) TradeMode.cash).0 in
    available twice (extract_base pair)
    ≡ whole_double.add
        (whole_double.add (available ten_each (extract_base pair)) (decode (pos 1) 0))
        (decode (pos 1) 0)
unfolding Map.find text_eqb extract_base extract_quote
filled_repeated_example =
    filled_repeated one_instrument ten_each (purchase OrderStatus.filled) TradeMode.cash pair_info
      refl refl refl refl refl refl refl refl refl refl

-- A sale of 3 A.
abbrev sale : ExecutionReport ℤ
sale = record (purchase OrderStatus.new) { side = Side.sell }

sale-IsSale : IsSale one_instrument pair_info sale
unfolding Map.find text_eqb extract_base extract_quote
sale-IsSale = record {
  selling = refl;
  registered = refl;
  base_quote = refl;
  quote_base = refl;
  fee_elsewhere = refl;
}

decode-IsAdditive : IsAdditive {D = ℤ} (λ v. decode v 0)
unfolding decode
decode-IsAdditive = div_ℤ-one-IsAdditive

sell_order_filled_example :
    let placed = (update_spot_on_new one_instrument ten_each sale TradeMode.cash).0 in
    let partial = fills one_instrument sale (pos 1 ∷ pos 1 ∷ pos 2 ∷ []) placed in
    let m' = (update_spot_on_fill one_instrument partial (wholly sale) TradeMode.cash).0 in
    (frozen m' (extract_base pair) ≡ frozen ten_each (extract_base pair))
    × (available m' (extract_base pair)
        ≡ whole_double.sub (available ten_each (extract_base pair)) (decode (pos 3) 0))
unfolding Map.find
sell_order_filled_example =
    sell_order_filled one_instrument pair_info sale Whole-IsExact decode-IsAdditive sale-IsSale
      (pos 1 ∷ pos 1 ∷ pos 2 ∷ []) ten_each refl (ground arith)

-- A closing fill of one contract of a short position.
abbrev closing : ExecutionReport ℤ
closing = record (purchase OrderStatus.filled) { position_side = PosSide.short }

update_swap_on_fill_lem_example :
    let m' = (update_swap_on_fill one_instrument ten_each closing).0 in
    let before = (swap_position ten_each pair PosSide.short).contracts in
    let after = (swap_position m' pair PosSide.short).contracts in
    (after
      ≡ contracts_after PosSide.short Side.buy before (decode (swap_increment ten_each closing) 0))
unfolding Map.find text_eqb ◌-ℤ◌
update_swap_on_fill_lem_example =
    update_swap_on_fill_lem one_instrument ten_each closing pair_info refl refl
