-- ===== src/PositionManager/Fills/Sequence.antt =====
-- The life of a cash sale over all its fills, in src/trading_engine/position_manager.cpp.
use crypto_trading_system.Prelude.{
  ◌≡◌, refl, sym, ap, ap₂, ◌∙◌, inl, inr, true, false, some, Text, text_eq, text_eqb, ◌==◌,
  beq_refl, ℤ, pos, ◌+ℤ◌, ◌-ℤ◌, ◌≤ℤ◌, leb_ℤ, arith, Bool-cases,
}
use crypto_trading_system.Prelude.Int.{int_laws, -ℤ_parts, eq_of_parts}
use crypto_trading_system.Defs.{Side, TradeMode, ExecutionReport, InstrumentInfo}
use crypto_trading_system.Double.{Double, IsExact, IsAdditive}
use crypto_trading_system.Registry
use crypto_trading_system.Registry.{InstrumentRegistry}
use crypto_trading_system.Currency.{extract_base, extract_quote}
use crypto_trading_system.Utils.{decode}
use crypto_trading_system.PositionManager.State.{
  SpotPosition, PositionManager, Status, done, entry, available, frozen,
}
use crypto_trading_system.PositionManager.Spot.{
  next_tracker, name_both, spend_frozen, settle_buy, settle_sell, is_fill, spot_tracker,
  update_spot_on_fill,
}
use crypto_trading_system.PositionManager.Locks.{entry-on_spot}
use crypto_trading_system.PositionManager.Fills.{
  named, update_spot_on_fill-tracked, update_spot_on_fill-eq,
}

-- What is filled beyond what was seen, and what was seen, add up to what is filled.
filled_parts : (filled seen : ℤ) → (filled -ℤ seen) +ℤ seen ≡ filled
filled_parts filled seen = omega int_laws

nothing_new :
    (filled seen : ℤ) → seen ≤ℤ filled → leb_ℤ (filled -ℤ seen) (pos 0) ≡ true → filled ≡ seen
nothing_new filled seen rising none_new =
    ground (arith, -ℤ_parts filled seen, eq_of_parts filled seen)

module _ {D : Type 0} ⦃d : Double D⦄ where
  open d use {add, sub, mul}

  settle_sell-base :
      (base quote : Text) (report : ExecutionReport D) (amount : D) (m : PositionManager D)
      → (base == quote) ≡ false
      → (quote == base) ≡ false
      → text_eqb report.fee_currency base ≡ false
      → entry (settle_sell base quote report TradeMode.cash amount (name_both base quote m)) base
        ≡ spend_frozen amount (named base (entry m base))
  unfolding settle_sell
  settle_sell-base base quote report amount m p q fee =
      let b = beq_refl base in
      let c = beq_refl quote in
      elim (Bool-cases (text_eqb report.fee_currency quote)) [
        | inl e ↦ rw e (simp (entry-on_spot, p, q, b, c) refl)
        | inr e ↦ rw e (rw fee (simp (entry-on_spot, p, q, b, c) refl))
      ]

  -- The base after a report that shows some volume newly filled.
  entry-sell_fill :
      (registry : InstrumentRegistry) (m : PositionManager D) (report : ExecutionReport D)
      (info : InstrumentInfo)
      → is_fill report.status ≡ true
      → report.side ≡ Side.sell
      → Registry.get registry report.instrument ≡ some info
      → leb_ℤ (report.filled_volume -ℤ spot_tracker m report.order_id) (pos 0) ≡ false
      → let base = extract_base report.instrument in
        let quote = extract_quote report.instrument in
        (base == quote) ≡ false
        → (quote == base) ≡ false
        → text_eqb report.fee_currency base ≡ false
        → entry (update_spot_on_fill registry m report TradeMode.cash).0 base
          ≡ spend_frozen
              (decode
                (report.filled_volume -ℤ spot_tracker m report.order_id)
                info.volume_precision)
              (named base (entry m base))
  unfolding entry
  entry-sell_fill registry m report info s side k more p q fee =
      let base = extract_base report.instrument in
      let quote = extract_quote report.instrument in
      let tracked = record m {
        spot_order_fill_tracker = next_tracker report m.spot_order_fill_tracker;
      } in
      let amount : D =
        decode (report.filled_volume -ℤ spot_tracker m report.order_id) info.volume_precision in
      let named_both = name_both base quote tracked in
      ap (λ x. entry x.0 base)
        (update_spot_on_fill-eq registry m report TradeMode.cash info s more k)
      ∙ ap
          (λ x.
            entry
              (elim x as (λ x. PositionManager D × Status) [
                | Side.buy ↦ (settle_buy base quote report amount named_both, done)
                | Side.sell ↦ (settle_sell base quote report TradeMode.cash amount named_both, done)
              ]).0
              base)
          side
      ∙ settle_sell-base base quote report amount tracked p q fee

  -- One report of a fill of a cash sale in exact arithmetic, where the filled volume has not gone down:
  -- what is frozen of the base and what is filled of the order add up to what they were, and the
  -- available base stays. The two currencies differ and the fee is not in the base.
  pub sell_fill_lem :
      (registry : InstrumentRegistry) (m : PositionManager D) (report : ExecutionReport D)
      (info : InstrumentInfo)
      → IsExact D
      → let value : ℤ → D = λ v. decode v info.volume_precision in
        let base = extract_base report.instrument in
        let quote = extract_quote report.instrument in
        let seen = spot_tracker m report.order_id in
        let m' = (update_spot_on_fill registry m report TradeMode.cash).0 in
        IsAdditive value
        → is_fill report.status ≡ true
        → report.side ≡ Side.sell
        → Registry.get registry report.instrument ≡ some info
        → seen ≤ℤ report.filled_volume
        → (base == quote) ≡ false
        → (quote == base) ≡ false
        → text_eqb report.fee_currency base ≡ false
        → (add (frozen m' base) (value report.filled_volume) ≡ add (frozen m base) (value seen))
          × (available m' base ≡ available m base)
  unfolding entry
  sell_fill_lem registry m report info exact additive s side k rising p q fee =
      let value : ℤ → D = λ v. decode v info.volume_precision in
      let base = extract_base report.instrument in
      let seen = spot_tracker m report.order_id in
      let fresh = report.filled_volume -ℤ seen in
      elim (Bool-cases (leb_ℤ fresh (pos 0))) [
        | inl none_new ↦
            let same =
              ap (λ x. entry x.0 base)
                (update_spot_on_fill-tracked registry m report TradeMode.cash s none_new) in
            (
              ap₂ (λ (e : SpotPosition D) v. add e.frozen (value v)) same
                  (nothing_new report.filled_volume seen rising none_new),
              ap (λ e. e.available) same,
            )
        | inr more ↦
            let sold = entry-sell_fill registry m report info s side k more p q fee in
            (
              ap₂ (λ (e : SpotPosition D) v. add e.frozen v) sold
                    (ap value (sym (filled_parts report.filled_volume seen)) ∙ additive fresh seen)
                  ∙ sym (
                      exact.add_assoc (sub (frozen m base) (value fresh)) (value fresh)
                        (value seen))
                  ∙ ap (λ x. add x (value seen)) (exact.sub-add (frozen m base) (value fresh)),
              ap (λ e. e.available) sold,
            )
      ]
