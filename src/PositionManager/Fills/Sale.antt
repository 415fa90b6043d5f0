-- ===== src/PositionManager/Fills/Sale.antt =====
-- A cash sale from its NEW over any number of partial fills to its FILLED, in
-- src/trading_engine/position_manager.cpp.
use crypto_trading_system.Prelude.{
  ◌≡◌, refl, sym, ap, ap₂, subst, ◌∙◌, false, List, [], ◌∷◌, some, text_eq, text_eqb, ◌==◌,
  beq_refl, ℤ, pos, ◌+ℤ◌, ◌≤ℤ◌, arith, if◌then◌else◌, get_or_else,
}
use crypto_trading_system.Prelude.Int.{int_laws}
use crypto_trading_system.Prelude.Map
use crypto_trading_system.Defs.{Side, TradeMode, OrderStatus, ExecutionReport, InstrumentInfo}
use crypto_trading_system.Double.{Double, nought, IsExact, IsAdditive}
use crypto_trading_system.Registry
use crypto_trading_system.Registry.{InstrumentRegistry}
use crypto_trading_system.Currency.{extract_base, extract_quote}
use crypto_trading_system.Utils.{decode}
use crypto_trading_system.PositionManager.State.{PositionManager, available, frozen}
use crypto_trading_system.PositionManager.Spot.{
  spot_tracker, update_spot_on_new, update_spot_on_fill,
}
use crypto_trading_system.PositionManager.Locks.{order_lock}
use crypto_trading_system.PositionManager.Lifecycle.{update_spot_on_new_lem}
use crypto_trading_system.PositionManager.Fills.{tracker-update_spot_on_fill}
use crypto_trading_system.PositionManager.Fills.Sequence.{sell_fill_lem}

-- The volumes filled so far do not go down, and end at most at the total.
abbrev pub Rising : ℤ → List ℤ → ℤ → Type 0
Rising seen [] total = seen ≤ℤ total
Rising seen (v ∷ vs) total = (seen ≤ℤ v) × Rising v vs total

module _ {D : Type 0} ⦃d : Double D⦄ where
  open d use {add, sub}

  -- The reports of one order: some volume is filled, and all of it is.
  abbrev pub partly : ExecutionReport D → ℤ → ExecutionReport D
  partly report v = record report { status = OrderStatus.partially_filled; filled_volume = v }

  abbrev pub wholly : ExecutionReport D → ExecutionReport D
  wholly report = record report { status = OrderStatus.filled; filled_volume = report.total_volume }

  -- The partial fills one after the other.
  abbrev pub fills :
      InstrumentRegistry → ExecutionReport D → List ℤ → PositionManager D → PositionManager D
  fills registry report [] m = m
  fills registry report (v ∷ vs) m =
      fills registry report vs (update_spot_on_fill registry m (partly report v) TradeMode.cash).0

  order_lock-sale :
      (info : InstrumentInfo) (report : ExecutionReport D)
      → report.side ≡ Side.sell
      → order_lock info report TradeMode.cash
        ≡ some (extract_base report.instrument, decode report.total_volume info.volume_precision)
  order_lock-sale info report side = ground arith

  value-nought : IsExact D → (value : ℤ → D) → IsAdditive value → value (pos 0) ≡ nought
  value-nought exact value additive =
      let zero : pos 0 +ℤ pos 0 ≡ pos 0 = omega int_laws in
      sym (exact.add-sub (value (pos 0)) (value (pos 0)))
      ∙ ap (λ x. sub x (value (pos 0))) (sym (additive (pos 0) (pos 0)) ∙ ap value zero)
      ∙ ap (λ x. sub x (value (pos 0)))
          (sym (exact.add_comm nought (value (pos 0)) ∙ exact.add_nought (value (pos 0))))
      ∙ exact.add-sub nought (value (pos 0))

  cancel_right : IsExact D → (a b c : D) → add a c ≡ add b c → a ≡ b
  cancel_right exact a b c e = sym (exact.add-sub a c) ∙ ap (λ x. sub x c) e ∙ exact.add-sub b c

  -- What one sale needs of its report: a registered pair of two currencies and a fee outside the base.
  pub record IsSale (registry : InstrumentRegistry) (info : InstrumentInfo)
      (report : ExecutionReport D) : Type 0 where
    pub selling : report.side ≡ Side.sell
    pub registered : Registry.get registry report.instrument ≡ some info
    pub base_quote : (extract_base report.instrument == extract_quote report.instrument) ≡ false
    pub quote_base : (extract_quote report.instrument == extract_base report.instrument) ≡ false
    pub fee_elsewhere : text_eqb report.fee_currency (extract_base report.instrument) ≡ false

  module _ (registry : InstrumentRegistry) (info : InstrumentInfo) (report : ExecutionReport D)
      (exact : IsExact D) (additive : IsAdditive {D = D} (λ v. decode v info.volume_precision))
      (sale : IsSale registry info report) where
    fills_lem :
        (vs : List ℤ) (m : PositionManager D)
        → Rising (spot_tracker m report.order_id) vs report.total_volume
        → let base = extract_base report.instrument in
          let m' = fills registry report vs m in
          (add (frozen m' base) (decode (spot_tracker m' report.order_id) info.volume_precision)
            ≡ add (frozen m base) (decode (spot_tracker m report.order_id) info.volume_precision))
          × (available m' base ≡ available m base)
          × (spot_tracker m' report.order_id ≤ℤ report.total_volume)
    fills_lem [] m rising = (refl, refl, rising)
    fills_lem (v ∷ vs) m (up, rising) =
        let base = extract_base report.instrument in
        let m1 = (update_spot_on_fill registry m (partly report v) TradeMode.cash).0 in
        let seen : spot_tracker m1 report.order_id ≡ v =
          ap (get_or_else (pos 0))
            (tracker-update_spot_on_fill registry m (partly report v) TradeMode.cash refl) in
        let step =
          sell_fill_lem registry m (partly report v) info exact additive refl sale.selling
            sale.registered up sale.base_quote sale.quote_base sale.fee_elsewhere in
        let rest =
          fills_lem vs m1 (subst (λ s. Rising s vs report.total_volume) (sym seen) rising) in
        (
          rest.0 ∙ ap (λ s. add (frozen m1 base) (decode s info.volume_precision)) seen ∙ step.0,
          rest.1 ∙ step.1,
          rest.2,
        )

    -- A cash sale of which nothing was filled before, accepted, filled in any number of parts that do
    -- not go down, and then filled wholly, in exact arithmetic: the frozen base is what it was before
    -- the order, and the available base is less by the order's total. The pair is registered and has
    -- two currencies, and the fee is not in the base.
    pub sell_order_filled :
        (vs : List ℤ) (m : PositionManager D)
        → spot_tracker m report.order_id ≡ pos 0
        → Rising (pos 0) vs report.total_volume
        → let base = extract_base report.instrument in
          let placed = (update_spot_on_new registry m report TradeMode.cash).0 in
          let partial = fills registry report vs placed in
          let m' = (update_spot_on_fill registry partial (wholly report) TradeMode.cash).0 in
          (frozen m' base ≡ frozen m base)
          × (available m' base
              ≡ sub (available m base) (decode report.total_volume info.volume_precision))
    sell_order_filled vs m unseen rising =
        let base = extract_base report.instrument in
        let value : ℤ → D = λ v. decode v info.volume_precision in
        let total : D = value report.total_volume in
        let placed = (update_spot_on_new registry m report TradeMode.cash).0 in
        let new =
          update_spot_on_new_lem registry m report TradeMode.cash info base base total
            sale.registered (order_lock-sale info report sale.selling) in
        let tracked : spot_tracker placed report.order_id ≡ pos 0 =
          ap (Map.at_or (pos 0) report.order_id) new.5 ∙ unseen in
        let partly_filled =
          fills_lem vs placed (subst (λ s. Rising s vs report.total_volume) (sym tracked) rising) in
        let partial = fills registry report vs placed in
        let end =
          sell_fill_lem registry partial (wholly report) info exact additive refl sale.selling
            sale.registered partly_filled.2 sale.base_quote sale.quote_base sale.fee_elsewhere in
        let frozen_all : frozen placed base ≡ add (frozen m base) total =
          new.2
          ∙ ap (λ b. if b then add (frozen m base) total else frozen m base) (beq_refl base) in
        let free : available placed base ≡ sub (available m base) total =
          new.1
          ∙ ap (λ b. if b then sub (available m base) total else available m base)
              (beq_refl base) in
        (
          cancel_right exact _ _ total (
              end.0
              ∙ partly_filled.0
              ∙ ap₂ add frozen_all (ap value tracked ∙ value-nought exact value additive)
              ∙ exact.add_nought (add (frozen m base) total)),
          end.1 ∙ partly_filled.1 ∙ free,
        )
