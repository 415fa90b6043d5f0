-- ===== src/PositionManager/Fills.antt =====
-- `UpdateSpotOnFill` of src/trading_engine/position_manager.cpp: what one report of a fill does to the
-- positions and to the order's tracker.
pub mod Repeated
pub mod Sequence
pub mod Sale
use crypto_trading_system.Prelude.{
  ◌≡◌, ◌≢◌, refl, sym, ap, ap₂, ◌∙◌, ◌⊎◌, inl, inr, Bool, true, false, ◌||◌, Option, none, some,
  Text, text_eq, text_eqb, text_eqb_iff, ◌==◌, beq_refl, beq_of_ne, ℤ, pos, ◌-ℤ◌, ltb_ℤ, leb_ℤ,
  arith, if◌then◌else◌, Bool-cases, Option-cases, get_or_else,
}
use crypto_trading_system.Prelude.Int.{int_laws}
use crypto_trading_system.Prelude.Map
use crypto_trading_system.Prelude.Map.{Map, find-assign_self, find-erase_self, assign-found}
use crypto_trading_system.Defs.{
  Side, TradeMode, OrderStatus, ExecutionReport, InstrumentInfo, Volume, trade_mode_eqb,
  order_status_eqb,
}
use crypto_trading_system.Double.{Double, nought, max_of}
use crypto_trading_system.Registry
use crypto_trading_system.Registry.{InstrumentRegistry}
use crypto_trading_system.Currency.{extract_base, extract_quote}
use crypto_trading_system.Utils.{decode}
use crypto_trading_system.PositionManager.State.{
  SpotPosition, PositionManager, Status, done, out_of_range, entry, available, frozen, reserved,
}
use crypto_trading_system.PositionManager.Spot.{
  on_spot, next_tracker, name_both, credit, spend_frozen, settle_buy, settle_sell, settle_fill,
  is_fill, spot_tracker, update_spot_on_fill,
}
use crypto_trading_system.PositionManager.Locks.{entry-on_spot}

module _ {D : Type 0} ⦃d : Double D⦄ where
  open d use {add, sub, mul}

  -- The fee, which the exchange reports as a negative amount, is booked in its own currency.
  abbrev pub charge : Text → ExecutionReport D → SpotPosition D → SpotPosition D
  charge c report p = if text_eqb report.fee_currency c then credit report.fee p else p

  abbrev pub named : Text → SpotPosition D → SpotPosition D
  named c p = record p { currency = c }

  -- A purchase between two different currencies: the amount joins the available base, its price
  -- leaves the frozen quote, the fee is booked if its currency is one of the two, and no other currency
  -- changes.
  pub settle_buy_lem :
      (base quote k : Text) (report : ExecutionReport D) (amount : D) (m : PositionManager D)
      → (base == quote) ≡ false
      → (quote == base) ≡ false
      → (base == k) ≡ false
      → (quote == k) ≡ false
      → let m' = settle_buy base quote report amount (name_both base quote m) in
        let paid = spend_frozen (mul report.avg_fill_price amount) (named quote (entry m quote)) in
        (entry m' base ≡ charge base report (credit amount (named base (entry m base))))
        × (entry m' quote
            ≡ (if text_eqb report.fee_currency base then paid else charge quote report paid))
        × (entry m' k ≡ entry m k)
  unfolding settle_buy
  settle_buy_lem base quote k report amount m p q r s =
      let b = beq_refl base in
      let c = beq_refl quote in
      elim (Bool-cases (text_eqb report.fee_currency base)) [
        | inl e ↦ rw e (simp (entry-on_spot, p, q, r, s, b, c) (refl, refl, refl))
        | inr e ↦ rw e (elim (Bool-cases (text_eqb report.fee_currency quote)) [
          | inl f ↦ rw f (simp (entry-on_spot, p, q, r, s, b, c) (refl, refl, refl))
          | inr f ↦ rw f (simp (entry-on_spot, p, q, r, s, b, c) (refl, refl, refl))
        ])
      ]

  -- A sale: its proceeds join the available quote, the amount leaves the frozen base unless it was
  -- sold on margin, the fee is booked if its currency is one of the two, and no other currency changes.
  -- The two currencies differ.
  pub settle_sell_lem :
      (base quote k : Text) (report : ExecutionReport D) (mode : TradeMode) (amount : D)
      (m : PositionManager D)
      → (base == quote) ≡ false
      → (quote == base) ≡ false
      → (base == k) ≡ false
      → (quote == k) ≡ false
      → let m' = settle_sell base quote report mode amount (name_both base quote m) in
        let given =
          if trade_mode_eqb mode TradeMode.cash
          then spend_frozen amount (named base (entry m base))
          else named base (entry m base) in
        let received = credit (mul report.avg_fill_price amount) (named quote (entry m quote)) in
        (entry m' quote ≡ charge quote report received)
        × (entry m' base
            ≡ (if text_eqb report.fee_currency quote then given else charge base report given))
        × (entry m' k ≡ entry m k)
  unfolding settle_sell
  settle_sell_lem base quote k report mode amount m p q r s =
      let b = beq_refl base in
      let c = beq_refl quote in
      elim (Bool-cases (trade_mode_eqb mode TradeMode.cash)) [
        | inl cash ↦ rw cash (elim (Bool-cases (text_eqb report.fee_currency quote)) [
          | inl e ↦ rw e (simp (entry-on_spot, p, q, r, s, b, c) (refl, refl, refl))
          | inr e ↦ rw e (elim (Bool-cases (text_eqb report.fee_currency base)) [
            | inl f ↦ rw f (simp (entry-on_spot, p, q, r, s, b, c) (refl, refl, refl))
            | inr f ↦ rw f (simp (entry-on_spot, p, q, r, s, b, c) (refl, refl, refl))
          ])
        ])
        | inr margin ↦ rw margin (elim (Bool-cases (text_eqb report.fee_currency quote)) [
          | inl e ↦ rw e (simp (entry-on_spot, p, q, r, s, b, c) (refl, refl, refl))
          | inr e ↦ rw e (elim (Bool-cases (text_eqb report.fee_currency base)) [
            | inl f ↦ rw f (simp (entry-on_spot, p, q, r, s, b, c) (refl, refl, refl))
            | inr f ↦ rw f (simp (entry-on_spot, p, q, r, s, b, c) (refl, refl, refl))
          ])
        ])
      ]

  -- A report that shows nothing newly filled moves the tracker only.
  pub update_spot_on_fill-tracked :
      (registry : InstrumentRegistry) (m : PositionManager D) (report : ExecutionReport D)
      (mode : TradeMode)
      → is_fill report.status ≡ true
      → leb_ℤ (report.filled_volume -ℤ spot_tracker m report.order_id) (pos 0) ≡ true
      → update_spot_on_fill registry m report mode ≡ (
        record m { spot_order_fill_tracker = next_tracker report m.spot_order_fill_tracker },
        done,
      )
  unfolding update_spot_on_fill
  update_spot_on_fill-tracked registry m report mode f less = ground arith

  tracker-settle_fill :
      (registry : InstrumentRegistry) (m : PositionManager D) (report : ExecutionReport D)
      (mode : TradeMode) (v : Volume)
      → (settle_fill registry m report mode v).0.spot_order_fill_tracker ≡ m.spot_order_fill_tracker
  unfolding settle_fill on_spot
  tracker-settle_fill registry m report mode v = ground arith

  next_tracker_lem :
      (report : ExecutionReport D) (tracker : Map Text Volume)
      → Map.find report.order_id (next_tracker report tracker) ≡ (
          if order_status_eqb report.status OrderStatus.filled
          then none
          else some report.filled_volume)
  unfolding next_tracker
  next_tracker_lem report tracker = ground (
    arith,
    find-assign_self report.order_id report.filled_volume tracker,
    find-erase_self report.order_id tracker,
  )

  tracked_by :
      (registry : InstrumentRegistry) (m : PositionManager D) (report : ExecutionReport D)
      (mode : TradeMode)
      → is_fill report.status ≡ true
      → (update_spot_on_fill registry m report mode).0.spot_order_fill_tracker
        ≡ next_tracker report m.spot_order_fill_tracker
  unfolding update_spot_on_fill
  tracked_by registry m report mode f =
      let tracked = record m {
        spot_order_fill_tracker = next_tracker report m.spot_order_fill_tracker;
      } in
      ground (
        arith,
        tracker-settle_fill registry tracked report mode
            (report.filled_volume -ℤ spot_tracker m report.order_id),
      )

  -- The tracker of the order after a report of a fill: nothing when the order is filled, else the
  -- volume reported.
  pub tracker-update_spot_on_fill :
      (registry : InstrumentRegistry) (m : PositionManager D) (report : ExecutionReport D)
      (mode : TradeMode)
      → is_fill report.status ≡ true
      → Map.find report.order_id
          (update_spot_on_fill registry m report mode).0.spot_order_fill_tracker
        ≡ (if order_status_eqb report.status OrderStatus.filled
            then none
            else some report.filled_volume)
  tracker-update_spot_on_fill registry m report mode f =
      ap (Map.find report.order_id) (tracked_by registry m report mode f)
      ∙ next_tracker_lem report m.spot_order_fill_tracker

  -- A report that shows some volume newly filled, for a registered instrument.
  pub update_spot_on_fill-eq :
      (registry : InstrumentRegistry) (m : PositionManager D) (report : ExecutionReport D)
      (mode : TradeMode) (info : InstrumentInfo)
      → is_fill report.status ≡ true
      → leb_ℤ (report.filled_volume -ℤ spot_tracker m report.order_id) (pos 0) ≡ false
      → Registry.get registry report.instrument ≡ some info
      → let amount =
          decode {D = D}
            (report.filled_volume -ℤ spot_tracker m report.order_id)
            info.volume_precision in
        let base = extract_base report.instrument in
        let quote = extract_quote report.instrument in
        let named_both =
          name_both base quote (record m {
            spot_order_fill_tracker = next_tracker report m.spot_order_fill_tracker;
          }) in
        update_spot_on_fill registry m report mode ≡ elim report.side [
          | Side.buy ↦ (settle_buy base quote report amount named_both, done)
          | Side.sell ↦ (settle_sell base quote report mode amount named_both, done)
        ]
  unfolding update_spot_on_fill
  update_spot_on_fill-eq registry m report mode info f more e = ground arith
