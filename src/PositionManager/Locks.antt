-- ===== src/PositionManager/Locks.antt =====
-- The life of an order's lock: `ReserveSpot`, then `UpdateSpotOnNew`, then `UpdateSpotOnCancel` or
-- `UpdateSpotOnRejected`, of src/trading_engine/position_manager.cpp.
use crypto_trading_system.Prelude.{
  ◌≡◌, refl, ap, ◌∙◌, ◌⊎◌, inl, inr, true, Option, none, some, Text, text_eq, ◌==◌, pos, ◌-ℤ◌,
  ltb_ℤ, arith, if◌then◌else◌, Bool-cases, Option-cases, ap-if,
}
use crypto_trading_system.Prelude.Map.{at_or-modify}
use crypto_trading_system.Defs.{
  Side, TradeMode, OrderStatus, ExecutionReport, InstrumentInfo, trade_mode_eqb, order_status_eqb,
  order_status_eqb_iff,
}
use crypto_trading_system.Double.{Double, nought, max_of}
use crypto_trading_system.Registry
use crypto_trading_system.Registry.{InstrumentRegistry}
use crypto_trading_system.Currency.{extract_base, extract_quote}
use crypto_trading_system.Utils.{decode}
use crypto_trading_system.PositionManager.State.{
  SpotPosition, PositionManager, done, out_of_range, empty_spot, entry, available, frozen, reserved,
}
use crypto_trading_system.PositionManager.Spot.{
  freeze, unreserve, release, lock_in, reject_locked, on_spot, cancel_locked, untrack,
  update_spot_on_new, update_spot_on_cancel, update_spot_on_rejected,
}

module _ {D : Type 0} ⦃d : Double D⦄ where
  open d use {add, sub, mul, lt, le, tiny}

  -- What an order of a report locks while it is open: the price of a purchase in the quote currency,
  -- the amount of a cash sale in the base currency, and nothing for a sale on margin.
  abbrev pub order_lock : InstrumentInfo → ExecutionReport D → TradeMode → Option (Text × D)
  order_lock info report mode = elim report.side [
    | Side.buy ↦ some (
      extract_quote report.instrument,
      mul (decode report.price info.price_precision)
          (decode report.total_volume info.volume_precision),
    )
    | Side.sell ↦
        if trade_mode_eqb mode TradeMode.cash
        then some (extract_base report.instrument, decode report.total_volume info.volume_precision)
        else none
  ]

  -- A change of the manager by what is locked.
  abbrev pub with_lock :
      Option (Text × D)
      → (Text → D → PositionManager D → PositionManager D)
      → PositionManager D
      → PositionManager D
  with_lock none f m = m
  with_lock (some (c, amount)) f m = f c amount m

  pub update_spot_on_new-eq :
      (registry : InstrumentRegistry) (m : PositionManager D) (report : ExecutionReport D)
      (mode : TradeMode) (info : InstrumentInfo)
      → Registry.get registry report.instrument ≡ some info
      → update_spot_on_new registry m report mode
        ≡ (with_lock (order_lock info report mode) freeze m, done)
  unfolding update_spot_on_new
  update_spot_on_new-eq registry m report mode info e = ground arith

  pub update_spot_on_rejected-eq :
      (registry : InstrumentRegistry) (m : PositionManager D) (report : ExecutionReport D)
      (mode : TradeMode) (info : InstrumentInfo)
      → Registry.get registry report.instrument ≡ some info
      → update_spot_on_rejected registry m report mode
        ≡ (with_lock (order_lock info report mode) reject_locked m, done)
  unfolding update_spot_on_rejected
  update_spot_on_rejected-eq registry m report mode info e = ground arith

  -- What a cancelled order gives back: the same as it locked, for the volume that is not filled.
  abbrev pub cancel_lock : InstrumentInfo → ExecutionReport D → TradeMode → Option (Text × D)
  cancel_lock info report mode =
      let remaining = decode (report.total_volume -ℤ report.filled_volume) info.volume_precision in
      elim report.side [
        | Side.buy ↦ some (
          extract_quote report.instrument,
          mul remaining (decode report.price info.price_precision),
        )
        | Side.sell ↦
            if trade_mode_eqb mode TradeMode.cash
            then some (extract_base report.instrument, remaining)
            else none
      ]

  pub update_spot_on_cancel-eq :
      (registry : InstrumentRegistry) (m : PositionManager D) (report : ExecutionReport D)
      (mode : TradeMode) (info : InstrumentInfo)
      → Registry.get registry report.instrument ≡ some info
      → report.status ≡ OrderStatus.cancelled
      → ltb_ℤ (pos 0) (report.total_volume -ℤ report.filled_volume) ≡ true
      → update_spot_on_cancel registry m report mode
        ≡ (untrack report.order_id (with_lock (cancel_lock info report mode) cancel_locked m), done)
  unfolding update_spot_on_cancel
  update_spot_on_cancel-eq registry m report mode info e s r = ground arith

  -- In the other cases a cancel changes no position.
  pub update_spot_on_cancel_cases :
      (registry : InstrumentRegistry) (m : PositionManager D) (report : ExecutionReport D)
      (mode : TradeMode)
      → ((info : InstrumentInfo) × (Registry.get registry report.instrument ≡ some info)
          × (report.status ≡ OrderStatus.cancelled)
          × (ltb_ℤ (pos 0) (report.total_volume -ℤ report.filled_volume) ≡ true))
        ⊎ ((update_spot_on_cancel registry m report mode).0.spot_positions ≡ m.spot_positions)
  unfolding update_spot_on_cancel
  update_spot_on_cancel_cases registry m report mode =
      elim (Option-cases (Registry.get registry report.instrument)) [
        | inl e ↦ inr (ground arith)
        | inr (info, e) ↦
            elim (Bool-cases (ltb_ℤ (pos 0) (report.total_volume -ℤ report.filled_volume))) [
              | inl more ↦
                  elim (Bool-cases (order_status_eqb report.status OrderStatus.cancelled)) [
                    | inl s ↦ inl (
                      info,
                      e,
                      (order_status_eqb_iff report.status OrderStatus.cancelled).0 s,
                      more,
                    )
                    | inr s ↦ inr (ground arith)
                  ]
              | inr none_left ↦ inr (ground arith)
            ]
      ]

  pub unknown_instrument :
      (registry : InstrumentRegistry) (m : PositionManager D) (report : ExecutionReport D)
      (mode : TradeMode)
      → Registry.get registry report.instrument ≡ none
      → (update_spot_on_new registry m report mode ≡ (m, out_of_range))
        × (update_spot_on_rejected registry m report mode ≡ (m, out_of_range))
  unfolding update_spot_on_new update_spot_on_rejected
  unknown_instrument registry m report mode e = ground arith

  -- What one change of one entry does to each currency's figures.
  pub entry-on_spot :
      (c k : Text) (f : SpotPosition D → SpotPosition D) (m : PositionManager D)
      → entry (on_spot c f m) k ≡ (if c == k then f (entry m k) else entry m k)
  unfolding entry on_spot
  entry-on_spot c k f m = at_or-modify empty_spot c k f m.spot_positions

  pub available-on_spot :
      (c k : Text) (f : SpotPosition D → SpotPosition D) (m : PositionManager D)
      → available (on_spot c f m) k ≡ (if c == k then (f (entry m k)).available else available m k)
  available-on_spot c k f m =
      ap (λ (p : SpotPosition D). p.available) (entry-on_spot c k f m)
      ∙ ap-if (λ (p : SpotPosition D). p.available) (c == k) _ _

  pub frozen-on_spot :
      (c k : Text) (f : SpotPosition D → SpotPosition D) (m : PositionManager D)
      → frozen (on_spot c f m) k ≡ (if c == k then (f (entry m k)).frozen else frozen m k)
  frozen-on_spot c k f m =
      ap (λ (p : SpotPosition D). p.frozen) (entry-on_spot c k f m)
      ∙ ap-if (λ (p : SpotPosition D). p.frozen) (c == k) _ _

  pub entry-unreserve :
      (c k : Text) (x : D) (m : PositionManager D) → entry (unreserve c x m) k ≡ entry m k
  unfolding unreserve entry
  entry-unreserve c k x m = refl

  pub reserved-on_spot :
      (c k : Text) (f : SpotPosition D → SpotPosition D) (m : PositionManager D)
      → reserved (on_spot c f m) k ≡ reserved m k
  unfolding on_spot
  reserved-on_spot c k f m = refl

  pub reserved-unreserve :
      (c k : Text) (x : D) (m : PositionManager D)
      → reserved (unreserve c x m) k
        ≡ (if c == k then max_of nought (sub (reserved m k) x) else reserved m k)
  unfolding unreserve
  reserved-unreserve c k x m =
      at_or-modify nought c k (λ r. max_of nought (sub r x)) m.spot_reserved

  -- The figures of currency `k` after an amount `x` of currency `c` is frozen.
  pub freeze_lem :
      (c k : Text) (x : D) (m : PositionManager D)
      → (available (freeze c x m) k ≡ (if c == k then sub (available m k) x else available m k))
        × (frozen (freeze c x m) k ≡ (if c == k then add (frozen m k) x else frozen m k))
        × (reserved (freeze c x m) k
            ≡ (if c == k then max_of nought (sub (reserved m k) x) else reserved m k))
  freeze_lem c k x m =
      let locked = on_spot c (lock_in c x) m in
      unfold freeze in
      (
        ap (λ p. p.available) (entry-unreserve c k x locked)
            ∙ available-on_spot c k (lock_in c x) m,
        ap (λ p. p.frozen) (entry-unreserve c k x locked) ∙ frozen-on_spot c k (lock_in c x) m,
        reserved-unreserve c k x locked
            ∙ ap (λ r. if c == k then max_of nought (sub r x) else r)
                (reserved-on_spot c k (lock_in c x) m),
      )

  pub release_lem :
      (c k : Text) (x : D) (f : SpotPosition D → SpotPosition D) (m : PositionManager D)
      → ((p : SpotPosition D) → ((f p).available ≡ p.available) × ((f p).frozen ≡ p.frozen))
      → let m' = on_spot c (λ p. release x (f p)) m in
        (available m' k ≡ (if c == k then add (available m k) x else available m k))
        × (frozen m' k ≡ (if c == k then sub (frozen m k) x else frozen m k))
  unfolding release
  release_lem c k x f m same =
      let p = entry m k in
      (
        available-on_spot c k (λ p. release x (f p)) m
            ∙ ap (λ a. if c == k then add a x else available m k) (same p).0,
        frozen-on_spot c k (λ p. release x (f p)) m
            ∙ ap (λ a. if c == k then sub a x else frozen m k) (same p).1,
      )
