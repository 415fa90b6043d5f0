-- ===== src/PositionManager/Reservations.antt =====
-- Round trips of an order's lock, and the accounting of reserved balances, of
-- src/trading_engine/position_manager.cpp.
use crypto_trading_system.Prelude.{
  ◌≡◌, refl, sym, ap, ap₂, ◌∙◌, ◌⊎◌, inl, inr, Bool, true, false, Option, none, some, Text, text_eq,
  ◌==◌, beq_refl, pos, ◌-ℤ◌, ltb_ℤ, arith, if◌then◌else◌, Bool-cases,
}
use crypto_trading_system.Prelude.Int.{int_laws}
use crypto_trading_system.Prelude.Map.{at_or-modify_self}
use crypto_trading_system.Defs.{TradeMode, OrderStatus, ExecutionReport, InstrumentInfo}
use crypto_trading_system.Double.{Double, nought, max_of, IsExact, sub_sub}
use crypto_trading_system.Registry
use crypto_trading_system.Registry.{InstrumentRegistry}
use crypto_trading_system.Utils.{decode}
use crypto_trading_system.PositionManager.State.{
  SpotPosition, PositionManager, entry, available, frozen, reserved,
}
use crypto_trading_system.PositionManager.Spot.{
  freeze, release, reject_locked, on_spot, reserve_spot, cancel_locked, untrack, update_spot_on_new,
  update_spot_on_cancel, update_spot_on_rejected, effective_available_spot,
}
use crypto_trading_system.PositionManager.Locks.{
  order_lock, with_lock, cancel_lock, update_spot_on_new-eq, update_spot_on_cancel-eq,
  update_spot_on_rejected-eq, entry-on_spot, entry-unreserve, reserved-on_spot, reserved-unreserve,
  freeze_lem, release_lem,
}

module _ {D : Type 0} ⦃d : Double D⦄ where
  open d use {add, sub, mul, lt, le, tiny}

  -- The order's report when it comes back cancelled with nothing filled.
  abbrev pub cancelled_unfilled : ExecutionReport D → ExecutionReport D
  cancelled_unfilled report = record report {
    status = OrderStatus.cancelled;
    filled_volume = pos 0;
  }

  cancel_lock-unfilled :
      IsExact D
      → (info : InstrumentInfo) (report : ExecutionReport D) (mode : TradeMode)
      → cancel_lock info (cancelled_unfilled report) mode ≡ order_lock info report mode
  cancel_lock-unfilled exact info report mode =
      let all : report.total_volume -ℤ pos 0 ≡ report.total_volume = omega int_laws in
      ground (
        arith,
        all,
        exact.mul_comm (decode report.total_volume info.volume_precision)
            (decode report.price info.price_precision),
      )

  restored_down :
      IsExact D
      → (b : Bool) (a x : D)
      → (if b then add (if b then sub a x else a) x else (if b then sub a x else a)) ≡ a
  restored_down exact true a x = exact.sub-add a x
  restored_down exact false a x = refl

  restored_up :
      IsExact D
      → (b : Bool) (a x : D)
      → (if b then sub (if b then add a x else a) x else (if b then add a x else a)) ≡ a
  restored_up exact true a x = exact.add-sub a x
  restored_up exact false a x = refl

  -- Freezing an amount and releasing it again restores both figures of every currency.
  freeze-release :
      IsExact D
      → (c k : Text) (x : D) (f : SpotPosition D → SpotPosition D) (m : PositionManager D)
      → ((p : SpotPosition D) → ((f p).available ≡ p.available) × ((f p).frozen ≡ p.frozen))
      → let m' = on_spot c (λ p. release x (f p)) (freeze c x m) in
        (available m' k ≡ available m k) × (frozen m' k ≡ frozen m k)
  freeze-release exact c k x f m same =
      let back = release_lem c k x f (freeze c x m) same in
      let there = freeze_lem c k x m in
      (
        back.0
            ∙ ap (λ a. if c == k then add a x else a) there.0
            ∙ restored_down exact (c == k) (available m k) x,
        back.1
            ∙ ap (λ a. if c == k then sub a x else a) there.1
            ∙ restored_up exact (c == k) (frozen m k) x,
      )

  freeze-cancel_locked :
      IsExact D
      → (c k : Text) (x : D) (m : PositionManager D)
      → let m' = cancel_locked c x (freeze c x m) in
        (available m' k ≡ available m k) × (frozen m' k ≡ frozen m k)
  unfolding cancel_locked
  freeze-cancel_locked exact c k x m =
      freeze-release exact c k x (λ p. record p { currency = c }) m (λ p. (refl, refl))

  with_lock-restored :
      IsExact D
      → (l : Option (Text × D)) (k : Text) (m : PositionManager D)
      → let m' = with_lock l cancel_locked (with_lock l freeze m) in
        (available m' k ≡ available m k) × (frozen m' k ≡ frozen m k)
  with_lock-restored exact none k m = (refl, refl)
  with_lock-restored exact (some (c, x)) k m = freeze-cancel_locked exact c k x m

  -- In exact arithmetic an order of a registered instrument, whose total volume is above zero, that is
  -- accepted and then cancelled with nothing filled leaves the available and the frozen amount of every
  -- currency as they were.
  pub new_then_cancelled :
      (registry : InstrumentRegistry) (m : PositionManager D) (report : ExecutionReport D)
      (mode : TradeMode) (info : InstrumentInfo) (k : Text)
      → IsExact D
      → Registry.get registry report.instrument ≡ some info
      → ltb_ℤ (pos 0) report.total_volume ≡ true
      → let placed = (update_spot_on_new registry m report mode).0 in
        let m' = (update_spot_on_cancel registry placed (cancelled_unfilled report) mode).0 in
        (available m' k ≡ available m k) × (frozen m' k ≡ frozen m k)
  unfolding untrack entry
  new_then_cancelled registry m report mode info k exact e positive =
      let all : report.total_volume -ℤ pos 0 ≡ report.total_volume = omega int_laws in
      let l = order_lock info report mode in
      let new_eq = ap (λ r. r.0) (update_spot_on_new-eq registry m report mode info e) in
      let after =
        update_spot_on_cancel-eq registry (with_lock l freeze m) (cancelled_unfilled report) mode
          info e refl (ap (ltb_ℤ (pos 0)) all ∙ positive) in
      let restored = with_lock-restored exact l k m in
      rw (new_eq, after, cancel_lock-unfilled exact info report mode) restored

  effective-reserve_spot :
      (m : PositionManager D) (c : Text) (x : D)
      → effective_available_spot (reserve_spot m c x) c ≡ sub (available m c) (add (reserved m c) x)
  unfolding effective_available_spot reserve_spot entry
  effective-reserve_spot m c x =
      ap (sub (available m c)) (at_or-modify_self nought c (λ r. add r x) m.spot_reserved)

  -- A reservation that is nothing or above nothing comes back when an amount is put on it and taken
  -- off again.
  reserved-back :
      IsExact D
      → (r x : D) → (lt nought r ≡ true) ⊎ (r ≡ nought)
      → max_of nought (sub (add r x) x) ≡ r
  reserved-back exact r x (inl above) = rw (exact.add-sub r x, above)
  reserved-back exact r x (inr none_yet) =
      rw (exact.add-sub r x)
        (elim (Bool-cases (lt nought r)) [ inl e ↦ rw e | inr e ↦ rw e (sym none_yet) ])

  reserved-reserve_spot :
      (m : PositionManager D) (c : Text) (x : D)
      → reserved (reserve_spot m c x) c ≡ add (reserved m c) x
  unfolding reserve_spot
  reserved-reserve_spot m c x = at_or-modify_self nought c (λ r. add r x) m.spot_reserved

  available-reserve_spot :
      (m : PositionManager D) (c : Text) (x : D) → available (reserve_spot m c x) c ≡ available m c
  unfolding reserve_spot entry
  available-reserve_spot m c x = refl

  frozen-reserve_spot :
      (m : PositionManager D) (c : Text) (x : D) → frozen (reserve_spot m c x) c ≡ frozen m c
  unfolding reserve_spot entry
  frozen-reserve_spot m c x = refl

  -- In exact arithmetic, when a strategy has reserved what its order locks and the order is then
  -- accepted, the amount is added to the frozen one of the currency, its reservation is what it was
  -- before `ReserveSpot`, and the effective available amount stays as it was after `ReserveSpot`, if no
  -- reservation was below zero before.
  pub reserve_then_new :
      (registry : InstrumentRegistry) (m : PositionManager D) (report : ExecutionReport D)
      (mode : TradeMode) (info : InstrumentInfo) (c : Text) (x : D)
      → IsExact D
      → Registry.get registry report.instrument ≡ some info
      → order_lock info report mode ≡ some (c, x)
      → (lt nought (reserved m c) ≡ true) ⊎ (reserved m c ≡ nought)
      → let ordered = reserve_spot m c x in
        let placed = (update_spot_on_new registry ordered report mode).0 in
        (effective_available_spot placed c ≡ effective_available_spot ordered c)
        × (reserved placed c ≡ reserved m c)
        × (frozen placed c ≡ add (frozen m c) x)
  unfolding effective_available_spot
  reserve_then_new registry m report mode info c x exact e l nonneg =
      let ordered = reserve_spot m c x in
      let figures = freeze_lem c c x ordered in
      let here =
        ap (λ b. if b then sub (available ordered c) x else available ordered c) (beq_refl c) in
      let left : reserved (freeze c x ordered) c ≡ reserved m c =
        figures.2
        ∙ ap (λ b. if b then max_of nought (sub (reserved ordered c) x) else reserved ordered c)
            (beq_refl c)
        ∙ ap (λ r. max_of nought (sub r x)) (reserved-reserve_spot m c x)
        ∙ reserved-back exact (reserved m c) x nonneg in
      let down : available (freeze c x ordered) c ≡ sub (available m c) x =
        figures.0 ∙ here ∙ ap (λ a. sub a x) (available-reserve_spot m c x) in
      let up : frozen (freeze c x ordered) c ≡ add (frozen m c) x =
        figures.1
        ∙ ap (λ b. if b then add (frozen ordered c) x else frozen ordered c) (beq_refl c)
        ∙ ap (λ a. add a x) (frozen-reserve_spot m c x) in
      rw (update_spot_on_new-eq registry ordered report mode info e, l)
        (
          ap₂ sub down left
              ∙ sub_sub exact (available m c) x (reserved m c)
              ∙ ap (sub (available m c)) (exact.add_comm x (reserved m c))
              ∙ sym (effective-reserve_spot m c x),
          left,
          up,
        )

  sub-add_both : IsExact D → (a r x : D) → sub (add a x) (add r x) ≡ sub a r
  sub-add_both exact a r x =
      ap (sub (add a x)) (exact.add_comm r x)
      ∙ sym (sub_sub exact (add a x) x r)
      ∙ ap (λ y. sub y r) (exact.add-sub a x)

  effective-reject_locked :
      IsExact D
      → (m : PositionManager D) (c : Text) (x : D)
      → (lt nought (reserved m c) ≡ true) ⊎ (reserved m c ≡ nought)
      → effective_available_spot (reject_locked c x (reserve_spot m c x)) c
        ≡ effective_available_spot m c
  unfolding effective_available_spot reject_locked
  effective-reject_locked exact m c x nonneg =
      let ordered = reserve_spot m c x in
      let p = entry ordered c in
      elim (Bool-cases (le (sub x tiny) p.frozen)) [
        | inl e ↦ rw e (
            ap₂ sub
              ((release_lem c c x (λ p. p) ordered (λ p. (refl, refl))).0
                ∙ ap (λ b. if b then add (available ordered c) x else available ordered c)
                    (beq_refl c)
                ∙ ap (λ a. add a x) (available-reserve_spot m c x))
              (reserved-on_spot c c (release x) ordered ∙ reserved-reserve_spot m c x)
            ∙ sub-add_both exact (available m c) (reserved m c) x)
        | inr e ↦ rw e (
            ap₂ sub
              (ap (λ p. p.available)
                  (entry-unreserve c c x (on_spot c (λ p. p) ordered)
                    ∙ entry-on_spot c c (λ p. p) ordered
                    ∙ ap (λ b. if b then entry ordered c else entry ordered c) (beq_refl c))
                ∙ available-reserve_spot m c x)
              (reserved-unreserve c c x (on_spot c (λ p. p) ordered)
                ∙ ap
                    (λ b.
                      if b
                      then max_of nought (sub (reserved (on_spot c (λ p. p) ordered) c) x)
                      else reserved (on_spot c (λ p. p) ordered) c)
                    (beq_refl c)
                ∙ ap (λ r. max_of nought (sub r x))
                    (reserved-on_spot c c (λ p. p) ordered ∙ reserved-reserve_spot m c x)
                ∙ reserved-back exact (reserved m c) x nonneg))
      ]

  -- In exact arithmetic, when a strategy has reserved what its order locks and the order is then
  -- rejected, the effective available amount of the currency is what it was before `ReserveSpot`, on
  -- both branches of `UpdateSpotOnRejected`, if no reservation was below zero before.
  pub reserve_then_rejected :
      (registry : InstrumentRegistry) (m : PositionManager D) (report : ExecutionReport D)
      (mode : TradeMode) (info : InstrumentInfo) (c : Text) (x : D)
      → IsExact D
      → Registry.get registry report.instrument ≡ some info
      → order_lock info report mode ≡ some (c, x)
      → (lt nought (reserved m c) ≡ true) ⊎ (reserved m c ≡ nought)
      → let m' = (update_spot_on_rejected registry (reserve_spot m c x) report mode).0 in
        effective_available_spot m' c ≡ effective_available_spot m c
  reserve_then_rejected registry m report mode info c x exact e l nonneg =
      rw (update_spot_on_rejected-eq registry (reserve_spot m c x) report mode info e, l)
        (effective-reject_locked exact m c x nonneg)
