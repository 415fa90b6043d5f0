-- ===== src/PositionManager/Lifecycle.antt =====
-- What the spot methods of src/trading_engine/position_manager.cpp do to the funds over the life of
-- an order that is not filled.
use crypto_trading_system.Prelude.{
  ◌≡◌, refl, ap, ap₂, ◌∙◌, inl, inr, Bool, true, false, Option, none, some, Text, text_eq, ◌==◌,
  if◌then◌else◌, Bool-cases, Option-cases,
}
use crypto_trading_system.Prelude.Map
use crypto_trading_system.Prelude.Map.{Map, at_or-modify, at_or-modify_self, at_or-modify_ne}
use crypto_trading_system.Defs.{TradeMode, ExecutionReport, InstrumentInfo}
use crypto_trading_system.Double.{Double, nought, max_of, IsExact, move_lem}
use crypto_trading_system.Registry
use crypto_trading_system.Registry.{InstrumentRegistry}
use crypto_trading_system.PositionManager.State.{
  SpotPosition, PositionManager, done, empty_spot, entry, available, frozen, reserved,
}
use crypto_trading_system.PositionManager.Spot.{
  freeze, release, reject_locked, on_spot, cancel_locked, untrack, update_spot_on_new,
  update_spot_on_cancel, update_spot_on_rejected,
}
use crypto_trading_system.PositionManager.Locks.{
  order_lock, with_lock, cancel_lock, entry-unreserve, entry-on_spot, update_spot_on_new-eq,
  update_spot_on_cancel-eq, update_spot_on_cancel_cases, update_spot_on_rejected-eq,
  unknown_instrument, freeze_lem, release_lem,
}

module _ {D : Type 0} ⦃d : Double D⦄ where
  open d use {add, sub, mul, lt, le, tiny}

  -- The funds of a currency.
  abbrev pub funds : PositionManager D → Text → D
  funds m c = add (available m c) (frozen m c)

  -- `UpdateSpotOnNew` for a registered instrument and an order that locks an amount: the amount moves
  -- from available to frozen in the locked currency, its reservation is reduced by that amount and
  -- not below zero, and every other currency, all of the swap side and the trackers stay as they were.
  pub update_spot_on_new_lem :
      (registry : InstrumentRegistry) (m : PositionManager D) (report : ExecutionReport D)
      (mode : TradeMode) (info : InstrumentInfo) (c k : Text) (x : D)
      → Registry.get registry report.instrument ≡ some info
      → order_lock info report mode ≡ some (c, x)
      → let (m', status) = update_spot_on_new registry m report mode in
        (status ≡ done)
        × (available m' k ≡ (if c == k then sub (available m k) x else available m k))
        × (frozen m' k ≡ (if c == k then add (frozen m k) x else frozen m k))
        × (reserved m' k ≡ (if c == k then max_of nought (sub (reserved m k) x) else reserved m k))
        × (m'.swap_positions ≡ m.swap_positions)
        × (m'.spot_order_fill_tracker ≡ m.spot_order_fill_tracker)
        × (m'.swap_order_fill_tracker ≡ m.swap_order_fill_tracker)
  update_spot_on_new_lem registry m report mode info c k x e l =
      let (a, f, r) = freeze_lem c k x m in
      rw (update_spot_on_new-eq registry m report mode info e, l)
        (unfold freeze on_spot in (refl, a, f, r, refl, refl, refl))

  moved :
      IsExact D
      → (b : Bool) (a f x : D) → add (if b then sub a x else a) (if b then add f x else f) ≡ add a f
  moved exact true a f x = move_lem exact a f x
  moved exact false a f x = refl

  moved_back :
      IsExact D
      → (b : Bool) (a f x : D) → add (if b then add a x else a) (if b then sub f x else f) ≡ add a f
  moved_back exact true a f x =
      exact.add_comm (add a x) (sub f x) ∙ move_lem exact f a x ∙ exact.add_comm f a
  moved_back exact false a f x = refl

  funds-freeze :
      IsExact D → (c k : Text) (x : D) (m : PositionManager D) → funds (freeze c x m) k ≡ funds m k
  funds-freeze exact c k x m =
      let figures = freeze_lem c k x m in
      ap₂ add figures.0 figures.1 ∙ moved exact (c == k) (available m k) (frozen m k) x

  funds-release :
      IsExact D
      → (c k : Text) (x : D) (f : SpotPosition D → SpotPosition D) (m : PositionManager D)
      → ((p : SpotPosition D) → ((f p).available ≡ p.available) × ((f p).frozen ≡ p.frozen))
      → funds (on_spot c (λ p. release x (f p)) m) k ≡ funds m k
  funds-release exact c k x f m same =
      let figures = release_lem c k x f m same in
      ap₂ add figures.0 figures.1 ∙ moved_back exact (c == k) (available m k) (frozen m k) x

  funds-cancel_locked :
      IsExact D
      → (c k : Text) (x : D) (m : PositionManager D) → funds (cancel_locked c x m) k ≡ funds m k
  unfolding cancel_locked
  funds-cancel_locked exact c k x m =
      funds-release exact c k x (λ p. record p { currency = c }) m (λ p. (refl, refl))

  if_same : (b : Bool) (p : SpotPosition D) → (if b then p else p) ≡ p
  if_same true p = refl
  if_same false p = refl

  funds-reject_locked :
      IsExact D
      → (c k : Text) (x : D) (m : PositionManager D) → funds (reject_locked c x m) k ≡ funds m k
  unfolding reject_locked
  funds-reject_locked exact c k x m =
      let p = entry m c in
      elim (Bool-cases (le (sub x tiny) p.frozen)) [
        | inl e ↦ rw e (funds-release exact c k x (λ p. p) m (λ p. (refl, refl)))
        | inr e ↦ rw e (
            ap (λ p. add p.available p.frozen)
              (entry-unreserve c k x (on_spot c (λ p. p) m)
                ∙ entry-on_spot c k (λ p. p) m
                ∙ if_same (c == k) (entry m k)))
      ]

  funds-with_lock :
      (l : Option (Text × D)) (f : Text → D → PositionManager D → PositionManager D)
      (m : PositionManager D) (k : Text)
      → ((c : Text) (x : D) → funds (f c x m) k ≡ funds m k)
      → funds (with_lock l f m) k ≡ funds m k
  funds-with_lock none f m k h = refl
  funds-with_lock (some (c, x)) f m k h = h c x

  new_conserved :
      (registry : InstrumentRegistry) (m : PositionManager D) (report : ExecutionReport D)
      (mode : TradeMode) (k : Text)
      → IsExact D
      → funds (update_spot_on_new registry m report mode).0 k ≡ funds m k
  new_conserved registry m report mode k exact =
      elim (Option-cases (Registry.get registry report.instrument)) [
        | inl e ↦ ap (λ r. funds r.0 k) (unknown_instrument registry m report mode e).0
        | inr (info, e) ↦
            ap (λ r. funds r.0 k) (update_spot_on_new-eq registry m report mode info e)
            ∙ funds-with_lock (order_lock info report mode) freeze m k
                (λ c x. funds-freeze exact c k x m)
      ]

  rejected_conserved :
      (registry : InstrumentRegistry) (m : PositionManager D) (report : ExecutionReport D)
      (mode : TradeMode) (k : Text)
      → IsExact D
      → funds (update_spot_on_rejected registry m report mode).0 k ≡ funds m k
  rejected_conserved registry m report mode k exact =
      elim (Option-cases (Registry.get registry report.instrument)) [
        | inl e ↦ ap (λ r. funds r.0 k) (unknown_instrument registry m report mode e).1
        | inr (info, e) ↦
            ap (λ r. funds r.0 k) (update_spot_on_rejected-eq registry m report mode info e)
            ∙ funds-with_lock (order_lock info report mode) reject_locked m k
                (λ c x. funds-reject_locked exact c k x m)
      ]

  cancel_conserved :
      (registry : InstrumentRegistry) (m : PositionManager D) (report : ExecutionReport D)
      (mode : TradeMode) (k : Text)
      → IsExact D
      → funds (update_spot_on_cancel registry m report mode).0 k ≡ funds m k
  unfolding untrack entry
  cancel_conserved registry m report mode k exact =
      elim (update_spot_on_cancel_cases registry m report mode) [
        | inl (info, e, s, more) ↦
            ap (λ r. funds r.0 k) (update_spot_on_cancel-eq registry m report mode info e s more)
            ∙ funds-with_lock (cancel_lock info report mode) cancel_locked m k
                (λ c x. funds-cancel_locked exact c k x m)
        | inr same ↦
            ap
              (λ (ps : Map Text (SpotPosition D)).
                add (Map.at_or empty_spot k ps).available (Map.at_or empty_spot k ps).frozen)
              same
      ]

  -- In exact arithmetic the reports that an order is new, cancelled or rejected never make or destroy
  -- funds: for every report, instrument and currency, known or not, available and frozen add up to
  -- what they were.
  pub funds_conserved :
      (registry : InstrumentRegistry) (m : PositionManager D) (report : ExecutionReport D)
      (mode : TradeMode) (k : Text)
      → IsExact D
      → (funds (update_spot_on_new registry m report mode).0 k ≡ funds m k)
        × (funds (update_spot_on_cancel registry m report mode).0 k ≡ funds m k)
        × (funds (update_spot_on_rejected registry m report mode).0 k ≡ funds m k)
  funds_conserved registry m report mode k exact = (
    new_conserved registry m report mode k exact,
    cancel_conserved registry m report mode k exact,
    rejected_conserved registry m report mode k exact,
  )
