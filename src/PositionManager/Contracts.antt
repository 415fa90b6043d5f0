-- ===== src/PositionManager/Contracts.antt =====
-- What `SyncSpotFromExchange` and `UpdateSwapOnFill` of src/trading_engine/position_manager.cpp make of
-- the positions.
use crypto_trading_system.Prelude.{
  ◌≡◌, refl, sym, subst, ap, ◌∙◌, ◌⊎◌, inl, inr, Bool, true, false, ◌||◌, Option, none, some, Text,
  text_eq, ◌==◌, pos, ◌-ℤ◌, leb_ℤ, arith, if◌then◌else◌, Bool-cases, Option-cases, get_or_else,
  pair_eq,
}
use crypto_trading_system.Prelude.Map
use crypto_trading_system.Prelude.Map.{Map, find-assign, find-assign_self, at_or-modify_self}
use crypto_trading_system.Defs.{
  Side, PosSide, ExecutionReport, InstrumentInfo, SwapPosition, Volume, pos_side_eq,
}
use crypto_trading_system.Double.{Double, nought}
use crypto_trading_system.Registry
use crypto_trading_system.Registry.{InstrumentRegistry}
use crypto_trading_system.Utils.{decode}
use crypto_trading_system.PositionManager.State.{SpotPosition, PositionManager, empty_swap}
use crypto_trading_system.PositionManager.Spot.{sync_spot_from_exchange}
use crypto_trading_system.PositionManager.Swap.{
  is_opening, apply_swap_fill, update_swap_on_fill, swap_position,
}

module _ {D : Type 0} ⦃d : Double D⦄ where
  open d use {add, sub, abs, lt, tiny}

  -- The position of a currency says what the exchange says.
  abbrev pub Agrees : SpotPosition D → D → D → D → Type 0
  Agrees p free locked owed = (p.available ≡ free) × (p.frozen ≡ locked) × (p.borrowed ≡ owed)

  -- None of the three figures is off by more than the tolerance.
  abbrev pub is_close : SpotPosition D → D → D → D → Bool
  is_close p free locked owed =
      if lt tiny (abs (sub p.available free))
        || lt tiny (abs (sub p.frozen locked))
        || lt tiny (abs (sub p.borrowed owed))
      then false
      else true

  kept :
      (c k : Text) (p : SpotPosition D) (positions : Map Text (SpotPosition D))
      → (c == k) ≡ false
      → Map.find k (Map.assign c p positions) ≡ Map.find k positions
  kept c k p positions other =
      find-assign c k p positions ∙ ap (λ b. if b then some p else Map.find k positions) other

  -- What a synchronisation of `m` may come to: the currency agrees with the exchange, or nothing has
  -- changed and it is close; the position of `k` stays.
  abbrev pub Synced : PositionManager D → Text → Text → D → D → D → PositionManager D → Type 0
  Synced m currency k free locked owed m' =
      ((p : SpotPosition D) × (Map.find currency m'.spot_positions ≡ some p)
        × (Agrees p free locked owed ⊎ ((is_close p free locked owed ≡ true) × (m' ≡ m))))
      × (Map.find k m'.spot_positions ≡ Map.find k m.spot_positions)

  abbrev pub put : PositionManager D → Text → SpotPosition D → PositionManager D
  put m currency p = record m { spot_positions = Map.assign currency p m.spot_positions }

  Synced-put :
      (m : PositionManager D) (currency k : Text) (free locked owed : D) (p : SpotPosition D)
      → (currency == k) ≡ false
      → Agrees p free locked owed
      → Synced m currency k free locked owed (put m currency p)
  Synced-put m currency k free locked owed p other same = (
    (p, find-assign_self currency p m.spot_positions, inl same),
    kept currency k p m.spot_positions other,
  )

  sync-unseen :
      (m : PositionManager D) (currency : Text) (free locked owed : D)
      → Map.find currency m.spot_positions ≡ none
      → sync_spot_from_exchange m currency free locked owed
        ≡ put m currency
            (record { currency = currency; available = free; frozen = locked; borrowed = owed })
  unfolding sync_spot_from_exchange
  sync-unseen m currency free locked owed q = ground arith

  sync-seen :
      (m : PositionManager D) (currency : Text) (free locked owed : D) (p : SpotPosition D)
      → Map.find currency m.spot_positions ≡ some p
      → sync_spot_from_exchange m currency free locked owed ≡ (
          if is_close p free locked owed
          then m
          else put m currency (record p { available = free; frozen = locked; borrowed = owed }))
  unfolding sync_spot_from_exchange
  sync-seen m currency free locked owed p q = ground arith

  -- After `SyncSpotFromExchange` the currency has a position that says just what the exchange says, or
  -- the manager is unchanged and the position it has is within the tolerance in all three figures. The
  -- position of every other currency stays.
  pub sync_spot_from_exchange_lem :
      (m : PositionManager D) (currency k : Text) (free locked owed : D)
      → (currency == k) ≡ false
      → Synced m currency k free locked owed (sync_spot_from_exchange m currency free locked owed)
  sync_spot_from_exchange_lem m currency k free locked owed other =
      elim (Option-cases (Map.find currency m.spot_positions)) [
        | inl q ↦
            subst (Synced m currency k free locked owed)
              (sym (sync-unseen m currency free locked owed q))
              (Synced-put m currency k free locked owed _ other (refl, refl, refl))
        | inr (p, q) ↦ elim (Bool-cases (is_close p free locked owed)) [
          | inl near ↦
              subst (Synced m currency k free locked owed)
                (sym (
                  sync-seen m currency free locked owed p q
                  ∙ ap
                      (λ b.
                        if b
                        then m
                        else put m currency
                            (record p { available = free; frozen = locked; borrowed = owed }))
                      near))
                ((p, q, inr (near, refl)), refl)
          | inr off ↦
              subst (Synced m currency k free locked owed)
                (sym (
                  sync-seen m currency free locked owed p q
                  ∙ ap
                      (λ b.
                        if b
                        then m
                        else put m currency
                            (record p { available = free; frozen = locked; borrowed = owed }))
                      off))
                (Synced-put m currency k free locked owed _ other (refl, refl, refl))
        ]
      ]

  abbrev pub floored : D → D
  floored contracts = if lt contracts nought then nought else contracts

  -- The contracts after a trade of `amount`, side by side: a buy raises a net or a long position and
  -- lowers a short one, a sale the other way round, and none is lowered below zero.
  abbrev pub contracts_after : PosSide → Side → D → D → D
  contracts_after PosSide.net Side.buy before amount = add before amount
  contracts_after PosSide.long Side.buy before amount = add before amount
  contracts_after PosSide.short Side.sell before amount = add before amount
  contracts_after PosSide.net Side.sell before amount = floored (sub before amount)
  contracts_after PosSide.long Side.sell before amount = floored (sub before amount)
  contracts_after PosSide.short Side.buy before amount = floored (sub before amount)

  apply_swap_fill-contracts_after :
      (side : PosSide) (order_side : Side) (amount before : D)
      → apply_swap_fill side order_side amount before
        ≡ contracts_after side order_side before amount
  unfolding apply_swap_fill is_opening
  apply_swap_fill-contracts_after PosSide.net Side.buy amount before = refl
  apply_swap_fill-contracts_after PosSide.net Side.sell amount before = refl
  apply_swap_fill-contracts_after PosSide.long Side.buy amount before = refl
  apply_swap_fill-contracts_after PosSide.long Side.sell amount before = refl
  apply_swap_fill-contracts_after PosSide.short Side.buy amount before = refl
  apply_swap_fill-contracts_after PosSide.short Side.sell amount before = refl

  contracts-default :
      (instrument : Text) (side : PosSide) (o : Option (SwapPosition D))
      → (get_or_else
          (record empty_swap { instrument = instrument; position_side = side })
          o).contracts
        ≡ (get_or_else empty_swap o).contracts
  contracts-default instrument side none = refl
  contracts-default instrument side (some p) = refl

  contracts-swap_position :
      (m : PositionManager D) (instrument : Text) (side : PosSide)
      → (swap_position m instrument side).contracts
        ≡ (Map.at_or empty_swap (instrument, side) m.swap_positions).contracts
  unfolding swap_position
  contracts-swap_position m instrument side =
      contracts-default instrument side (Map.find (instrument, side) m.swap_positions)

  abbrev pub swap_increment : PositionManager D → ExecutionReport D → Volume
  swap_increment m report =
      report.filled_volume -ℤ Map.at_or (pos 0) report.order_id m.swap_order_fill_tracker

  positions-update_swap_on_fill :
      (registry : InstrumentRegistry) (m : PositionManager D) (report : ExecutionReport D)
      (info : InstrumentInfo)
      → Registry.get registry report.instrument ≡ some info
      → leb_ℤ (swap_increment m report) (pos 0) ≡ false
      → let key : Text × PosSide = (report.instrument, report.position_side) in
        (update_swap_on_fill registry m report).0.swap_positions
        ≡ Map.modify empty_swap key
            (λ p. record p {
              contracts =
                  apply_swap_fill report.position_side report.side
                    (decode (swap_increment m report) info.volume_precision)
                    p.contracts;
            })
            (Map.modify empty_swap key
              (λ p. record p {
                instrument = report.instrument;
                position_side = report.position_side;
              })
              m.swap_positions)
  unfolding update_swap_on_fill
  positions-update_swap_on_fill registry m report info k more = ground arith

  -- A fill of a swap order, of a registered instrument, that shows some volume newly filled: a buy
  -- raises the contracts of a net or a long position by just that volume and lowers those of a short
  -- one, a sale the other way round; where lowering would pass zero the position has zero contracts.
  pub update_swap_on_fill_lem :
      (registry : InstrumentRegistry) (m : PositionManager D) (report : ExecutionReport D)
      (info : InstrumentInfo)
      → Registry.get registry report.instrument ≡ some info
      → leb_ℤ (swap_increment m report) (pos 0) ≡ false
      → let m' = (update_swap_on_fill registry m report).0 in
        let before = (swap_position m report.instrument report.position_side).contracts in
        let after = (swap_position m' report.instrument report.position_side).contracts in
        after
        ≡ contracts_after report.position_side report.side before
            (decode (swap_increment m report) info.volume_precision)
  update_swap_on_fill_lem registry m report info k more =
      let key : Text × PosSide = (report.instrument, report.position_side) in
      let m' = (update_swap_on_fill registry m report).0 in
      let before = (swap_position m report.instrument report.position_side).contracts in
      let after = (swap_position m' report.instrument report.position_side).contracts in
      let amount : D = decode (swap_increment m report) info.volume_precision in
      let fill = apply_swap_fill report.position_side report.side amount in
      let named = λ (p : SwapPosition D). record p {
        instrument = report.instrument;
        position_side = report.position_side;
      } in
      let filled = λ (p : SwapPosition D). record p { contracts = fill p.contracts } in
      let applied : after ≡ fill before =
        contracts-swap_position m' report.instrument report.position_side
        ∙ ap (λ ps. (Map.at_or empty_swap key ps).contracts)
            (positions-update_swap_on_fill registry m report info k more)
        ∙ ap (λ (p : SwapPosition D). p.contracts)
            (at_or-modify_self empty_swap key filled
              (Map.modify empty_swap key named m.swap_positions))
        ∙ ap (λ (p : SwapPosition D). fill p.contracts)
            (at_or-modify_self empty_swap key named m.swap_positions)
        ∙ ap fill (sym (contracts-swap_position m report.instrument report.position_side)) in
      applied ∙ apply_swap_fill-contracts_after report.position_side report.side amount before
