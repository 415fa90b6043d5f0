-- ===== src/PositionManager/Spot/Balances.antt =====
-- The spot balances of `PositionManager`: what the exchange says, reservations, and `UpdateSpotOnNew`.
use crypto_trading_system.Prelude.{
  [], ◌∷◌, none, some, Bool, true, ◌||◌, Text, text_eq, if◌then◌else◌,
}
use crypto_trading_system.Prelude.Map
use crypto_trading_system.Prelude.Map.{Map}
use crypto_trading_system.Defs.{Side, TradeMode, ExecutionReport, trade_mode_eqb}
use crypto_trading_system.Double.{Double, nought, max_of}
use crypto_trading_system.Registry
use crypto_trading_system.Registry.{InstrumentRegistry}
use crypto_trading_system.Currency.{extract_base, extract_quote}
use crypto_trading_system.Utils.{decode}
use crypto_trading_system.PositionManager.State.{
  SpotPosition, PositionManager, Status, done, out_of_range, empty_spot, entry, available, reserved,
}

module _ {D : Type 0} ⦃d : Double D⦄ where
  open d use {add, sub, mul, abs, lt, le, tiny}

  -- `auto& p = spot_positions_[currency]`, then an assignment through `p`.
  unfoldable pub on_spot :
      Text → (SpotPosition D → SpotPosition D) → PositionManager D → PositionManager D
  on_spot currency f m = record m {
    spot_positions = Map.modify empty_spot currency f m.spot_positions;
  }

  -- The loop of `InitSpotFromExchange` over the balances: available, frozen and borrowed.
  unfoldable pub init_spot :
      Map Text (D × D × D) → Map Text (SpotPosition D) → Map Text (SpotPosition D)
  init_spot [] positions = positions
  init_spot ((currency, (free, locked, owed)) ∷ balances) positions = init_spot balances (
      Map.assign currency
        (record { currency = currency; available = free; frozen = locked; borrowed = owed })
        positions)

  unfoldable pub init_spot_from_exchange :
      PositionManager D → Map Text (D × D × D) → PositionManager D
  unfolding init_spot
  init_spot_from_exchange m balances = record m {
    spot_positions = init_spot balances [];
    spot_reserved = [];
  }

  unfoldable pub sync_spot_from_exchange : PositionManager D → Text → D → D → D → PositionManager D
  sync_spot_from_exchange m currency free locked owed = elim (Map.find currency m.spot_positions) [
    | none ↦ record m {
      spot_positions =
          Map.assign currency
            (record { currency = currency; available = free; frozen = locked; borrowed = owed })
            m.spot_positions;
    }
    | some position ↦
        if lt tiny (abs (sub position.available free))
          || lt tiny (abs (sub position.frozen locked))
          || lt tiny (abs (sub position.borrowed owed))
        then record m {
          spot_positions =
              Map.assign currency
                (record position { available = free; frozen = locked; borrowed = owed })
                m.spot_positions;
        }
        else m
  ]

  unfoldable pub reserve_spot : PositionManager D → Text → D → PositionManager D
  reserve_spot m currency amount = record m {
    spot_reserved = Map.modify nought currency (λ x. add x amount) m.spot_reserved;
  }

  unfoldable pub effective_available_spot : PositionManager D → Text → D
  effective_available_spot m currency = sub (available m currency) (reserved m currency)

  unfoldable pub borrowed : PositionManager D → Text → D
  borrowed m currency = (entry m currency).borrowed

  unfoldable pub can_borrow_more : PositionManager D → Text → D → D → Bool
  unfolding borrowed
  can_borrow_more m currency amount max_borrow =
      if le max_borrow nought then true else le (add (borrowed m currency) amount) max_borrow

  -- `spot_reserved_[c] = max(0.0, spot_reserved_[c] - amount)`
  unfoldable pub unreserve : Text → D → PositionManager D → PositionManager D
  unreserve currency amount m = record m {
    spot_reserved = Map.modify nought currency (λ x. max_of nought (sub x amount)) m.spot_reserved;
  }

  -- An available amount becomes frozen.
  abbrev pub lock_in : Text → D → SpotPosition D → SpotPosition D
  lock_in currency amount p = record p {
    currency = currency;
    available = sub p.available amount;
    frozen = add p.frozen amount;
  }

  -- The body of `UpdateSpotOnNew` for the currency that the order locks.
  unfoldable pub freeze : Text → D → PositionManager D → PositionManager D
  unfolding unreserve
  freeze currency amount m =
      unreserve currency amount (on_spot currency (lock_in currency amount) m)

  unfoldable pub update_spot_on_new :
      InstrumentRegistry
      → PositionManager D
      → ExecutionReport D
      → TradeMode
      → PositionManager D × Status
  unfolding freeze
  update_spot_on_new registry m report trade_mode = elim (Registry.get registry report.instrument) [
    | none ↦ (m, out_of_range)
    | some info ↦ elim report.side [
      | Side.buy ↦ (
        freeze (extract_quote report.instrument)
            (mul (decode report.price info.price_precision)
              (decode report.total_volume info.volume_precision))
            m,
        done,
      )
      | Side.sell ↦
          if trade_mode_eqb trade_mode TradeMode.cash
          then (
            freeze (extract_base report.instrument)
                (decode report.total_volume info.volume_precision) m,
            done,
          )
          else (m, done)
    ]
  ]
