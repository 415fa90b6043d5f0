-- ===== src/Tests.antt =====
-- The theorems at concrete inputs, with whole numbers for `double` and one instrument, "A-B", whose
-- prices and volumes have no decimals.
pub mod Documents
pub mod Exchanges
pub mod Messages
pub mod Rings
pub mod Engine
pub mod Engines
pub mod Positions
pub mod Texts
use crypto_trading_system.Prelude.{ℤ, pos, [], ◌∷◌, List, Text, codes}
use crypto_trading_system.Defs.{
  Side, OrderStatus, TradeMode, ExecutionReport, InstrumentInfo, empty_report,
}
use crypto_trading_system.Double.Whole.{whole_double}
use crypto_trading_system.Registry.{InstrumentRegistry}
use crypto_trading_system.PositionManager.{PositionManager, no_positions}

abbrev pub pair : Text
pair = codes "A-B"

abbrev pub pair_info : InstrumentInfo
pair_info = record { instrument = pair; price_precision = 0; volume_precision = 0 }

abbrev pub one_instrument : InstrumentRegistry
one_instrument = (pair, pair_info) ∷ []

-- Ten of each currency.
abbrev pub ten_each : PositionManager ℤ
ten_each = record no_positions {
  spot_positions =
      (
        codes "A",
        record { currency = codes "A"; available = pos 10; frozen = pos 0; borrowed = pos 0 },
      )
      ∷ (
        codes "B",
        record { currency = codes "B"; available = pos 10; frozen = pos 0; borrowed = pos 0 },
      )
      ∷ [];
}

-- A purchase of 3 A at 2 B.
abbrev pub purchase : OrderStatus → ExecutionReport ℤ
purchase status = record (empty_report (pos 0)) {
  instrument = pair;
  order_id = codes "7";
  status = status;
  side = Side.buy;
  price = pos 2;
  total_volume = pos 3;
  filled_volume = pos 1;
  avg_fill_price = pos 2;
  fee_currency = codes "C";
}
