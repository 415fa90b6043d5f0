-- ===== src/PositionManager/State.antt =====
-- The data members of `PositionManager`, and what a call comes to.
use crypto_trading_system.Prelude.{[], Text, text_eq}
use crypto_trading_system.Prelude.Map
use crypto_trading_system.Prelude.Map.{Map}
use crypto_trading_system.Defs.{PosSide, SwapPosition, Volume}
use crypto_trading_system.Double.{Double, nought}

pub record SpotPosition (D : Type 0) : Type 0 where
  pub currency : Text
  pub available : D
  pub frozen : D
  pub borrowed : D

pub record PositionManager (D : Type 0) : Type 0 where
  pub spot_positions : Map Text (SpotPosition D)
  pub swap_positions : Map (Text × PosSide) (SwapPosition D)
  pub spot_order_fill_tracker : Map Text Volume
  pub swap_order_fill_tracker : Map Text Volume
  pub spot_reserved : Map Text D

-- `out_of_range` is the exception of `InstrumentRegistry::Get` for an unknown instrument;
-- `null_info` stands for the undefined behaviour of reading through the null pointer of `Find`.
pub data Status : Type 0 where
  done : Status
  out_of_range : Status
  null_info : Status

-- A call with what follows it: after a fault nothing does, and `fault` is the state it leaves.
abbrev pub and_then : {A B : Type 0} → A × Status → (A → B) → (A → B × Status) → B × Status
and_then (a, done) fault next = next a
and_then (a, out_of_range) fault next = (fault a, out_of_range)
and_then (a, null_info) fault next = (fault a, null_info)

abbrev pub no_positions : {D : Type 0} → PositionManager D
no_positions = record {
  spot_positions = [];
  swap_positions = [];
  spot_order_fill_tracker = [];
  swap_order_fill_tracker = [];
  spot_reserved = [];
}

-- `SpotPosition` with its default member values.
abbrev pub empty_spot : {D : Type 0} ⦃d : Double D⦄ → SpotPosition D
empty_spot = record { currency = []; available = nought; frozen = nought; borrowed = nought }

-- `SwapPosition` likewise. Its `position_side` has no default; the code writes it at once.
abbrev pub empty_swap : {D : Type 0} ⦃d : Double D⦄ → SwapPosition D
empty_swap = record {
  instrument = [];
  position_side = PosSide.net;
  contracts = nought;
  average_opening_price = nought;
  unrealized_profit_loss = nought;
}

-- What the manager says of a currency, zero where it has no entry.
module _ {D : Type 0} ⦃d : Double D⦄ where
  -- The entry of a currency, as a read through `operator[]` finds it.
  unfoldable pub entry : PositionManager D → Text → SpotPosition D
  entry m c = Map.at_or empty_spot c m.spot_positions

  abbrev pub available : PositionManager D → Text → D
  available m c = (entry m c).available

  abbrev pub frozen : PositionManager D → Text → D
  frozen m c = (entry m c).frozen

  abbrev pub reserved : PositionManager D → Text → D
  reserved m c = Map.at_or nought c m.spot_reserved
