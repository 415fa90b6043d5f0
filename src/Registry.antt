-- ===== src/Registry.antt =====
-- `InstrumentRegistry` of sdk/include/defs.hpp, the singleton that maps an instrument to its
-- precisions. It is filled once, before the engines start, so the other components take it as an
-- argument that they only read.
use crypto_trading_system.Prelude.{Bool, Option, Text, text_eq, [], ◌∷◌, true, false}
use crypto_trading_system.Prelude.Map
use crypto_trading_system.Prelude.Map.{Map}
use crypto_trading_system.Defs.{InstrumentInfo}

abbrev pub InstrumentRegistry : Type 0
InstrumentRegistry = Map Text InstrumentInfo

abbrev pub add : InstrumentRegistry → InstrumentInfo → InstrumentRegistry
add instruments info = Map.assign info.instrument info instruments

-- `Find`; the `none` is its null pointer.
abbrev pub find : InstrumentRegistry → Text → Option InstrumentInfo
find instruments instrument = Map.find instrument instruments

-- `Get`; the `none` is the `std::out_of_range` that `at` throws.
abbrev pub get : InstrumentRegistry → Text → Option InstrumentInfo
get instruments instrument = Map.find instrument instruments

abbrev pub empty : InstrumentRegistry → Bool
empty [] = true
empty (entry ∷ rest) = false
