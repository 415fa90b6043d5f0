-- ===== src/Defs.antt =====
-- The shared types of sdk/include/defs.hpp. A `char` array is the text up to its terminator, a
-- `double` is a value of a type `D` (see Double), and `Price` and `Volume` are integers.
mod Enums
pub mod Names
mod Structs
pub use Enums.*
pub use Structs.{
  Price, Volume, c_str, Ticker, Bbo, PriceLevel, Depth, Trade, Signal, ExecutionReport,
  OrderRequest, Fill, SwapPosition, InstrumentInfo, empty_signal, empty_report,
}
unfoldable pub use Structs.{set_field}
unfoldable pub use Names.{detect_market_type}
pub mod Naming
