-- ===== src/Currency.antt =====
-- The currencies of an instrument's name, "BASE-QUOTE": `PositionManager::ExtractCurrency`,
-- `ExtractBase` and `ExtractQuote` of sdk/src/strategy.cpp, and `LockedCurrency` of the trading engine.
use crypto_trading_system.Prelude.{[], ◌∷◌, Option, none, some, Text, nat_eqb, if◌then◌else◌}
use crypto_trading_system.Defs.{Side}

-- The texts before and behind the first dash, `none` if `strchr` finds no dash.
unfoldable pub split_dash : Text → Option (Text × Text)
split_dash [] = none
split_dash (c ∷ s) =
    let rest = split_dash s in
    if nat_eqb c b'-'
    then some ([], s)
    else elim rest [ none ↦ none | some (base, quote) ↦ some (c ∷ base, quote) ]

unfoldable pub extract_base : Text → Text
unfolding split_dash
extract_base instrument = elim (split_dash instrument) [
  | none ↦ instrument
  | some (base, quote) ↦ base
]

unfoldable pub extract_quote : Text → Text
unfolding split_dash
extract_quote instrument = elim (split_dash instrument) [
  | none ↦ instrument
  | some (base, quote) ↦ quote
]

-- The currency that an order on this side locks.
unfoldable pub locked_currency : Text → Side → Text
unfolding extract_base extract_quote
locked_currency instrument Side.sell = extract_base instrument
locked_currency instrument Side.buy = extract_quote instrument
