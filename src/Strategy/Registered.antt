-- ===== src/Strategy/Registered.antt =====
-- `StrategyRegistry` of sdk/src/strategy_registry.cpp: one map from names to factories, under a mutex.
use crypto_trading_system.Prelude.{
  ◌≡◌, Bool, Option, none, some, Text, text_eq, is_some, arith, if◌then◌else◌, ◌==◌,
}
use crypto_trading_system.Prelude.Map
use crypto_trading_system.Prelude.Map.{Map, find-assign}

-- A factory is called for the strategy `F` that it makes.
module _ {F : Type 0} where
  unfoldable pub register : Map Text F → Text → F → Map Text F
  register factories name factory = Map.assign name factory factories

  -- `Create`; the `none` is its null pointer.
  unfoldable pub create : Map Text F → Text → Option F
  create factories name = elim (Map.find name factories) [
    | none ↦ none
    | some factory ↦ some factory
  ]

  unfoldable pub exists : Map Text F → Text → Bool
  exists factories name = Map.contains name factories

  -- After a registration, `Create` makes the strategy that was registered last under its name, any
  -- other name makes what it made before, and `Exists` says which names `Create` makes something for.
  pub create-register :
      (factories : Map Text F) (name other : Text) (factory : F)
      → (create (register factories name factory) other
          ≡ (if name == other then some factory else create factories other))
        × (exists (register factories name factory) other
            ≡ is_some (create (register factories name factory) other))
  unfolding create register exists
  create-register factories name other factory =
      ground (arith, find-assign name other factory factories)
