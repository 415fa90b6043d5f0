-- ===== src/Defs/Naming.antt =====
-- What the names and text fields of sdk/include/defs.hpp determine.
use crypto_trading_system.Prelude.{
  ℕ, ◌-◌, ◌≤◌, ◌<◌, ◌≡◌, ◌≢◌, ◌↔◌, refl, ap, ◌∙◌, sym, [], ◌∷◌, ◌++◌, arith, Text, length, take,
  drop, text_eqb_iff, length-append, drop-append, take-append-drop, length-take, length-take-le,
  take_all,
}
use crypto_trading_system.Defs.Enums.{
  MarketType, Side, PosSide, Action, OrderType, TradeMode, OrderStatus,
}
use crypto_trading_system.Defs.Names.{
  market_type_to_string, side_to_string, pos_side_to_string, action_to_string, order_type_to_string,
  trade_mode_to_string, order_status_to_string, swap_suffix, detect_market_type,
}
use crypto_trading_system.Defs.Structs.{c_str, set_field}

-- The last five characters, where there are more than five.
suffix_found :
    (instrument : Text)
    → 5 < length instrument
    → drop (length instrument - 5) instrument ≡ swap_suffix
    → (base : Text) × (base ≢ []) × (instrument ≡ base ++ swap_suffix)
suffix_found instrument p e =
    let n = length instrument - 5 in
    (
      take n instrument,
      λ none.
          let counted : length (take n instrument) ≡ n = length-take n instrument (omega arith) in
          omega (arith, counted, ap length none),
      sym (take-append-drop n instrument) ∙ ap (λ s. take n instrument ++ s) e,
    )

detects : (base : Text) → base ≢ [] → detect_market_type (base ++ swap_suffix) ≡ MarketType.swap
unfolding detect_market_type
detects [] p = absurd (p refl)
detects (b ∷ base) p =
    let len : length ((b ∷ base) ++ swap_suffix) - 5 ≡ length (b ∷ base) =
      omega (arith, length-append (b ∷ base) swap_suffix) in
    ground (
      arith,
      len,
      length-append (b ∷ base) swap_suffix,
      drop-append (b ∷ base) swap_suffix,
      text_eqb_iff swap_suffix swap_suffix,
    )

-- An instrument is taken for a swap exactly when its name is a non-empty name followed by "-SWAP".
pub detect_market_type_iff :
    (instrument : Text)
    → (detect_market_type instrument ≡ MarketType.swap)
      ↔ ((base : Text) × (base ≢ []) × (instrument ≡ base ++ swap_suffix))
unfolding detect_market_type
detect_market_type_iff instrument = (
  λ e.
      suffix_found instrument (ground arith)
        (ground (arith, text_eqb_iff (drop (length instrument - 5) instrument) swap_suffix)),
  λ (base, some_base, e). rw e (detects base some_base),
)

-- No two values of an enumeration have one name.
pub to_string_injective :
    ((a b : OrderStatus) → order_status_to_string a ≡ order_status_to_string b → a ≡ b)
    × ((a b : TradeMode) → trade_mode_to_string a ≡ trade_mode_to_string b → a ≡ b)
    × ((a b : PosSide) → pos_side_to_string a ≡ pos_side_to_string b → a ≡ b)
    × ((a b : Action) → action_to_string a ≡ action_to_string b → a ≡ b)
    × ((a b : Side) → side_to_string a ≡ side_to_string b → a ≡ b)
    × ((a b : OrderType) → order_type_to_string a ≡ order_type_to_string b → a ≡ b)
    × ((a b : MarketType) → market_type_to_string a ≡ market_type_to_string b → a ≡ b)
unfolding market_type_to_string side_to_string pos_side_to_string action_to_string
    order_type_to_string trade_mode_to_string order_status_to_string
to_string_injective = (
  λ a b e. ground arith,
  λ a b e. ground arith,
  λ a b e. ground arith,
  λ a b e. ground arith,
  λ a b e. ground arith,
  λ a b e. ground arith,
  λ a b e. ground arith,
)

-- A text field of `size` bytes holds its source exactly when that is a C string of fewer bytes, and
-- never holds more than `size - 1` bytes.
pub set_field_lem :
    (size : ℕ) (src : Text)
    → (length (set_field size src) ≤ size - 1)
      × (c_str src ≡ src → length src < size → set_field size src ≡ src)
unfolding set_field
set_field_lem size src = (
  length-take-le (size - 1) (c_str src),
  λ plain short. rw plain (take_all (size - 1) src (omega arith)),
)
