-- ===== src/Okx/Accounts.antt =====
-- What src/clients/okx/okx.cpp reads of the account: `QueryBalances`, `QuerySwapPositions` and
-- `DecodeAccountUpdate`.
use crypto_trading_system.Prelude.{
  [], ◌∷◌, List, Bool, ◌||◌, Option, none, some, Text, text_eq, codes, is_empty, bind,
  if◌then◌else◌,
}
use crypto_trading_system.Prelude.Map
use crypto_trading_system.Prelude.Map.{Map}
use crypto_trading_system.Defs.{PosSide, SwapPosition, pos_side_eq}
use crypto_trading_system.Double.{Double, nought}
use crypto_trading_system.Json.{Json, text_or_empty, elements_at}
use crypto_trading_system.Okx.{okx_parse_pos_side}
use crypto_trading_system.Okx.Orders.{word_or, double_or_nought}
use crypto_trading_system.Okx.Replies.{reply_data}

-- A currency with what is available, frozen and borrowed of it.
abbrev pub Balance : Type 0 → Type 0
Balance D = Text × (D × D × D)

module _ {J D : Type 0} ⦃d : Double D⦄ (json : Json J D) where
  open d use {sub, lt}

  -- `borrowed = -borrowed` where it is below zero.
  abbrev pub magnitude : D → D
  magnitude owed = if lt owed nought then sub nought owed else owed

  -- One element of "details": an error, and one without a currency, are passed over.
  unfoldable pub read_balance : Option J → Option (Balance D)
  read_balance none = none
  read_balance (some detail) = bind (json.text_at (codes "ccy") detail) λ currency.
      if is_empty currency
      then none
      else some (
        currency,
        (
          double_or_nought json (codes "availBal") detail,
          double_or_nought json (codes "frozenBal") detail,
          magnitude (double_or_nought json (codes "liab") detail),
        ),
      )

  -- `available > 0 || frozen > 0 || borrowed > 0`
  abbrev pub is_held : D × D × D → Bool
  is_held (free, locked, owed) = lt nought free || lt nought locked || lt nought owed

  abbrev pub put_balance : Option (Balance D) → Map Text (D × D × D) → Map Text (D × D × D)
  put_balance none balances = balances
  put_balance (some (currency, amounts)) balances =
      if is_held amounts then Map.assign currency amounts balances else balances

  unfoldable pub read_balances : List (Option J) → Map Text (D × D × D) → Map Text (D × D × D)
  unfolding read_balance
  read_balances [] balances = balances
  read_balances (detail ∷ details) balances =
      read_balances details (put_balance (read_balance detail) balances)

  -- Only the first element of the data is read.
  abbrev pub first_details : List (Option J) → List (Option J)
  first_details (some account ∷ elements) = elements_at json (codes "details") account
  first_details _ = []

  abbrev pub balances_of : Option (List (Option J)) → Map Text (D × D × D)
  balances_of none = []
  balances_of (some elements) = read_balances (first_details elements) []

  unfoldable pub query_balances : (Text → Text) → Map Text (D × D × D)
  unfolding read_balances reply_data
  query_balances exchange =
      balances_of (reply_data json (exchange (codes "/api/v5/account/balance")))

  -- `DecodeAccountUpdate`: the calls of `on_balance_update_`, in order.
  abbrev pub told_balances : List (Option J) → List (Balance D)
  told_balances [] = []
  told_balances (detail ∷ details) = elim (read_balance detail) [
    | none ↦ told_balances details
    | some balance ↦ balance ∷ told_balances details
  ]

  unfoldable pub decode_account_update : J → List (Balance D)
  unfolding read_balance
  decode_account_update account = told_balances (elements_at json (codes "details") account)

  -- One element of the positions.
  unfoldable pub read_position : J → SwapPosition D
  read_position position = record {
    instrument = text_or_empty json (codes "instId") position;
    position_side =
        okx_parse_pos_side (word_or (codes "net") (text_or_empty json (codes "posSide") position));
    contracts = double_or_nought json (codes "pos") position;
    average_opening_price = double_or_nought json (codes "avgPx") position;
    unrealized_profit_loss = double_or_nought json (codes "upl") position;
  }

  -- `result[instrument][position_side] = swap_position`, if it has contracts.
  abbrev pub put_position :
      SwapPosition D
      → Map Text (Map PosSide (SwapPosition D))
      → Map Text (Map PosSide (SwapPosition D))
  put_position p positions =
      if lt nought p.contracts
      then Map.modify [] p.instrument (λ sides. Map.assign p.position_side p sides) positions
      else positions

  unfoldable pub read_positions :
      List (Option J)
      → Map Text (Map PosSide (SwapPosition D))
      → Map Text (Map PosSide (SwapPosition D))
  unfolding read_position
  read_positions [] positions = positions
  read_positions (none ∷ elements) positions = positions
  read_positions (some element ∷ elements) positions =
      read_positions elements (put_position (read_position element) positions)

  abbrev pub positions_of : Option (List (Option J)) → Map Text (Map PosSide (SwapPosition D))
  positions_of none = []
  positions_of (some elements) = read_positions elements []

  unfoldable pub query_swap_positions : (Text → Text) → Map Text (Map PosSide (SwapPosition D))
  unfolding read_positions reply_data
  query_swap_positions exchange =
      positions_of (reply_data json (exchange (codes "/api/v5/account/positions?instType=SWAP")))
