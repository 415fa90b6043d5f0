-- ===== src/Okx/Messages.antt =====
-- `OnPublicMessage` and `OnPrivateMessage` of src/clients/okx/okx.cpp: from the text of a message to
-- the calls of the handlers that it makes.
use crypto_trading_system.Prelude.{
  [], ◌∷◌, ◌++◌, List, map, Bool, true, false, Option, none, some, Text, text_eq, codes, bind, ◌==◌,
  if◌then◌else◌,
}
use crypto_trading_system.Prelude.Map.{Map}
use crypto_trading_system.Prelude.Search.{mentions}
use crypto_trading_system.Defs.{Ticker, Bbo, Depth, Trade, ExecutionReport, OrderRequest}
use crypto_trading_system.Double.{Double}
use crypto_trading_system.Json.{Json, text_or_empty}
use crypto_trading_system.Registry.{InstrumentRegistry}
use crypto_trading_system.Okx.{on_order_op}
use crypto_trading_system.Okx.Accounts.{Balance, decode_account_update}
use crypto_trading_system.Okx.Orders.{decode_order_update}
use crypto_trading_system.Okx.Market.{decode_ticker, decode_bbo, decode_depth, decode_trade}

-- A call of one of the handlers that the engines set, with its arguments.
pub data Event (D : Type 0) : Type 0 where
  ticker : Ticker D → Event D
  bbo : Bbo → Event D
  depth : Depth → Event D
  trade : Trade → Event D
  order : ExecutionReport D → Text → Event D
  balance : Balance D → Event D

-- The calls made, in order, and whether an exception ended them.
pub record Heard (D : Type 0) : Type 0 where
  pub events : List (Event D)
  pub thrown : Bool

abbrev pub unheard : {D : Type 0} → Heard D
unheard = record { events = []; thrown = false }

abbrev pub after_events : {D : Type 0} → List (Event D) → Heard D → Heard D
after_events events heard = record heard { events = events ++ heard.events }

module _ {J D : Type 0} where
  -- `element.value()` throws for an element that is an error, and a decoder may throw itself.
  abbrev pub hear_one : (J → Option (List (Event D))) → Option J → Option (List (Event D))
  hear_one decode element = bind element decode

  -- The loop that ends after the first element, and the one over all.
  abbrev pub hear_first : (J → Option (List (Event D))) → List (Option J) → Heard D
  hear_first decode [] = unheard
  hear_first decode (element ∷ elements) = elim (hear_one decode element) [
    | none ↦ record { events = []; thrown = true }
    | some events ↦ record { events = events; thrown = false }
  ]

  abbrev pub hear_each : (J → Option (List (Event D))) → List (Option J) → Heard D
  hear_each decode [] = unheard
  hear_each decode (element ∷ elements) = elim (hear_one decode element) [
    | none ↦ record { events = []; thrown = true }
    | some events ↦ after_events events (hear_each decode elements)
  ]

abbrev pub one_event : {D A : Type 0} → (A → Event D) → Option A → Option (List (Event D))
one_event make none = none
one_event make (some a) = some (make a ∷ [])

-- An order that is not decoded is passed over.
abbrev pub order_event : {D : Type 0} → Option (ExecutionReport D × Text) → List (Event D)
order_event none = []
order_event (some (report, client_order_id)) = Event.order report client_order_id ∷ []

abbrev pub hear_report :
    {D : Type 0}
    → Map Text OrderRequest × Option (ExecutionReport D × Text)
    → Map Text OrderRequest × Heard D
hear_report (pending_ws_ops, report) =
    (pending_ws_ops, record { events = order_event report; thrown = false })

module _ {J D : Type 0} ⦃d : Double D⦄ (json : Json J D) (registry : InstrumentRegistry) where
  unfoldable pub hear_public : Text → Text → List (Option J) → Heard D
  hear_public channel inst_id elements =
      if channel == codes "tickers"
      then hear_first (λ e. one_event Event.ticker (decode_ticker json registry inst_id e)) elements
      else if channel == codes "bbo-tbt"
      then hear_first (λ e. one_event Event.bbo (decode_bbo json registry inst_id e)) elements
      else if channel == codes "books5"
      then hear_first (λ e. one_event Event.depth (decode_depth json registry inst_id e)) elements
      else if channel == codes "trades"
      then hear_each (λ e. one_event Event.trade (decode_trade json registry inst_id e)) elements
      else unheard

  -- The object under "arg" and the array under "data"; a message without them is dropped.
  abbrev pub arg_and_data : J → Option (J × List (Option J))
  arg_and_data doc =
      bind (json.object_at (codes "arg") doc)
        λ arg. bind (json.array_at (codes "data") doc) λ elements. some (arg, elements)

  unfoldable pub on_public_message : Text → Heard D
  unfolding hear_public
  on_public_message raw = elim (bind (json.parse raw) arg_and_data) [
    | none ↦ unheard
    | some (arg, elements) ↦
        hear_public (text_or_empty json (codes "channel") arg)
          (text_or_empty json (codes "instId") arg) elements
  ]

  unfoldable pub hear_private : Text → List (Option J) → Heard D
  hear_private channel elements =
      if channel == codes "orders"
      then hear_each (λ e. some (order_event (decode_order_update json registry e))) elements
      else if channel == codes "account"
      then hear_each (λ e. some (map Event.balance (decode_account_update json e))) elements
      else unheard

  -- The answer to an operation, with the pending requests that it leaves.
  unfoldable pub hear_op : (Text → D) → Map Text OrderRequest → J → Map Text OrderRequest × Heard D
  unfolding on_order_op
  hear_op stod pending_ws_ops doc =
      if text_or_empty json (codes "op") doc == codes "order"
      then hear_report (
          on_order_op registry stod pending_ws_ops (text_or_empty json (codes "code") doc)
            (text_or_empty json (codes "id") doc))
      else (pending_ws_ops, unheard)

  -- A message that mentions "event" is dropped, and one that mentions "op" answers an operation.
  unfoldable pub on_private_message :
      (Text → D) → Map Text OrderRequest → Text → Map Text OrderRequest × Heard D
  unfolding mentions hear_op hear_private
  on_private_message stod pending_ws_ops raw =
      if mentions (codes "\"event\"") raw
      then (pending_ws_ops, unheard)
      else elim (json.parse raw) [
        | none ↦ (pending_ws_ops, unheard)
        | some doc ↦
            if mentions (codes "\"op\"") raw
            then hear_op stod pending_ws_ops doc
            else elim (arg_and_data doc) [
              | none ↦ (pending_ws_ops, unheard)
              | some (arg, elements) ↦
                  (pending_ws_ops, hear_private (text_or_empty json (codes "channel") arg) elements)
            ]
      ]
