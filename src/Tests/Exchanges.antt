-- ===== src/Tests/Exchanges.antt =====
-- The theorems about the exchange's messages and connections at concrete inputs.
use crypto_trading_system.Prelude.{
  ℕ, zero, suc, ◌≡◌, ◌<◌, refl, sym, subst, ℤ, pos, [], ◌∷◌, ◌++◌, List, some, Text, text_eq,
  text_eqb, codes, arith, length, take, drop,
}
use crypto_trading_system.Defs.{set_field}
use crypto_trading_system.Double.Whole.{whole_double}
use crypto_trading_system.Utils.{to_string_ℤ, to_string, digits_of}
use crypto_trading_system.TradingEngine.{PendingOrderInfo}
use crypto_trading_system.Json.{Json}
use crypto_trading_system.Okx.Orders.{pending_order, read_fill}
use crypto_trading_system.Okx.Replies.{reply_data}
use crypto_trading_system.Okx.Paging.{
  pending_path, fills_path, query_pending_orders, query_recent_fills,
}
use crypto_trading_system.Okx.Paging.Complete.{kept}
use crypto_trading_system.Okx.Paging.Queries.{
  Serves, query_pending_orders_complete, query_recent_fills_complete,
}
use crypto_trading_system.Okx.Paging.Missed.{known, query_pending_orders-missed}
use crypto_trading_system.Tests.{pair, one_instrument}
use crypto_trading_system.Tests.Documents.{Value, word_at, elements_of, documents, echo}

abbrev order_of : Text → Text → Value
order_of instrument id = Value.entry (record {
  words =
      (codes "instId", instrument)
      ∷ (codes "ordId", id)
      ∷ (codes "billId", id)
      ∷ (codes "side", codes "sell")
      ∷ [];
  numbers = (codes "px", pos 2) ∷ (codes "sz", pos 3) ∷ (codes "fillSz", pos 1) ∷ [];
  levels = [];
})

abbrev two_orders : List Value
two_orders = order_of pair (codes "7") ∷ order_of pair (codes "8") ∷ []

-- "/api/v5/trade/orders-pending?instType=SPOT" has 42 bytes.
abbrev pending_documents : List Value → Json Value ℤ
pending_documents held = documents 42 (codes "ordId") held

pending-Serves :
    (held : List Value)
    → Serves (pending_documents held) (codes "ordId") (pending_path (codes "SPOT")) echo held
unfolding reply_data elements_of text_eqb
pending-Serves held [] = refl
pending-Serves held (c ∷ cursor) = refl

query_pending_orders_complete_example :
    query_pending_orders (pending_documents two_orders) one_instrument echo 1 (codes "SPOT")
    ≡ some (
        kept
          (pending_order (pending_documents two_orders) one_instrument (codes "SPOT"))
          two_orders)
unfolding pending_order word_at set_field
query_pending_orders_complete_example =
    query_pending_orders_complete (pending_documents two_orders) one_instrument echo (codes "SPOT")
      two_orders 1 (refl, (refl, tt), (refl, tt, tt)) (refl, (refl, tt)) (pending-Serves two_orders)
      (omega arith)

-- "/api/v5/trade/fills?instType=SPOT&begin=5" has 41 bytes. The first fill's instrument is unknown.
abbrev two_fills : List Value
two_fills = order_of (codes "X-Y") (codes "7") ∷ order_of pair (codes "8") ∷ []

abbrev fill_documents : List Value → Json Value ℤ
fill_documents held = documents 41 (codes "billId") held

fills-Serves :
    (held : List Value)
    → Serves (fill_documents held) (codes "billId") (fills_path (codes "SPOT") (pos 5)) echo held
unfolding reply_data elements_of text_eqb to_string_ℤ to_string digits_of
fills-Serves held [] = refl
fills-Serves held (c ∷ cursor) = refl

query_recent_fills_complete_example :
    query_recent_fills (fill_documents two_fills) one_instrument echo 1 (pos 5) (codes "SPOT")
    ≡ some (kept (read_fill (fill_documents two_fills) one_instrument) two_fills)
unfolding word_at
query_recent_fills_complete_example =
    query_recent_fills_complete (fill_documents two_fills) one_instrument echo (codes "SPOT")
      (pos 5) two_fills 1 (refl, (refl, tt), (refl, tt, tt)) (fills-Serves two_fills) (omega arith)

-- A full page of orders of an unknown instrument, and one order of a known one behind it.
abbrev repeated : ℕ → Value → List Value
repeated zero v = []
repeated (suc n) v = v ∷ repeated n v

abbrev hidden_order : List Value
hidden_order = repeated 100 (order_of (codes "X-Y") (codes "7")) ++ (order_of pair (codes "8") ∷ [])

abbrev hidden_known : List Value → ℕ
hidden_known = known (pending_documents hidden_order) one_instrument (codes "SPOT")

none_known : hidden_known (take 100 hidden_order) ≡ 0
unfolding pending_order word_at set_field
none_known = refl

one_known : hidden_known (drop 100 hidden_order) ≡ 1
unfolding pending_order word_at set_field
one_known = refl

query_pending_orders-missed_example :
    (result : List (PendingOrderInfo ℤ)) × (query_pending_orders
        (pending_documents hidden_order)
        one_instrument
        echo
        2
        (codes "SPOT")
      ≡ some result)
    × (length result
        < known (pending_documents hidden_order) one_instrument (codes "SPOT") hidden_order)
query_pending_orders-missed_example =
    query_pending_orders-missed (pending_documents hidden_order) one_instrument (codes "SPOT") echo
      hidden_order 1 (pending-Serves hidden_order)
      (subst (λ n. n < 100) (sym none_known) (omega arith))
      (subst (λ n. 0 < n) (sym one_known) (omega arith))
