-- ===== src/Okx/Paging/Missed.antt =====
-- When `QueryPendingOrdersByType` of src/clients/okx/okx.cpp stops before the last page.
use crypto_trading_system.Prelude.{
  ◌≡◌, refl, true, ap, ◌∙◌, sym, ℕ, suc, ◌+◌, ◌<◌, [], ◌∷◌, ◌++◌, List, map, some, Text, codes,
  arith, ltb, length, take, drop, append-nil, append_assoc, length-append, take-append-drop,
}
use crypto_trading_system.Double.{Double}
use crypto_trading_system.Json.{Json, text_or_empty}
use crypto_trading_system.Registry.{InstrumentRegistry}
use crypto_trading_system.TradingEngine.{PendingOrderInfo}
use crypto_trading_system.Okx.Orders.{pending_order}
use crypto_trading_system.Okx.Replies.{reply_data}
use crypto_trading_system.Okx.Paging.{
  Page, start_page, read_page, pending_path, read_pending_order, query_pending_orders,
}
use crypto_trading_system.Okx.Paging.Cursor.{after}
use crypto_trading_system.Okx.Paging.Complete.{kept, kept-append, read_pages-round}
use crypto_trading_system.Okx.Paging.Queries.{Serves}

lt-ltb : (m n : ℕ) → m < n → ltb m n ≡ true
lt-ltb m n h = ground arith

module _ {J D : Type 0} ⦃d : Double D⦄ (json : Json J D) (registry : InstrumentRegistry)
    (inst_type : Text) where
  abbrev pub known : List J → ℕ
  known orders = length (kept (pending_order json registry inst_type) orders)

  read_one :
      (x : J) (page : Page (PendingOrderInfo D))
      → let next = read_pending_order json registry inst_type x page in
        (next.result ≡ page.result ++ kept (pending_order json registry inst_type) (x ∷ []))
        × (next.data_count ≡ page.data_count + known (x ∷ []))
  unfolding read_pending_order
  read_one x page = ground (arith, append-nil page.result)

  -- Only orders of registered instruments are kept and counted.
  read_pending-kept :
      (orders : List J) (page : Page (PendingOrderInfo D))
      → let read = read_page (read_pending_order json registry inst_type) (map some orders) page in
        (read.result ≡ page.result ++ kept (pending_order json registry inst_type) orders)
        × (read.data_count ≡ page.data_count + known orders)
  unfolding read_page
  read_pending-kept [] page = ground (arith, append-nil page.result)
  read_pending-kept (x ∷ xs) page =
      let parse = pending_order json registry inst_type in
      let next = read_pending_order json registry inst_type x page in
      let (result, count) = read_one x page in
      let (results, counts) = read_pending-kept xs next in
      let split = kept-append parse (x ∷ []) xs in
      (
        results
            ∙ ap (λ (r : List (PendingOrderInfo D)). r ++ kept parse xs) result
            ∙ append_assoc page.result (kept parse (x ∷ [])) (kept parse xs)
            ∙ ap (λ (r : List (PendingOrderInfo D)). page.result ++ r) (sym split),
        omega (
          arith,
          count,
          counts,
          ap (λ (r : List (PendingOrderInfo D)). length r) split,
          length-append (kept parse (x ∷ [])) (kept parse xs),
        ),
      )

  -- Where fewer than a hundred orders of the first page are of registered instruments and one of a
  -- registered instrument stands behind that page, the query ends after the first page and returns
  -- fewer orders than the exchange holds of registered instruments.
  pub query_pending_orders-missed :
      (exchange : Text → Text) (held : List J) (fuel : ℕ)
      → Serves json (codes "ordId") (pending_path inst_type) exchange held
      → known (take 100 held) < 100
      → 0 < known (drop 100 held)
      → (result : List (PendingOrderInfo D)) × (query_pending_orders json registry exchange
            (suc fuel)
            inst_type
          ≡ some result)
        × (length result < known held)
  unfolding query_pending_orders after
  query_pending_orders-missed exchange held fuel serves few more =
      let read = read_pending_order json registry inst_type in
      let parse = pending_order json registry inst_type in
      let page = read_page read (map some (take 100 held)) (start_page []) in
      let (results, counts) = read_pending-kept (take 100 held) (start_page []) in
      let short : page.data_count < 100 = omega (arith, counts, few) in
      let whole : known held ≡ known (take 100 held) + known (drop 100 held) =
        ap known (sym (take-append-drop 100 held))
        ∙ ap (λ (ys : List (PendingOrderInfo D)). length ys)
            (kept-append parse (take 100 held) (drop 100 held))
        ∙ length-append (kept parse (take 100 held)) (kept parse (drop 100 held)) in
      let same : length page.result ≡ known (take 100 held) =
        ap (λ (ys : List (PendingOrderInfo D)). length ys) results in
      (
        page.result,
        read_pages-round (λ o. text_or_empty json (codes "ordId") o) parse read
              (pending_path inst_type) (reply_data json) exchange fuel [] []
              (map some (take 100 held)) page (serves []) refl
            ∙ rw (lt-ltb page.data_count 100 short),
        omega (arith, whole, same, more),
      )
