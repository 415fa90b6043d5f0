-- ===== src/Okx/Paging/Queries.antt =====
-- `QueryPendingOrdersByType` and `QueryRecentFills` of src/clients/okx/okx.cpp against an exchange that
-- holds a list and serves the next hundred of it after a cursor.
use crypto_trading_system.Prelude.{
  ◌≡◌, ℕ, ◌/◌, ◌<◌, [], ◌∷◌, List, map, some, Text, codes, ℤ, arith, is_some, append-nil, length,
  take, All, true,
}
use crypto_trading_system.Double.{Double}
use crypto_trading_system.Json.{Json, text_or_empty}
use crypto_trading_system.Registry.{InstrumentRegistry}
use crypto_trading_system.Okx.Orders.{pending_order, read_fill}
use crypto_trading_system.Okx.Replies.{reply_data}
use crypto_trading_system.Okx.Paging.{
  pending_path, fills_path, read_pending_order, read_recent_fill, query_pending_orders,
  query_recent_fills,
}
use crypto_trading_system.Okx.Paging.Cursor.{after, IsNumbered}
use crypto_trading_system.Okx.Paging.Complete.{kept, Counts, read_pages_complete}

-- The exchange answers a path with a cursor by the next hundred of the list behind it.
abbrev pub Serves :
    {J D : Type 0} → Json J D → Text → (Text → Text) → (Text → Text) → List J → Type 0
Serves json key path exchange held =
    (cursor : Text)
    → reply_data json (exchange (path cursor))
      ≡ some (map some (take 100 (after (text_or_empty json key) cursor held)))

module _ {J D : Type 0} ⦃d : Double D⦄ (json : Json J D) (registry : InstrumentRegistry) where
  abbrev pub fill_id : J → Text
  fill_id fill = text_or_empty json (codes "billId") fill

  abbrev pub order_id : J → Text
  order_id order = text_or_empty json (codes "ordId") order

  abbrev pub IsRegistered : Text → J → Type 0
  IsRegistered inst_type order = is_some (pending_order json registry inst_type order) ≡ true

  read_recent_fill-Counts :
      (fill : J) → Counts fill_id (read_fill json registry) (read_recent_fill json registry) fill
  unfolding read_recent_fill
  read_recent_fill-Counts fill page = ground (arith, append-nil page.result)

  read_pending_order-Counts :
      (inst_type : Text) (order : J)
      → is_some (pending_order json registry inst_type order) ≡ true
      → Counts order_id
          (pending_order json registry inst_type)
          (read_pending_order json registry inst_type)
          order
  unfolding read_pending_order
  read_pending_order-Counts inst_type order known page = ground (arith, known)

  orders_count :
      (inst_type : Text) (held : List J)
      → All (IsRegistered inst_type) held
      → All
          (Counts order_id
            (pending_order json registry inst_type)
            (read_pending_order json registry inst_type))
          held
  orders_count inst_type [] h = tt
  orders_count inst_type (x ∷ xs) h =
      (read_pending_order-Counts inst_type x h.0, orders_count inst_type xs h.1)

  fills_count :
      (held : List J)
      → All (Counts fill_id (read_fill json registry) (read_recent_fill json registry)) held
  fills_count [] = tt
  fills_count (x ∷ xs) = (read_recent_fill-Counts x, fills_count xs)

  -- Of an exchange that holds a list of numbered orders and serves the next hundred of it behind a
  -- cursor, the query returns every order, in the order of the list, after one round more than there
  -- are full pages, provided that the instrument of every order is registered.
  pub query_pending_orders_complete :
      (exchange : Text → Text) (inst_type : Text) (held : List J) (fuel : ℕ)
      → IsNumbered order_id held
      → All (IsRegistered inst_type) held
      → Serves json (codes "ordId") (pending_path inst_type) exchange held
      → length held / 100 < fuel
      → query_pending_orders json registry exchange fuel inst_type
        ≡ some (kept (pending_order json registry inst_type) held)
  unfolding query_pending_orders
  query_pending_orders_complete exchange inst_type held fuel numbered registered serves enough =
      read_pages_complete order_id (pending_order json registry inst_type)
        (read_pending_order json registry inst_type) (pending_path inst_type) (reply_data json)
        exchange held numbered (orders_count inst_type held registered) serves fuel enough

  -- Of an exchange that holds a list of numbered fills and serves the next hundred of it behind a
  -- cursor, the query returns the fills of registered instruments, all of them and in the order of the
  -- list, after one round more than there are full pages; fills of other instruments do not stop it.
  pub query_recent_fills_complete :
      (exchange : Text → Text) (inst_type : Text) (since_ms : ℤ) (held : List J) (fuel : ℕ)
      → IsNumbered fill_id held
      → Serves json (codes "billId") (fills_path inst_type since_ms) exchange held
      → length held / 100 < fuel
      → query_recent_fills json registry exchange fuel since_ms inst_type
        ≡ some (kept (read_fill json registry) held)
  unfolding query_recent_fills
  query_recent_fills_complete exchange inst_type since_ms held fuel numbered serves enough =
      read_pages_complete fill_id (read_fill json registry) (read_recent_fill json registry)
        (fills_path inst_type since_ms) (reply_data json) exchange held numbered (fills_count held)
        serves fuel enough
