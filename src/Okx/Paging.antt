-- ===== src/Okx/Paging.antt =====
-- The queries of src/clients/okx/okx.cpp that read page after page: `QueryPendingOrdersByType` and
-- `QueryRecentFills`. The exchange is a function from the path of a request to the body that
-- `HttpsRequest` returns, which is empty where the request fails.
pub mod Complete
pub mod Cursor
pub mod Missed
pub mod Queries
use crypto_trading_system.Prelude.{
  ℕ, zero, suc, ◌+◌, [], ◌∷◌, ◌++◌, List, Option, none, some, Text, codes, ℤ, is_empty, ltb,
  if◌then◌else◌,
}
use crypto_trading_system.Defs.{Fill}
use crypto_trading_system.Double.{Double}
use crypto_trading_system.Json.{Json, text_or_empty}
use crypto_trading_system.Registry.{InstrumentRegistry}
use crypto_trading_system.Utils.{to_string_ℤ}
use crypto_trading_system.TradingEngine.{PendingOrderInfo}
use crypto_trading_system.Okx.Orders.{pending_order, read_fill}
use crypto_trading_system.Okx.Replies.{reply_data}

-- `result`, `last_order_id` or `last_bill_id`, and `data_count`.
pub record Page (A : Type 0) : Type 0 where
  pub result : List A
  pub last_id : Text
  pub data_count : ℕ

-- `data_count` and the last id start anew with every page.
abbrev pub start_page : {A : Type 0} → List A → Page A
start_page result = record { result = result; last_id = []; data_count = 0 }

module _ {J A : Type 0} where
  -- The loop over the elements of a page: an element that is an error ends it.
  unfoldable pub read_page : (J → Page A → Page A) → List (Option J) → Page A → Page A
  read_page read [] page = page
  read_page read (none ∷ elements) page = page
  read_page read (some element ∷ elements) page = read_page read elements (read element page)

  module _ (path : Text → Text) (data_of : Text → Option (List (Option J)))
      (read : J → Page A → Page A) (exchange : Text → Text) where
    -- The loop over the pages; the outer `none` means that the fuel ran out.
    unfoldable pub read_pages : ℕ → Text → List A → Option (List A)
    unfolding read_page
    read_pages zero after_cursor result = none
    read_pages (suc fuel) after_cursor result = elim (data_of (exchange (path after_cursor))) [
      | none ↦ some result
      | some elements ↦
          let page = read_page read elements (start_page result) in
          let rest = read_pages fuel page.last_id page.result in
          if ltb page.data_count 100 then some page.result else rest
    ]

-- `if (!after_cursor.empty()) { path += "&after=" + after_cursor; }`
abbrev pub after_path : Text → Text → Text
after_path base after_cursor =
    base ++ (if is_empty after_cursor then [] else codes "&after=" ++ after_cursor)

abbrev pub pending_path : Text → Text → Text
pending_path inst_type = after_path (codes "/api/v5/trade/orders-pending?instType=" ++ inst_type)

abbrev pub fills_path : Text → ℤ → Text → Text
fills_path inst_type since_ms = after_path (
    codes "/api/v5/trade/fills?instType="
    ++ (inst_type ++ (codes "&begin=" ++ to_string_ℤ since_ms)))

module _ {J D : Type 0} ⦃d : Double D⦄ (json : Json J D) (registry : InstrumentRegistry) where
  -- An order whose instrument is not registered is neither kept nor counted.
  unfoldable pub read_pending_order :
      Text → J → Page (PendingOrderInfo D) → Page (PendingOrderInfo D)
  read_pending_order inst_type order page = elim (pending_order json registry inst_type order) [
    | none ↦ page
    | some info ↦ record {
      result = page.result ++ (info ∷ []);
      last_id = text_or_empty json (codes "ordId") order;
      data_count = page.data_count + 1;
    }
  ]

  unfoldable pub query_pending_orders :
      (Text → Text) → ℕ → Text → Option (List (PendingOrderInfo D))
  unfolding read_pages read_pending_order pending_order reply_data
  query_pending_orders exchange fuel inst_type =
      read_pages (pending_path inst_type) (reply_data json) (read_pending_order inst_type) exchange
        fuel [] []

  -- A fill whose instrument is not registered is counted, and moves the cursor.
  unfoldable pub read_recent_fill : J → Page (Fill D) → Page (Fill D)
  read_recent_fill fill page = elim (read_fill json registry fill) [
    | none ↦ record page {
      last_id = text_or_empty json (codes "billId") fill;
      data_count = page.data_count + 1;
    }
    | some read ↦ record {
      result = page.result ++ (read ∷ []);
      last_id = text_or_empty json (codes "billId") fill;
      data_count = page.data_count + 1;
    }
  ]

  unfoldable pub query_recent_fills : (Text → Text) → ℕ → ℤ → Text → Option (List (Fill D))
  unfolding read_pages read_recent_fill read_fill reply_data
  query_recent_fills exchange fuel since_ms inst_type =
      read_pages (fills_path inst_type since_ms) (reply_data json) read_recent_fill exchange fuel []
        []
