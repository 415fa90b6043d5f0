-- ===== src/Okx/Queries/Answers.antt =====
-- `QueryOrderById` of src/clients/okx/okx.cpp as the query that `ReconcileOrders` of
-- src/trading_engine/trading_engine.cpp relies on, and its agreement with `DecodeOrderUpdate`.
use crypto_trading_system.Prelude.{
  ◌≡◌, refl, sym, ap, ◌∙◌, some, Option-cases, inl, inr, Text, codes, arith, false, bind-some, [],
}
use mathlib.Core.Option
use crypto_trading_system.Prelude.Map
use crypto_trading_system.Defs.{
  OrderStatus, ExecutionReport, InstrumentInfo, set_field, order_status_eqb, c_str,
  detect_market_type,
}
use crypto_trading_system.Double.{Double, nought}
use crypto_trading_system.Json.{Json, text_or_empty}
use crypto_trading_system.Registry
use crypto_trading_system.Registry.{InstrumentRegistry}
use crypto_trading_system.TradingEngine.Orders.{IsAnswering}
use crypto_trading_system.Okx.{okx_parse_order_state, okx_parse_inst_type}
use crypto_trading_system.Okx.Orders.{
  instrument_of, queried_report, updated_report, pending_report, queried_order, decode_order_update,
  pending_order,
}
use crypto_trading_system.Okx.Replies.{reply_data}
use crypto_trading_system.Okx.Queries.{query_order_by_id, order_path, first_element}

-- The exchange knows no state that stands for a cancellation that failed.
known_state :
    (s : Text) → order_status_eqb (okx_parse_order_state s) OrderStatus.cancel_failed ≡ false
unfolding okx_parse_order_state Map.find
known_state s = ground arith

-- A report with its client order id, but for what the readers take from different keys.
abbrev pub without_fee :
    {D : Type 0} ⦃d : Double D⦄ → ExecutionReport D × Text → ExecutionReport D × Text
without_fee (report, client_order_id) =
    (record report { fee = nought; fee_currency = [] }, client_order_id)

module _ {J D : Type 0} ⦃d : Double D⦄ (json : Json J D) (registry : InstrumentRegistry) where
  -- An answer: its id, a registered instrument, and a state that the exchange knows.
  queried_order_lem :
      (order : J) (report : ExecutionReport D) (client_order_id : Text)
      → queried_order json registry order ≡ some (report, client_order_id)
      → (report.order_id ≡ set_field 32 (text_or_empty json (codes "ordId") order))
        × ((info : InstrumentInfo) × (Registry.get registry report.instrument ≡ some info))
        × (order_status_eqb report.status OrderStatus.cancel_failed ≡ false)
  unfolding queried_order
  queried_order_lem order report client_order_id h =
      let (info, found, read) =
        bind-some (Registry.find registry (instrument_of json registry order))
          (λ info.
            some
              (queried_report json registry info order, text_or_empty json (codes "clOrdId") order))
          (report, client_order_id) h in
      let same : queried_report json registry info order ≡ report = cc in
      (
        ap (λ (r : ExecutionReport D). r.order_id) (sym same),
        (
          info,
          ap (λ (r : ExecutionReport D). Registry.get registry r.instrument) (sym same) ∙ found,
        ),
        ap (λ (r : ExecutionReport D). order_status_eqb r.status OrderStatus.cancel_failed)
              (sym same)
            ∙ known_state (text_or_empty json (codes "state") order),
      )

  -- Where the first element of every answer names the order that was asked for, by an id that fits its
  -- field, `QueryOrderById` answers as the reconciler needs it: with that order, of a registered
  -- instrument, and never as a failed cancellation.
  pub query_order_by_id-IsAnswering :
      (exchange : Text → Text)
      → ((instrument id : Text) (order : J)
          → first_element (reply_data json (exchange (order_path instrument id))) ≡ some order
          → set_field 32 (text_or_empty json (codes "ordId") order) ≡ id)
      → IsAnswering registry (query_order_by_id json registry exchange)
  unfolding query_order_by_id
  query_order_by_id-IsAnswering exchange names =
      let taken =
        λ (instrument : Text) (id : Text) (report : ExecutionReport D) (client_order_id : Text)
            (h : query_order_by_id json registry exchange instrument id
              ≡ some (report, client_order_id)).
          bind-some (first_element (reply_data json (exchange (order_path instrument id))))
            (queried_order json registry) (report, client_order_id) h in
      record {
        same_order = λ instrument id report client_order_id h.
            let (order, first, read) = taken instrument id report client_order_id h in
            (queried_order_lem order report client_order_id read).0
            ∙ names instrument id order first;
        registered = λ instrument id report client_order_id h.
            let (order, first, read) = taken instrument id report client_order_id h in
            (queried_order_lem order report client_order_id read).1;
        known_state = λ instrument id report client_order_id h.
            let (order, first, read) = taken instrument id report client_order_id h in
            (queried_order_lem order report client_order_id read).2;
      }

  -- A query for an order and an update of it read one description alike, but for the fee and its
  -- currency; so do both and the query for pending orders, where the type asked for is the one that
  -- the order's name shows. All three fail for the same orders.
  pub order_readers-agree :
      (order : J) (inst_type : Text)
      → okx_parse_inst_type inst_type
        ≡ detect_market_type (c_str (text_or_empty json (codes "instId") order))
      → (Option.map without_fee (queried_order json registry order)
          ≡ Option.map without_fee (decode_order_update json registry order))
        × (Option.map without_fee (queried_order json registry order)
            ≡ Option.map
                (λ i. without_fee (i.report, i.client_order_id))
                (pending_order json registry inst_type order))
  unfolding queried_order decode_order_update pending_order queried_report updated_report
      pending_report
  order_readers-agree order inst_type same =
      elim (Option-cases (Registry.find registry (instrument_of json registry order))) [
        | inl unknown ↦ (rw unknown refl, rw unknown refl)
        | inr (info, found) ↦ (rw found refl, rw (found, same) refl)
      ]
