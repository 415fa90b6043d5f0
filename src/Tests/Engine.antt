-- ===== src/Tests/Engine.antt =====
-- The trading engine, the strategies and the exchange's words at concrete inputs.
use crypto_trading_system.Prelude.{
  ◌≡◌, refl, sym, ap, ◌∙◌, Bool, ℤ, pos, true, [], ◌∷◌, Option, none, some, Text, text_eq, text_eqb,
  text_eqb_iff, codes, arith, if◌then◌else◌,
}
use crypto_trading_system.Prelude.Int.{◌*ℤ◌, ◌-ℤ◌}
use crypto_trading_system.Prelude.Map
use crypto_trading_system.Defs.{
  Side, MarketType, PosSide, OrderType, OrderStatus, TradeMode, ExecutionReport, OrderRequest,
  order_status_eqb, set_field,
}
use crypto_trading_system.Double.Whole.{whole_double}
use crypto_trading_system.Registry
use crypto_trading_system.Currency.{extract_base, locked_currency}
use crypto_trading_system.Prelude.Int.{◌+ℤ◌, ◌-ℤ◌}
use crypto_trading_system.Utils.{encode, decode}
use crypto_trading_system.PositionManager.{
  done, reserve_spot, update_spot_on_fill, update_spot_on_rejected,
}
use crypto_trading_system.Strategy.{Strategy, order_signal}
use crypto_trading_system.TradingEngine.{
  TradingEngine, needs_recovery, settle, handle_order_update, Query, replay_orphans, replay_answer,
  place_request, reservation_of, reserve_amount, locked_amount,
}
use crypto_trading_system.TradingEngine.Live.{find-handle_order_update}
use crypto_trading_system.TradingEngine.Recovery.{core, cancelled_twice}
use crypto_trading_system.TradingEngine.Missed.{announced, recovered_new}
use crypto_trading_system.TradingEngine.Orders.{IsAnswering, orphans_ended}
use crypto_trading_system.TradingEngine.Reports.{report_ring-handle_order_update}
use crypto_trading_system.TradingEngine.{report_capacity, recover, mark_live}
use crypto_trading_system.Ring.{shm_push}
use crypto_trading_system.PositionManager.{update_spot_on_new}
use crypto_trading_system.TradingEngine.Requests.{emit, reservation_of-emit}
use crypto_trading_system.Okx.{refused_report}
use crypto_trading_system.Strategy.Emitted.{emit-full}
use crypto_trading_system.PositionManager.{
  PositionManager, available, frozen, reserved, effective_available_spot, entry,
}
use crypto_trading_system.Okx.Refused.{margin_refused}
use crypto_trading_system.Tests.{pair, pair_info, one_instrument, ten_each, purchase}

-- An engine with the reservation for the client's order "c".
abbrev engine : TradingEngine ℤ
engine = record {
  position_manager = ten_each;
  running = true;
  report_ring = record { head = 0; tail = 0; entries = [] };
  pending_orders = [];
  all_pending_orders = [];
  strategy_instruments = pair ∷ [];
  live_order_instruments = [];
  client_order_id_to_reservation =
      (
        codes "c",
        record {
          instrument = pair;
          currency = codes "B";
          amount = pos 6;
          side = Side.buy;
          trade_mode = TradeMode.cash;
        },
      )
      ∷ [];
}

recovered_new_example :
    core (handle_order_update one_instrument engine (purchase OrderStatus.cancelled) (codes "c"))
    ≡ core (
        handle_order_update one_instrument
          (handle_order_update one_instrument engine
            (announced (purchase OrderStatus.cancelled))
            (codes "c")).0
          (purchase OrderStatus.cancelled)
          (codes "c"))
unfolding needs_recovery Map.find text_eqb
recovered_new_example =
    recovered_new one_instrument engine (purchase OrderStatus.cancelled) (codes "c") pair_info refl
      refl refl

cancelled_twice_example :
    handle_order_update one_instrument
      (handle_order_update one_instrument engine (purchase OrderStatus.cancelled) (codes "c")).0
      (purchase OrderStatus.cancelled)
      (codes "c")
    ≡ (
      (handle_order_update one_instrument engine (purchase OrderStatus.cancelled) (codes "c")).0,
      done,
    )
unfolding Map.find text_eqb
cancelled_twice_example =
    cancelled_twice one_instrument engine (purchase OrderStatus.cancelled) (codes "c") pair_info
      refl refl

find-handle_order_update_example :
    Map.find
      (codes "7")
      (handle_order_update one_instrument engine
        (purchase OrderStatus.new)
        (codes "c")).0.live_order_instruments
    ≡ some pair
unfolding Map.find text_eqb
find-handle_order_update_example =
    find-handle_order_update one_instrument engine (purchase OrderStatus.new) (codes "c")
      (codes "7") pair_info refl

report_ring-handle_order_update_example :
    (handle_order_update one_instrument engine (purchase OrderStatus.new) (codes "c")).0.report_ring
    ≡ (shm_push report_capacity engine.report_ring (purchase OrderStatus.new)).1
unfolding Map.find Map.assign text_eqb recover mark_live handle_order_update update_spot_on_new
report_ring-handle_order_update_example =
    report_ring-handle_order_update one_instrument engine
      (record engine { live_order_instruments = (codes "7", pair) ∷ [] }) (purchase OrderStatus.new)
      (codes "c") pair_info refl refl refl

-- An engine whose order "7" is live, and an exchange that says it is filled.
abbrev waiting : TradingEngine ℤ
waiting = record engine {
  live_order_instruments = (codes "7", pair) ∷ [];
  client_order_id_to_reservation = [];
}

abbrev answers : Query ℤ
answers instrument id =
    if text_eqb id (codes "7") then some (purchase OrderStatus.filled, []) else none

answer_lem :
    {A B : Type 0} (found : Bool) (a r : A) (c c' : B)
    → if◌then◌else◌ {A = Option (A × B)} found (some (a, c)) none ≡ some (r, c')
    → (found ≡ true) × (a ≡ r)
answer_lem found a r c c' e = ground arith

answered :
    (instrument id : Text) (report : ExecutionReport ℤ) (client_order_id : Text)
    → answers instrument id ≡ some (report, client_order_id)
    → (text_eqb id (codes "7") ≡ true) × (purchase OrderStatus.filled ≡ report)
answered instrument id report client_order_id e =
    answer_lem (text_eqb id (codes "7")) (purchase OrderStatus.filled) report [] client_order_id e

answers-IsAnswering : IsAnswering one_instrument answers
unfolding Map.find text_eqb
answers-IsAnswering = record {
  same_order = λ instrument id report client_order_id e.
      ap (λ r. r.order_id) (sym (answered instrument id report client_order_id e).1)
      ∙ sym ((text_eqb_iff id (codes "7")).0 (answered instrument id report client_order_id e).0);
  registered = λ instrument id report client_order_id e. (
    pair_info,
    ap (λ r. Registry.get one_instrument r.instrument)
        (sym (answered instrument id report client_order_id e).1),
  );
  known_state = λ instrument id report client_order_id e.
      ap (λ r. order_status_eqb r.status OrderStatus.cancel_failed)
        (sym (answered instrument id report client_order_id e).1);
}

orphans_ended_example :
    Map.find
      (codes "7")
      (replay_orphans one_instrument answers
        ((codes "7", pair) ∷ [])
        waiting).0.live_order_instruments
    ≡ none
unfolding Map.find text_eqb replay_orphans replay_answer handle_order_update update_spot_on_fill
    ◌-ℤ◌
orphans_ended_example =
    orphans_ended one_instrument answers answers-IsAnswering ((codes "7", pair) ∷ []) waiting
      (codes "7") pair (purchase OrderStatus.filled) [] refl refl refl refl

abbrev strategy : Strategy ℤ
strategy = record {
  signal_ring = record { head = 0; tail = 1024; entries = [] };
  position_manager = ten_each;
  running = true;
}

reservation_of-emit_example :
    (emit one_instrument strategy Side.buy pair OrderType.limit
      (pos 2)
      (pos 3)
      MarketType.spot
      PosSide.net
      TradeMode.cash).0.position_manager
    ≡ reserve_spot ten_each (codes "B") (pos 6)
unfolding Map.find text_eqb set_field order_signal place_request reservation_of locked_amount
    reserve_amount decode ◌*ℤ◌ locked_currency
reservation_of-emit_example =
    reservation_of-emit one_instrument strategy Side.buy pair OrderType.limit (pos 2) (pos 3)
      MarketType.spot PosSide.net TradeMode.cash pair_info 5
      (record {
        instrument = pair;
        currency = codes "B";
        amount = pos 6;
        side = Side.buy;
        trade_mode = TradeMode.cash;
      })
      refl refl refl refl

emit-full_example :
    let s' =
      (emit one_instrument strategy Side.buy pair OrderType.limit
        (pos 2)
        (pos 3)
        MarketType.spot
        PosSide.net
        TradeMode.cash).0 in
    (s'.signal_ring ≡ strategy.signal_ring)
    × (effective_available_spot s'.position_manager (codes "B")
        ≡ whole_double.sub
            (available ten_each (codes "B"))
            (whole_double.add (reserved ten_each (codes "B")) (pos 6)))
unfolding Map.find text_eqb set_field order_signal place_request reservation_of locked_amount
    reserve_amount decode ◌*ℤ◌ locked_currency
emit-full_example =
    emit-full one_instrument strategy Side.buy pair OrderType.limit (pos 2) (pos 3) MarketType.spot
      PosSide.net TradeMode.cash pair_info 5
      (record {
        instrument = pair;
        currency = codes "B";
        amount = pos 6;
        side = Side.buy;
        trade_mode = TradeMode.cash;
      })
      refl refl refl refl refl

abbrev margin_sale : OrderRequest
margin_sale = record {
  instrument = pair;
  side = Side.sell;
  order_type = OrderType.limit;
  market_type = MarketType.spot;
  position_side = PosSide.net;
  trade_mode = TradeMode.cross;
  size = codes "3";
  price = codes "2";
  target_currency = [];
  client_order_id = codes "c";
}

-- Each text is read as 3.
abbrev three : Text → ℤ
three text = pos 3

-- Another order holds five of the base.
abbrev five_frozen : PositionManager ℤ
five_frozen = record ten_each {
  spot_positions =
      (
        codes "A",
        record { currency = codes "A"; available = pos 10; frozen = pos 5; borrowed = pos 0 },
      )
      ∷ [];
}

margin_refused_example :
    let report = refused_report one_instrument three margin_sale in
    let m' = (settle one_instrument five_frozen report).0 in
    (frozen m' (codes "A") ≡ pos 2)
    × (available m' (codes "A") ≡ pos 13)
    × (update_spot_on_rejected one_instrument five_frozen report TradeMode.cross
        ≡ (five_frozen, done))
unfolding Map.find text_eqb set_field extract_base decode entry refused_report ◌-ℤ◌ encode ◌*ℤ◌ ◌+ℤ◌
margin_refused_example =
    margin_refused one_instrument five_frozen three margin_sale pair_info refl refl refl refl refl
      refl
