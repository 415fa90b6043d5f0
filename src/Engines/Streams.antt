-- ===== src/Engines/Streams.antt =====
-- The turns of the two engines, and the four kinds of market data with their rings.
pub mod Kinds
use crypto_trading_system.Prelude.{
  ◌≡◌, refl, sym, ap, ap₂, ◌∙◌, ℕ, [], ◌∷◌, ◌++◌, List, Bool, true, false, arith, append-nil,
  append_assoc, if◌then◌else◌,
}
use crypto_trading_system.Defs.{Ticker, Bbo, Depth, Trade, empty_report}
use crypto_trading_system.Double.{Double, nought}
use crypto_trading_system.Okx.Messages.{Event}
use crypto_trading_system.Ring.{Ring, shm_pop}
use crypto_trading_system.Ring.Feed.{found, popped, push_all}
use crypto_trading_system.Engines.{
  MarketRings, StrategyRings, Call, called, ticker_capacity, bbo_capacity, depth_capacity,
  trade_capacity, strategy_report_capacity, empty_ticker, empty_bbo, empty_depth, empty_trade,
  push_event, poll_round,
}

-- A turn of one of the two engines: the quotation engine hears an event, or the strategy engine goes
-- round its loop.
pub data Turn (D : Type 0) : Type 0 where
  hears : Event D → Turn D
  polls : Bool → Turn D

module _ {D : Type 0} ⦃d : Double D⦄ where
  -- The calls of the strategy in the turn, and the rings after it.
  abbrev pub turn : Turn D → StrategyRings D → List (Call D) × StrategyRings D
  turn (hears event) r = ([], record r { market = push_event event r.market })
  turn (polls timer_is_due) r = poll_round timer_is_due r

  unfoldable pub take_turns : List (Turn D) → StrategyRings D → List (Call D) × StrategyRings D
  take_turns [] r = ([], r)
  take_turns (t ∷ turns) r =
      let (calls, left) = turn t r in
      let (later, rest) = take_turns turns left in (calls ++ later, rest)

module _ {A B : Type 0} (f : A → List B) where
  abbrev pub gather : List A → List B
  gather [] = []
  gather (x ∷ xs) = f x ++ gather xs

  pub gather-append : (xs ys : List A) → gather (xs ++ ys) ≡ gather xs ++ gather ys
  gather-append [] ys = refl
  gather-append (x ∷ xs) ys =
      ap (λ zs. f x ++ zs) (gather-append xs ys) ∙ sym (append_assoc (f x) (gather xs) (gather ys))

-- One kind of market data: its ring, and where it stands in the events and the calls.
pub record Stream (D A : Type 0) ⦃d : Double D⦄ : Type 0 where
  pub capacity : ℕ
  pub blank : A
  pub ring : StrategyRings D → Ring A
  pub of_event : Event D → List A
  pub of_call : Call D → List A
  pub ring-push_event :
      (event : Event D) (r : StrategyRings D)
      → ring (record r { market = push_event event r.market })
        ≡ push_all capacity (of_event event) (ring r)
  pub ring-poll_round :
      (timer_is_due : Bool) (r : StrategyRings D)
      → ring (poll_round timer_is_due r).1 ≡ (shm_pop capacity (ring r) blank).2
  pub calls-poll_round :
      (timer_is_due : Bool) (r : StrategyRings D)
      → gather of_call (poll_round timer_is_due r).0 ≡ popped (shm_pop capacity (ring r) blank)

module _ {D A : Type 0} ⦃d : Double D⦄ (s : Stream D A) where
  -- What the quotation engine hears of the stream in a turn.
  abbrev pub heard : Turn D → List A
  heard (hears event) = s.of_event event
  heard (polls timer_is_due) = []

module _ {A : Type 0} where
  -- The list, if the pop found something.
  abbrev kept : List A → Bool → List A
  kept [] b = []
  kept (x ∷ xs) true = x ∷ xs
  kept (x ∷ xs) false = []

  kept-found : (x : A) (b : Bool) → kept (x ∷ []) b ++ [] ≡ found b x
  kept-found x true = refl
  kept-found x false = refl

  kept-true : (xs : List A) → xs ≡ kept xs true
  kept-true [] = refl
  kept-true (x ∷ xs) = refl

  kept-false : (xs : List A) → [] ≡ kept xs false
  kept-false [] = refl
  kept-false (x ∷ xs) = refl

  gather-called :
      {D B : Type 0} (f : Call D → List A) (make : B → Call D) (p : Bool × B × Ring B)
      → gather f (called make p) ≡ kept (f (make p.1)) p.0
  gather-called f make (true, x, ring) = append-nil (f (make x)) ∙ kept-true (f (make x))
  gather-called f make (false, x, ring) = kept-false (f (make x))

module _ {D : Type 0} where
  abbrev pub ticker_heard : Event D → List (Ticker D)
  ticker_heard (Event.ticker ticker) = ticker ∷ []
  ticker_heard _ = []

  abbrev pub ticker_called : Call D → List (Ticker D)
  ticker_called (Call.on_ticker ticker) = ticker ∷ []
  ticker_called _ = []

  abbrev pub bbo_heard : Event D → List Bbo
  bbo_heard (Event.bbo bbo) = bbo ∷ []
  bbo_heard _ = []

  abbrev pub bbo_called : Call D → List Bbo
  bbo_called (Call.on_bbo bbo) = bbo ∷ []
  bbo_called _ = []

  abbrev pub depth_heard : Event D → List Depth
  depth_heard (Event.depth depth) = depth ∷ []
  depth_heard _ = []

  abbrev pub depth_called : Call D → List Depth
  depth_called (Call.on_depth depth) = depth ∷ []
  depth_called _ = []

  abbrev pub trade_heard : Event D → List Trade
  trade_heard (Event.trade trade) = trade ∷ []
  trade_heard _ = []

  abbrev pub trade_called : Call D → List Trade
  trade_called (Call.on_trade trade) = trade ∷ []
  trade_called _ = []

module _ {D A : Type 0} ⦃d : Double D⦄ where
  -- The calls of a round, one ring after the other.
  gather-poll_round :
      (f : Call D → List A) (timer_is_due : Bool) (r : StrategyRings D)
      → let ticker = shm_pop ticker_capacity r.market.ticker_ring empty_ticker in
        let bbo = shm_pop bbo_capacity r.market.bbo_ring empty_bbo in
        let depth = shm_pop depth_capacity r.market.depth_ring empty_depth in
        let trade = shm_pop trade_capacity r.market.trade_ring empty_trade in
        let report = shm_pop strategy_report_capacity r.report_ring (empty_report nought) in
        gather f (poll_round timer_is_due r).0
        ≡ kept (f (Call.on_ticker ticker.1)) ticker.0
          ++ (kept (f (Call.on_bbo bbo.1)) bbo.0
              ++ (kept (f (Call.on_depth depth.1)) depth.0
                  ++ (kept (f (Call.on_trade trade.1)) trade.0
                      ++ (kept (f (Call.on_execution_report report.1)) report.0
                          ++ kept (f Call.on_timer) timer_is_due))))
  unfolding poll_round
  gather-poll_round f timer_is_due r = after Call.on_ticker _ _ (
      after Call.on_bbo _ _ (
        after Call.on_depth _ _ (
          after Call.on_trade _ _
            (after Call.on_execution_report _ _ (gather-timer timer_is_due)))))
    where
      after :
          {B : Type 0} (make : B → Call D) (p : Bool × B × Ring B) (calls : List (Call D))
          {xs : List A}
          → gather f calls ≡ xs
          → gather f (called make p ++ calls) ≡ kept (f (make p.1)) p.0 ++ xs
      after make p calls e =
          gather-append f (called make p) calls ∙ ap₂ ◌++◌ (gather-called f make p) e

      gather-timer :
          (b : Bool) → gather f (if b then Call.on_timer ∷ [] else []) ≡ kept (f Call.on_timer) b
      gather-timer true = append-nil (f Call.on_timer) ∙ kept-true (f Call.on_timer)
      gather-timer false = kept-false (f Call.on_timer)
