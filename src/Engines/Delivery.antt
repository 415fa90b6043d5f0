-- ===== src/Engines/Delivery.antt =====
-- What the quotation engine hears of an exchange and what the strategy is called with, however the
-- two engines take turns.
use crypto_trading_system.Prelude.{
  ◌≡◌, refl, sym, ap, ap₂, ◌∙◌, subst, ℕ, ◌+◌, ◌-◌, ◌≤◌, [], ◌∷◌, ◌++◌, List, Bool, arith, length,
  append-nil, append_assoc, length-append,
}
use crypto_trading_system.Double.{Double}
use crypto_trading_system.Ring.Refine.{contents, IsValid, shm_pop_refines}
use crypto_trading_system.Ring.Feed.{
  Takes, contents-push_all, contents-pop, length-contents-pop, Takes-pop,
}
use crypto_trading_system.Engines.{
  StrategyRings, ticker_capacity, bbo_capacity, depth_capacity, trade_capacity, empty_ticker,
  empty_bbo, empty_depth, empty_trade, poll_round, poll,
}
use crypto_trading_system.Engines.Streams.{
  Turn, hears, polls, turn, take_turns, gather, gather-append, Stream, heard, ticker_called,
  bbo_called, depth_called, trade_called,
}
use crypto_trading_system.Engines.Streams.Kinds.{tickers, bbos, depths, trades}

interchange :
    {A : Type 0} (a b c e f g h : List A)
    → b ++ c ≡ e ++ f
    → a ++ e ≡ g ++ h
    → (a ++ b) ++ c ≡ g ++ (h ++ f)
interchange a b c e f g h p q =
    append_assoc a b c
    ∙ ap (λ xs. a ++ xs) p
    ∙ sym (append_assoc a e f)
    ∙ ap (λ xs. xs ++ f) q
    ∙ append_assoc g h f

length-zero : {A : Type 0} (xs : List A) → length xs ≤ 0 → xs ≡ []
length-zero [] le = refl
length-zero (x ∷ xs) le = absurd (omega arith)

module _ {D A : Type 0} ⦃d : Double D⦄ (s : Stream D A) where
  -- What is pushed and not yet popped.
  abbrev pub waiting : StrategyRings D → List A
  waiting r = contents s.blank s.capacity (s.ring r)

  -- One turn hands on what it hears or pops.
  turn-round :
      (t : Turn D) (n : ℕ) (r : StrategyRings D)
      → Takes s.blank s.capacity (length (heard s t) + n) (s.ring r)
      → (gather s.of_call (turn t r).0 ++ waiting (turn t r).1 ≡ waiting r ++ heard s t)
        × Takes s.blank s.capacity n (s.ring (turn t r).1)
  turn-round (hears event) n r w =
      subst
        (λ q.
          (contents s.blank s.capacity q ≡ waiting r ++ s.of_event event)
          × Takes s.blank s.capacity n q)
        (sym (s.ring-push_event event r))
        (contents-push_all s.blank s.capacity (s.of_event event) n (s.ring r) w)
  turn-round (polls timer_is_due) n r w = (
    ap₂ (λ xs q. xs ++ contents s.blank s.capacity q) (s.calls-poll_round timer_is_due r)
          (s.ring-poll_round timer_is_due r)
        ∙ contents-pop s.blank s.capacity (s.ring r) w.valid
        ∙ sym (append-nil (waiting r)),
    subst (Takes s.blank s.capacity n) (sym (s.ring-poll_round timer_is_due r)) (
        Takes-pop s.blank s.capacity (s.ring r) n
          (subst (λ k. Takes s.blank s.capacity k (s.ring r)) (omega arith) w)),
  )

  delivered :
      (turns : List (Turn D)) (r : StrategyRings D)
      → Takes s.blank s.capacity (length (gather (heard s) turns)) (s.ring r)
      → gather s.of_call (take_turns turns r).0 ++ waiting (take_turns turns r).1
        ≡ waiting r ++ gather (heard s) turns
  unfolding take_turns
  delivered [] r w = sym (append-nil (waiting r))
  delivered (t ∷ turns) r w =
      let (now, w') = turn-round t (length (gather (heard s) turns)) r (
        subst (λ k. Takes s.blank s.capacity k (s.ring r))
          (length-append (heard s t) (gather (heard s) turns)) w) in
      let (calls, left) = turn t r in
      ap (λ xs. xs ++ waiting (take_turns turns left).1)
        (gather-append s.of_call calls (take_turns turns left).0)
      ∙ interchange (gather s.of_call calls) _ _ _ _ _ _ (delivered turns left w') now

  -- As many rounds as there are entries empty the ring.
  emptied :
      (rounds : List Bool) (r : StrategyRings D)
      → IsValid s.capacity (s.ring r)
      → length (waiting r) ≤ length rounds
      → (gather s.of_call (poll rounds r).0 ≡ waiting r) × (waiting (poll rounds r).1 ≡ [])
  unfolding poll
  emptied [] r v enough = (sym (length-zero (waiting r) enough), length-zero (waiting r) enough)
  emptied (timer_is_due ∷ rounds) r v enough =
      let (calls, left) = poll_round timer_is_due r in
      let ring = s.ring-poll_round timer_is_due r in
      let v' =
        subst (IsValid s.capacity) (sym ring) (shm_pop_refines s.blank s.capacity (s.ring r) v).1 in
      let shorter =
        subst (λ q. length (contents s.blank s.capacity q) ≤ length (waiting r) - 1) (sym ring)
          (length-contents-pop s.blank s.capacity (s.ring r) v) in
      let (all, none_left) = emptied rounds left v' (omega (arith, shorter, enough)) in
      (
        gather-append s.of_call calls (poll rounds left).0
            ∙ ap (λ xs. gather s.of_call calls ++ xs) all
            ∙ ap₂ (λ xs q. xs ++ contents s.blank s.capacity q) (s.calls-poll_round timer_is_due r)
                ring
            ∙ contents-pop s.blank s.capacity (s.ring r) v,
        none_left,
      )

-- However the turns of the two engines fall: for each of the four kinds of market data, what the
-- strategy has been called with, in order, followed by what still waits in the ring, is what waited
-- at the start followed by what the quotation engine heard, in order. It is asked that each ring is
-- valid, can take all that is heard even if nothing is popped, and that its counter does not wrap.
pub take_turns_delivers :
    {D : Type 0} ⦃d : Double D⦄ (turns : List (Turn D)) (r : StrategyRings D)
    → Takes empty_ticker ticker_capacity
        (length (gather (heard tickers) turns))
        r.market.ticker_ring
    → Takes empty_bbo bbo_capacity (length (gather (heard bbos) turns)) r.market.bbo_ring
    → Takes empty_depth depth_capacity (length (gather (heard depths) turns)) r.market.depth_ring
    → Takes empty_trade trade_capacity (length (gather (heard trades) turns)) r.market.trade_ring
    → let (calls, left) = take_turns turns r in
      (gather ticker_called calls ++ waiting tickers left
        ≡ waiting tickers r ++ gather (heard tickers) turns)
      × (gather bbo_called calls ++ waiting bbos left ≡ waiting bbos r ++ gather (heard bbos) turns)
      × (gather depth_called calls ++ waiting depths left
          ≡ waiting depths r ++ gather (heard depths) turns)
      × (gather trade_called calls ++ waiting trades left
          ≡ waiting trades r ++ gather (heard trades) turns)
take_turns_delivers turns r ticker bbo depth trade = (
  delivered tickers turns r ticker,
  delivered bbos turns r bbo,
  delivered depths turns r depth,
  delivered trades turns r trade,
)

-- On valid rings, a loop of at least as many rounds as entries wait in each of the four rings calls
-- the strategy with all of them, in order, and leaves the four rings empty.
pub poll_empties :
    {D : Type 0} ⦃d : Double D⦄ (rounds : List Bool) (r : StrategyRings D)
    → IsValid ticker_capacity r.market.ticker_ring
    → IsValid bbo_capacity r.market.bbo_ring
    → IsValid depth_capacity r.market.depth_ring
    → IsValid trade_capacity r.market.trade_ring
    → length (waiting tickers r) ≤ length rounds
    → length (waiting bbos r) ≤ length rounds
    → length (waiting depths r) ≤ length rounds
    → length (waiting trades r) ≤ length rounds
    → let (calls, left) = poll rounds r in
      ((gather ticker_called calls ≡ waiting tickers r) × (waiting tickers left ≡ []))
      × ((gather bbo_called calls ≡ waiting bbos r) × (waiting bbos left ≡ []))
      × ((gather depth_called calls ≡ waiting depths r) × (waiting depths left ≡ []))
      × ((gather trade_called calls ≡ waiting trades r) × (waiting trades left ≡ []))
poll_empties rounds r ticker bbo depth trade tn bn dn rn = (
  emptied tickers rounds r ticker tn,
  emptied bbos rounds r bbo bn,
  emptied depths rounds r depth dn,
  emptied trades rounds r trade rn,
)
