-- ===== src/Exchange/Silence.antt =====
-- When the public loop of src/clients/exchange_client.cpp gives a connection up, and what it hands on.
use crypto_trading_system.Prelude.{
  ◌≡◌, refl, sym, ap, ap₂, subst, ◌∙◌, [], ◌∷◌, ◌++◌, List, map, Bool, true, false, Bool-cases, inl,
  inr, some, Text, text_eq, codes, is_empty, arith, All, append-nil, append_assoc, ◌==◌, ◌||◌, not,
  if◌then◌else◌,
}
use crypto_trading_system.Exchange.{
  Phase, PublicState, PublicEvent, subscription, public_step, run_public,
}

-- A state in which the loop reads, with nothing left open.
abbrev pub listening : Bool → PublicState → PublicState
listening ping_pending s = record s { running = true; phase = Phase.listening ping_pending }

abbrev pub turns : List Text → List PublicEvent
turns texts = map (λ raw. PublicEvent.turn (some raw)) texts

-- The answers to pings are not handed on.
abbrev pub without_pongs : List Text → List Text
without_pongs [] = []
without_pongs (raw ∷ texts) =
    if raw == codes "pong" then without_pongs texts else raw ∷ without_pongs texts

without_pongs-split :
    (raw : Text) (texts : List Text)
    → without_pongs (raw ∷ []) ++ without_pongs texts ≡ without_pongs (raw ∷ texts)
without_pongs-split raw texts = ground arith

listening-eq :
    (s : PublicState) (ping_pending : Bool)
    → s.running ≡ true
    → s.phase ≡ Phase.listening ping_pending
    → listening ping_pending s ≡ s
listening-eq s ping_pending runs at =
    sym (ap₂ (λ (b : Bool) (p : Phase). record s { running = b; phase = p }) runs at)

module _ (build_subscribe_message : Text → Text → Text) (is_fatal : Text → Bool) where
  -- Two rounds without a word, and a new connection.
  abbrev pub left_silent : PublicState → PublicState
  left_silent s =
      run_public build_subscribe_message is_fatal
        (PublicEvent.turn (some []) ∷ PublicEvent.turn (some []) ∷ []) s

  abbrev pub made_again : PublicState → PublicState
  made_again s =
      run_public build_subscribe_message is_fatal (PublicEvent.opening ∷ PublicEvent.joined ∷ []) s

  abbrev Reconnects : PublicState → Type 0
  Reconnects s =
      ((left_silent s).phase ≡ Phase.closed)
      × ((left_silent s).heard ≡ s.heard)
      × ((made_again (left_silent s)).phase ≡ Phase.listening false)
      × ((made_again (left_silent s)).wire
          ≡ map (subscription build_subscribe_message) s.subscriptions)

  listening-Reconnects :
      (s : PublicState) (ping_pending : Bool) → Reconnects (listening ping_pending s)
  unfolding run_public
  listening-Reconnects s true = (refl, refl, refl, refl)
  listening-Reconnects s false = (refl, append-nil s.heard, refl, refl)

  -- Where nothing comes for two rounds of a loop that listens, the connection is closed after them and
  -- nothing is handed on; the next connection is sent exactly the subscriptions, in order, before its
  -- first round, whether a ping was waiting before or not.
  pub silence-reconnects :
      (s : PublicState) (ping_pending : Bool)
      → s.running ≡ true
      → s.phase ≡ Phase.listening ping_pending
      → ((left_silent s).phase ≡ Phase.closed)
        × ((left_silent s).heard ≡ s.heard)
        × ((made_again (left_silent s)).phase ≡ Phase.listening false)
        × ((made_again (left_silent s)).wire
            ≡ map (subscription build_subscribe_message) s.subscriptions)
  silence-reconnects s ping_pending runs at =
      subst Reconnects (listening-eq s ping_pending runs at) (listening-Reconnects s ping_pending)

  -- A text that the handler does not see or for which it does not throw.
  abbrev pub IsHarmless : Text → Type 0
  IsHarmless raw = (raw == codes "pong" || not (is_fatal raw)) ≡ true

  -- A round that brings a text, which is not empty.
  turn-heard :
      (s : PublicState) (ping_pending : Bool) (raw : Text)
      → is_empty raw ≡ false
      → IsHarmless raw
      → public_step build_subscribe_message is_fatal
          (PublicEvent.turn (some raw))
          (listening ping_pending s)
        ≡ record s {
          running = true;
          phase = Phase.listening false;
          wire = s.wire ++ [];
          heard = s.heard ++ without_pongs (raw ∷ []);
        }
  unfolding public_step
  turn-heard s ping_pending raw filled harmless = elim (Bool-cases (raw == codes "pong")) [
    | inl pong ↦ rw (filled, pong) refl
    | inr other ↦ let fine : is_fatal raw ≡ false = ground arith in rw (filled, other, fine) refl
  ]

  -- As long as every round brings a text, and the handler throws for none that is handed to it, the
  -- loop keeps its connection and writes nothing to it, and the texts are handed on in order, but for
  -- the answers to pings.
  pub talk-heard :
      (texts : List Text) (s : PublicState) (ping_pending : Bool)
      → s.running ≡ true
      → s.phase ≡ Phase.listening ping_pending
      → All (λ raw. (is_empty raw ≡ false) × IsHarmless raw) texts
      → let after = run_public build_subscribe_message is_fatal (turns texts) s in
        ((q : Bool) × (after.phase ≡ Phase.listening q))
        × (after.heard ≡ s.heard ++ without_pongs texts)
        × (after.wire ≡ s.wire)
  unfolding run_public
  talk-heard [] s ping_pending runs at filled = ((ping_pending, at), sym (append-nil s.heard), refl)
  talk-heard (raw ∷ texts) s ping_pending runs at filled =
      let next : PublicState = record s {
        running = true;
        phase = Phase.listening false;
        wire = s.wire ++ [];
        heard = s.heard ++ without_pongs (raw ∷ []);
      } in
      let step =
        ap (public_step build_subscribe_message is_fatal (PublicEvent.turn (some raw)))
          (sym (listening-eq s ping_pending runs at))
        ∙ turn-heard s ping_pending raw filled.0.0 filled.0.1 in
      let same = ap (run_public build_subscribe_message is_fatal (turns texts)) step in
      let (phase, heard, wire) = talk-heard texts next false refl refl filled.1 in
      (
        (phase.0, ap (λ (r : PublicState). r.phase) same ∙ phase.1),
        ap (λ (r : PublicState). r.heard) same
            ∙ heard
            ∙ append_assoc s.heard (without_pongs (raw ∷ [])) (without_pongs texts)
            ∙ ap (λ (ys : List Text). s.heard ++ ys) (without_pongs-split raw texts),
        ap (λ (r : PublicState). r.wire) same ∙ wire ∙ append-nil s.wire,
      )
