-- ===== src/Exchange/Subscribed.antt =====
-- What the public loop of src/clients/exchange_client.cpp has asked for on its connection.
use crypto_trading_system.Prelude.{
  ◌≡◌, refl, sym, ap, subst, ◌∙◌, [], ◌∷◌, ◌++◌, List, map, Bool, true, false, Bool-cases, inl, inr,
  Option, none, some, Text, text_eq, codes, append-nil, append_assoc, ◌==◌, if◌then◌else◌,
}
use crypto_trading_system.Exchange.{
  PendingSub, Phase, Sent, Round, read_round, PublicState, PublicEvent, is_open, subscription,
  subscribe_step, follow, turn_from, open_from, refuse_from, join_from, public_step, run_public,
  started,
}

-- The messages among what is written, without the pings.
abbrev pub messages : List Sent → List Sent
messages [] = []
messages (Sent.ping ∷ sent) = messages sent
messages (message ∷ sent) = message ∷ messages sent

messages-append : (a b : List Sent) → messages (a ++ b) ≡ messages a ++ messages b
messages-append [] b = refl
messages-append (Sent.ping ∷ a) b = messages-append a b
messages-append (Sent.subscribed m ∷ a) b = ap (◌∷◌ (Sent.subscribed m)) (messages-append a b)
messages-append (Sent.login m ∷ a) b = ap (◌∷◌ (Sent.login m)) (messages-append a b)
messages-append (Sent.order m ∷ a) b = ap (◌∷◌ (Sent.order m)) (messages-append a b)

abbrev IsQuiet : Round → Type 0
IsQuiet Round.leave = Unit {0}
IsQuiet (Round.throws raw) = Unit {0}
IsQuiet (Round.go_on ping_pending sent heard) = messages sent ≡ []

-- A round sends nothing but pings.
read_round-IsQuiet :
    (is_fatal : Text → Bool) (ping_pending : Bool) (read : Option Text)
    → IsQuiet (read_round is_fatal ping_pending read)
unfolding read_round
read_round-IsQuiet is_fatal ping_pending none = tt
read_round-IsQuiet is_fatal true (some []) = tt
read_round-IsQuiet is_fatal false (some []) = refl
read_round-IsQuiet is_fatal ping_pending (some (c ∷ raw)) =
    elim (Bool-cases ((c ∷ raw) == codes "pong")) [
      | inl pong ↦ rw pong refl
      | inr other ↦ elim (Bool-cases (is_fatal (c ∷ raw))) [
        | inl fatal ↦ rw (other, fatal) tt
        | inr fine ↦ rw (other, fine) refl
      ]
    ]

abbrev opening : PublicState → PublicState
opening s = record s { phase = Phase.opened; wire = [] }

abbrev stopped : PublicState → PublicState
stopped s = record s { phase = Phase.closed }

module _ (build_subscribe_message : Text → Text → Text) where
  -- Whatever came before, all subscriptions have been sent, in order, and nothing behind them.
  abbrev pub IsSubscribed : PublicState → Type 0
  IsSubscribed s =
      (early : List Sent) × (messages s.wire
        ≡ early ++ map (subscription build_subscribe_message) s.subscriptions)

  abbrev pub InPhase : Phase → PublicState → Type 0
  InPhase (Phase.listening ping_pending) s = IsSubscribed s
  InPhase _ s = Unit {0}

  abbrev Inv : PublicState → Type 0
  Inv s = InPhase s.phase s

  messages-map :
      (subs : List PendingSub)
      → messages (map (subscription build_subscribe_message) subs)
        ≡ map (subscription build_subscribe_message) subs
  messages-map [] = refl
  messages-map ((c, i) ∷ subs) =
      ap (◌∷◌ (subscription build_subscribe_message (c, i))) (messages-map subs)

  map-snoc :
      (subs : List PendingSub) (sub : PendingSub)
      → map (subscription build_subscribe_message) (subs ++ (sub ∷ []))
        ≡ map (subscription build_subscribe_message) subs
          ++ (subscription build_subscribe_message sub ∷ [])
  map-snoc [] sub = refl
  map-snoc (s ∷ subs) sub = ap (◌∷◌ (subscription build_subscribe_message s)) (map-snoc subs sub)

  -- What is sent besides messages changes nothing.
  IsSubscribed-quiet :
      (s : PublicState) (sent : List Sent) (heard : List Text) (phase : Phase)
      → messages sent ≡ []
      → IsSubscribed s
      → IsSubscribed (record s { phase = phase; wire = s.wire ++ sent; heard = s.heard ++ heard })
  IsSubscribed-quiet s sent heard phase quiet (early, told) = (
    early,
    messages-append s.wire sent
        ∙ ap (λ (ys : List Sent). messages s.wire ++ ys) quiet
        ∙ append-nil (messages s.wire)
        ∙ told,
  )

  follow-Inv : (r : Round) (s : PublicState) → IsQuiet r → IsSubscribed s → Inv (follow r s)
  follow-Inv Round.leave s quiet told = tt
  follow-Inv (Round.throws raw) s quiet told = tt
  follow-Inv (Round.go_on ping_pending sent heard) s quiet told =
      IsSubscribed-quiet s sent heard (Phase.listening ping_pending) quiet told

  turn_from-Inv :
      (is_fatal : Text → Bool) (phase : Phase) (read : Option Text) (s : PublicState)
      → s.phase ≡ phase
      → InPhase phase s
      → Inv (turn_from is_fatal phase read s)
  turn_from-Inv is_fatal Phase.closed read s at told = subst (λ p. InPhase p s) (sym at) told
  turn_from-Inv is_fatal Phase.opened read s at told = subst (λ p. InPhase p s) (sym at) told
  turn_from-Inv is_fatal Phase.broken read s at told = subst (λ p. InPhase p s) (sym at) told
  turn_from-Inv is_fatal Phase.ended read s at told = subst (λ p. InPhase p s) (sym at) told
  turn_from-Inv is_fatal (Phase.listening p) read s at told = elim (Bool-cases s.running) [
    | inl runs ↦
        subst (λ b. Inv (if b then follow (read_round is_fatal p read) s else stopped s)) (sym runs)
          (follow-Inv (read_round is_fatal p read) s (read_round-IsQuiet is_fatal p read) told)
    | inr ends ↦
        subst (λ b. Inv (if b then follow (read_round is_fatal p read) s else stopped s)) (sym ends)
          tt
  ]

  open_from-Inv :
      (phase : Phase) (s : PublicState)
      → s.phase ≡ phase
      → InPhase phase s
      → Inv (open_from phase s)
  open_from-Inv Phase.closed s at told = elim (Bool-cases s.running) [
    | inl runs ↦ subst (λ b. Inv (if b then opening s else s)) (sym runs) tt
    | inr ends ↦
        subst (λ b. Inv (if b then opening s else s)) (sym ends)
          (subst (λ p. InPhase p s) (sym at) tt)
  ]
  open_from-Inv Phase.opened s at told = subst (λ p. InPhase p s) (sym at) told
  open_from-Inv Phase.broken s at told = subst (λ p. InPhase p s) (sym at) told
  open_from-Inv Phase.ended s at told = subst (λ p. InPhase p s) (sym at) told
  open_from-Inv (Phase.listening p) s at told = subst (λ p. InPhase p s) (sym at) told

  refuse_from-Inv :
      (phase : Phase) (s : PublicState)
      → s.phase ≡ phase
      → InPhase phase s
      → Inv (refuse_from phase s)
  refuse_from-Inv Phase.opened s at told = tt
  refuse_from-Inv Phase.closed s at told = subst (λ p. InPhase p s) (sym at) told
  refuse_from-Inv Phase.broken s at told = subst (λ p. InPhase p s) (sym at) told
  refuse_from-Inv Phase.ended s at told = subst (λ p. InPhase p s) (sym at) told
  refuse_from-Inv (Phase.listening p) s at told = subst (λ p. InPhase p s) (sym at) told

  join_from-Inv :
      (phase : Phase) (s : PublicState)
      → s.phase ≡ phase
      → InPhase phase s
      → Inv (join_from build_subscribe_message phase s)
  join_from-Inv Phase.opened s at told = (
    messages s.wire,
    messages-append s.wire (map (subscription build_subscribe_message) s.subscriptions)
        ∙ ap (λ (ys : List Sent). messages s.wire ++ ys) (messages-map s.subscriptions),
  )
  join_from-Inv Phase.closed s at told = subst (λ p. InPhase p s) (sym at) told
  join_from-Inv Phase.broken s at told = subst (λ p. InPhase p s) (sym at) told
  join_from-Inv Phase.ended s at told = subst (λ p. InPhase p s) (sym at) told
  join_from-Inv (Phase.listening p) s at told = subst (λ p. InPhase p s) (sym at) told

  subscribe_step-Inv :
      (phase : Phase) (channel instrument : Text) (s : PublicState)
      → s.phase ≡ phase
      → InPhase phase s
      → InPhase phase (subscribe_step build_subscribe_message channel instrument s)
  unfolding subscribe_step
  subscribe_step-Inv Phase.closed channel instrument s at told = tt
  subscribe_step-Inv Phase.opened channel instrument s at told = tt
  subscribe_step-Inv Phase.broken channel instrument s at told = tt
  subscribe_step-Inv Phase.ended channel instrument s at told = tt
  subscribe_step-Inv (Phase.listening p) channel instrument s at (early, told) =
      let sub = subscription build_subscribe_message (channel, instrument) in
      let subs = map (subscription build_subscribe_message) s.subscriptions in
      let written : (subscribe_step build_subscribe_message channel instrument s).wire
          ≡ s.wire ++ (sub ∷ []) =
        ap (λ p. if is_open p then s.wire ++ (sub ∷ []) else s.wire) at in
      (
        early,
        ap messages written
            ∙ messages-append s.wire (sub ∷ [])
            ∙ ap (λ (ys : List Sent). ys ++ (sub ∷ [])) told
            ∙ append_assoc early subs (sub ∷ [])
            ∙ ap (λ (ys : List Sent). early ++ ys)
                (sym (map-snoc s.subscriptions (channel, instrument))),
      )

  stop-Inv :
      (phase : Phase) (s : PublicState)
      → InPhase phase s
      → InPhase phase (record s { running = false })
  stop-Inv Phase.closed s h = tt
  stop-Inv Phase.opened s h = tt
  stop-Inv Phase.broken s h = tt
  stop-Inv Phase.ended s h = tt
  stop-Inv (Phase.listening p) s h = h

  public_step-Inv :
      (is_fatal : Text → Bool) (event : PublicEvent) (s : PublicState)
      → Inv s
      → Inv (public_step build_subscribe_message is_fatal event s)
  unfolding public_step
  public_step-Inv is_fatal (PublicEvent.subscribe channel instrument) s h =
      subscribe_step-Inv s.phase channel instrument s refl h
  public_step-Inv is_fatal PublicEvent.opening s h = open_from-Inv s.phase s refl h
  public_step-Inv is_fatal PublicEvent.refused s h = refuse_from-Inv s.phase s refl h
  public_step-Inv is_fatal PublicEvent.joined s h = join_from-Inv s.phase s refl h
  public_step-Inv is_fatal (PublicEvent.turn read) s h =
      turn_from-Inv is_fatal s.phase read s refl h
  public_step-Inv is_fatal PublicEvent.stop s h = stop-Inv s.phase s h

  run_public-Inv :
      (is_fatal : Text → Bool) (events : List PublicEvent) (s : PublicState)
      → Inv s
      → Inv (run_public build_subscribe_message is_fatal events s)
  unfolding run_public
  run_public-Inv is_fatal [] s h = h
  run_public-Inv is_fatal (event ∷ events) s h =
      run_public-Inv is_fatal events (public_step build_subscribe_message is_fatal event s)
        (public_step-Inv is_fatal event s h)

  -- However calls of `Subscribe`, connections, readings and failures follow one another since the
  -- start: while the loop listens, the connection at hand has been sent a message for every
  -- subscription, in the order in which they were made and with nothing but pings behind them.
  pub run_public-IsSubscribed :
      (is_fatal : Text → Bool) (events : List PublicEvent) (ping_pending : Bool)
      → (run_public build_subscribe_message is_fatal events started).phase
        ≡ Phase.listening ping_pending
      → IsSubscribed (run_public build_subscribe_message is_fatal events started)
  run_public-IsSubscribed is_fatal events ping_pending listens =
      subst (λ p. InPhase p (run_public build_subscribe_message is_fatal events started)) listens
        (run_public-Inv is_fatal events started tt)
