-- ===== src/Exchange.antt =====
-- `ExchangeClient` of src/clients/exchange_client.cpp: the proxy, the subscriptions, and the loops that
-- read, ping and reconnect, as steps on the state that the threads share. What an exchange puts into
-- its messages is virtual there and an argument here, as is what a connection does.
pub mod Private
pub mod Silence
pub mod Subscribed
use crypto_trading_system.Prelude.{
  ℕ, ◌+◌, [], ◌∷◌, ◌++◌, List, map, Bool, true, false, Option, none, some, Text, text_eq, codes,
  is_empty, length, take, drop, ◌==◌, if◌then◌else◌,
}
use crypto_trading_system.Prelude.Search.{index_of}

-- The first of the four variables of the environment that is set.
abbrev pub first_set : Option Text → Option Text → Option Text
first_set (some value) other = some value
first_set none other = other

abbrev pub without_scheme : Text → Text
without_scheme url = elim (index_of (codes "://") url) [
  | none ↦ url
  | some scheme_end ↦ drop (scheme_end + 3) url
]

abbrev pub host_and_port : Text → Text × Text
host_and_port url = elim (index_of (codes ":") url) [
  | none ↦ (url, codes "3128")
  | some colon ↦ (take colon url, drop (colon + 1) url)
]

-- `DetectHttpProxy`: host and port, or `none` for `false`.
unfoldable pub detect_http_proxy : (Text → Option Text) → Option (Text × Text)
unfolding index_of
detect_http_proxy getenv =
    let found = first_set (getenv (codes "https_proxy")) (
      first_set (getenv (codes "HTTPS_PROXY"))
        (first_set (getenv (codes "http_proxy")) (getenv (codes "HTTP_PROXY")))) in
    elim found [ none ↦ none | some url ↦ some (host_and_port (without_scheme url)) ]

-- `PendingSub`: a channel and an instrument. `PrivateSub`: a channel and a type of instrument.
abbrev pub PendingSub : Type 0
PendingSub = Text × Text

-- Where a loop stands with its connection. From `opened` on `IsOpen` holds: in `opened` the connection
-- is still being made, or `Start` has not yet sent the subscriptions; in `broken` the private listener
-- has given the connection up and not yet closed it. In `ended` an exception has left the loop and
-- with it the thread, which ends the process: no event comes behind it.
pub data Phase : Type 0 where
  closed : Phase
  opened : Phase
  listening : Bool → Phase  -- `ping_pending`
  broken : Phase
  ended : Phase

abbrev pub is_open : Phase → Bool
is_open Phase.closed = false
is_open Phase.ended = false
is_open _ = true

-- What is written to a connection.
pub data Sent : Type 0 where
  subscribed : Text → Sent
  ping : Sent
  login : Text → Sent
  order : Text → Sent

-- How a round of the reading loop goes on.
pub data Round : Type 0 where
  leave : Round
  throws : Text → Round  -- the handler throws for the text
  go_on : Bool → List Sent → List Text → Round  -- `ping_pending`, what is sent, what is handed on

-- A round, for what `ReadWithTimeout` gives: `none` is a failure, and the empty text that nothing came
-- in five seconds. The connection is open, so `Send` does not fail. `is_fatal` says for which texts
-- `OnPublicMessage` or `OnPrivateMessage` throws.
unfoldable pub read_round : (Text → Bool) → Bool → Option Text → Round
read_round is_fatal ping_pending none = Round.leave
read_round is_fatal ping_pending (some raw) =
    if is_empty raw
    then (if ping_pending then Round.leave else Round.go_on true (Sent.ping ∷ []) [])
    else if raw == codes "pong"
    then Round.go_on false [] []
    else if is_fatal raw
    then Round.throws raw
    else Round.go_on false [] (raw ∷ [])

-- The public side. `wire` is what has been written to the connection at hand, `heard` what has been
-- handed to `OnPublicMessage`.
pub record PublicState : Type 0 where
  pub running : Bool
  pub phase : Phase
  pub subscriptions : List PendingSub
  pub wire : List Sent
  pub heard : List Text

-- What happens to the public side: a call of `Subscribe`, the steps of `Start`, and `Stop`.
pub data PublicEvent : Type 0 where
  subscribe : Text → Text → PublicEvent
  opening : PublicEvent  -- `Connect` has made its `ssl_`
  refused : PublicEvent  -- `Connect` returns false
  joined : PublicEvent  -- `Connect` has returned true: the locked loop over the subscriptions
  turn : Option Text → PublicEvent  -- a round of the inner loop
  stop : PublicEvent

abbrev pub follow : Round → PublicState → PublicState
follow Round.leave s = record s { phase = Phase.closed }
follow (Round.throws raw) s = record s { phase = Phase.ended; heard = s.heard ++ (raw ∷ []) }
follow (Round.go_on ping_pending sent heard) s = record s {
  phase = Phase.listening ping_pending;
  wire = s.wire ++ sent;
  heard = s.heard ++ heard;
}

-- A round, or the end of the loop where `running_` is no longer set; `Close` follows the loop.
abbrev pub turn_from : (Text → Bool) → Phase → Option Text → PublicState → PublicState
turn_from is_fatal (Phase.listening ping_pending) read s =
    if s.running
    then follow (read_round is_fatal ping_pending read) s
    else record s { phase = Phase.closed }
turn_from is_fatal _ read s = s

abbrev pub open_from : Phase → PublicState → PublicState
open_from Phase.closed s = if s.running then record s { phase = Phase.opened; wire = [] } else s
open_from _ s = s

abbrev pub refuse_from : Phase → PublicState → PublicState
refuse_from Phase.opened s = record s { phase = Phase.closed }
refuse_from _ s = s

module _ (build_subscribe_message : Text → Text → Text) where
  abbrev pub subscription : PendingSub → Sent
  subscription (channel, instrument) = Sent.subscribed (build_subscribe_message channel instrument)

  unfoldable pub subscribe_step : Text → Text → PublicState → PublicState
  subscribe_step channel instrument s = record s {
    subscriptions = s.subscriptions ++ ((channel, instrument) ∷ []);
    wire = if is_open s.phase then s.wire ++ (subscription (channel, instrument) ∷ []) else s.wire;
  }

  abbrev pub join_from : Phase → PublicState → PublicState
  join_from Phase.opened s = record s {
    phase = Phase.listening false;
    wire = s.wire ++ map subscription s.subscriptions;
  }
  join_from _ s = s

module _ (build_subscribe_message : Text → Text → Text) (is_fatal : Text → Bool) where
  -- A step that the loop is not at changes nothing.
  unfoldable pub public_step : PublicEvent → PublicState → PublicState
  unfolding subscribe_step read_round
  public_step (PublicEvent.subscribe channel instrument) s =
      subscribe_step build_subscribe_message channel instrument s
  public_step PublicEvent.opening s = open_from s.phase s
  public_step PublicEvent.refused s = refuse_from s.phase s
  public_step PublicEvent.joined s = join_from build_subscribe_message s.phase s
  public_step (PublicEvent.turn read) s = turn_from is_fatal s.phase read s
  public_step PublicEvent.stop s = record s { running = false }

  unfoldable pub run_public : List PublicEvent → PublicState → PublicState
  unfolding public_step
  run_public [] s = s
  run_public (event ∷ events) s = run_public events (public_step event s)

-- As `Start` finds it.
abbrev pub started : PublicState
started = record { running = true; phase = Phase.closed; subscriptions = []; wire = []; heard = [] }
