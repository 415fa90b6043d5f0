-- ===== src/Exchange/Private.antt =====
-- The private side of `ExchangeClient` in src/clients/exchange_client.cpp: the login, the reconnection,
-- the subscriptions and orders, and the reading loop, as steps.
use crypto_trading_system.Prelude.{
  [], ◌∷◌, ◌++◌, List, map, Bool, true, false, Option, Text, if◌then◌else◌,
}
use crypto_trading_system.Exchange.{Phase, Sent, Round, is_open, read_round}

pub record PrivateState : Type 0 where
  pub running : Bool
  pub phase : Phase
  pub private_subscriptions : List (Text × Text)
  pub wire : List Sent
  pub heard : List Text

-- What the exchange's own client puts into its messages and reads in an answer to a login.
pub record Messages : Type 0 where
  pub build_private_subscribe_message : Text → Text → Text
  pub build_login_message : Text
  pub parse_login_response : Text → Bool

-- A connection that is tried: `Connect` fails, `Read` fails after the login, or it gives an answer.
pub data Attempt : Type 0 where
  no_connection : Attempt
  no_answer : Attempt
  answered : Text → Attempt

module _ (m : Messages) where
  abbrev pub private_subscription : Text × Text → Sent
  private_subscription (channel, inst_type) =
      Sent.subscribed (m.build_private_subscribe_message channel inst_type)

  -- `LoginPrivate` up to its end, for the answer to the login; `false` is its exception, and leaves the
  -- connection open.
  unfoldable pub login_private : Attempt → PrivateState → PrivateState × Bool
  login_private Attempt.no_connection s = (record s { running = true }, false)
  login_private Attempt.no_answer s = (
    record s { running = true; phase = Phase.broken; wire = Sent.login m.build_login_message ∷ [] },
    false,
  )
  login_private (Attempt.answered response) s = (
    record s {
      running = true;
      phase = Phase.listening false;
      wire = Sent.login m.build_login_message ∷ [];
    },
    m.parse_login_response response,
  )

  -- `ReconnectPrivate`, which holds the lock throughout.
  unfoldable pub reconnect_private : Attempt → PrivateState → PrivateState × Bool
  reconnect_private (Attempt.answered response) s =
      if m.parse_login_response response
      then (
        record s {
          phase = Phase.listening false;
          wire =
              Sent.login m.build_login_message ∷ map private_subscription s.private_subscriptions;
        },
        true,
      )
      else (record s { phase = Phase.closed; wire = [] }, false)
  reconnect_private _ s = (record s { phase = Phase.closed; wire = [] }, false)

-- `SendToPrivate`: what cannot be sent is dropped.
unfoldable pub send_to_private : Sent → PrivateState → PrivateState
send_to_private message s =
    if is_open s.phase then record s { wire = s.wire ++ (message ∷ []) } else s

-- A round of `StartPrivateListener`; it leaves the connection to `ReconnectPrivate`.
abbrev pub follow_private : Round → PrivateState → PrivateState
follow_private Round.leave s = record s { phase = Phase.broken }
follow_private (Round.throws raw) s = record s {
  phase = Phase.ended;
  heard = s.heard ++ (raw ∷ []);
}
follow_private (Round.go_on ping_pending sent heard) s = record s {
  phase = Phase.listening ping_pending;
  wire = s.wire ++ sent;
  heard = s.heard ++ heard;
}

-- `ReadWithTimeout` fails on a connection that is closed.
abbrev pub private_turn_from : (Text → Bool) → Phase → Option Text → PrivateState → PrivateState
private_turn_from is_fatal (Phase.listening ping_pending) read s =
    follow_private (read_round is_fatal ping_pending read) s
private_turn_from is_fatal phase read s = s

-- What happens to the private side. `SubscribePrivateChannel` takes the lock twice, so that its two
-- parts are events of their own; `send` is also `SendPlaceOrder` and `SendCancelOrder`.
pub data PrivateEvent : Type 0 where
  register : Text → Text → PrivateEvent
  send : Sent → PrivateEvent
  turn : Option Text → PrivateEvent
  reconnect : Attempt → PrivateEvent
  stop : PrivateEvent

-- The listener reconnects where it has given a connection up, or a reconnection has failed.
abbrev pub reconnect_from : Messages → Phase → Attempt → PrivateState → PrivateState
reconnect_from m (Phase.listening ping_pending) attempt s = s
reconnect_from m Phase.ended attempt s = s
reconnect_from m _ attempt s = if s.running then (reconnect_private m attempt s).0 else s

unfoldable pub private_step : Messages → (Text → Bool) → PrivateEvent → PrivateState → PrivateState
unfolding reconnect_private send_to_private read_round
private_step m is_fatal (PrivateEvent.register channel inst_type) s = record s {
  private_subscriptions = s.private_subscriptions ++ ((channel, inst_type) ∷ []);
}
private_step m is_fatal (PrivateEvent.send message) s = send_to_private message s
private_step m is_fatal (PrivateEvent.turn read) s =
    if s.running then private_turn_from is_fatal s.phase read s else s
private_step m is_fatal (PrivateEvent.reconnect attempt) s = reconnect_from m s.phase attempt s
private_step m is_fatal PrivateEvent.stop s = record s { running = false }
