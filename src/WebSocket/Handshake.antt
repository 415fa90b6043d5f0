-- ===== src/WebSocket/Handshake.antt =====
-- How `WsClient` of src/common/websocket.hpp makes a connection: `ProxyConnect`, `WsHandshake`,
-- `Connect` and `ReadWithTimeout`. What the system calls give is an argument: a list of the blocks that
-- are received, which ends where receiving fails.
use crypto_trading_system.Prelude.{
  [], ◌∷◌, ◌++◌, List, Bool, true, false, ◌&&◌, Option, none, some, Text, codes, if◌then◌else◌,
}
use crypto_trading_system.Prelude.Search.{mentions}

-- The loop that receives up to the end of the headers: the whole of what came, and the blocks behind.
unfoldable pub receive_head : Text → List Text → Option (Text × List Text)
unfolding mentions
receive_head response [] = none
receive_head response (block ∷ blocks) =
    let later = receive_head (response ++ block) blocks in
    if mentions (codes "\r\n\r\n") (response ++ block)
    then some (response ++ block, blocks)
    else later

-- The text of `CONNECT`, and whether the proxy's answer lets the connection through.
unfoldable pub proxy_request : Text → Text → Text
proxy_request target_host target_port =
    codes "CONNECT "
    ++ target_host
    ++ codes ":"
    ++ target_port
    ++ codes " HTTP/1.1\r\nHost: "
    ++ target_host
    ++ codes ":"
    ++ target_port
    ++ codes "\r\n\r\n"

-- What is left of the blocks behind an answer that holds the code.
abbrev pub accepted : Text → Option (Text × List Text) → Option (List Text)
accepted code none = none
accepted code (some (response, blocks)) = if mentions code response then some blocks else none

unfoldable pub proxy_connect : List Text → Option (List Text)
unfolding receive_head mentions
proxy_connect blocks = accepted (codes "200") (receive_head [] blocks)

-- The request for the upgrade, with the key that `GenerateSecKey` makes.
unfoldable pub upgrade_request : Text → Text → Text → Text → Text
upgrade_request key host port path =
    codes "GET "
    ++ path
    ++ codes " HTTP/1.1\r\nHost: "
    ++ host
    ++ codes ":"
    ++ port
    ++ codes "\r\nUpgrade: websocket\r\nConnection: Upgrade\r\nSec-WebSocket-Key: "
    ++ key
    ++ codes "\r\nSec-WebSocket-Version: 13\r\n\r\n"

-- `WsHandshake` after its request; what came in the same block behind the headers is not kept.
unfoldable pub ws_handshake : List Text → Option (List Text)
unfolding receive_head mentions
ws_handshake blocks = accepted (codes "101") (receive_head [] blocks)

-- What a `WsClient` holds.
pub record WsClient : Type 0 where
  pub has_fd : Bool
  pub has_ssl : Bool

-- `Connect`: whether the socket (`none` where the name is not found), the way through the proxy, TLS
-- and the upgrade came about. Only the last two failures close what is open.
unfoldable pub ws_connect : Option Bool → Bool → Bool → Bool → WsClient → WsClient × Bool
ws_connect none proxy tls upgrade w = (w, false)
ws_connect (some false) proxy tls upgrade w = (record w { has_fd = false }, false)
ws_connect (some true) false tls upgrade w = (record w { has_fd = true }, false)
ws_connect (some true) true false upgrade w = (record { has_fd = false; has_ssl = false }, false)
ws_connect (some true) true true false w = (record { has_fd = false; has_ssl = false }, false)
ws_connect (some true) true true true w = (record { has_fd = true; has_ssl = true }, true)

-- `Send`
unfoldable pub ws_send : WsClient → (Text → Text) → Text → Option Text
ws_send w frame payload = if w.has_ssl then some (frame payload) else none

-- What `SSL_pending` and `select` find.
pub data Waiting : Type 0 where
  failed : Waiting
  nothing : Waiting
  something : Waiting

-- `ReadWithTimeout`, for `Read`: `none` is `false`, and after a timeout the text is empty.
unfoldable pub read_with_timeout : WsClient → Waiting → Option Text → Option Text
read_with_timeout w Waiting.failed text = none
read_with_timeout w Waiting.nothing text = if w.has_fd && w.has_ssl then some [] else none
read_with_timeout w Waiting.something text = if w.has_fd && w.has_ssl then text else none
