-- ===== src/Base64.antt =====
-- `WsClient::Base64Encode` of src/common/websocket.hpp, on a list of bytes.
pub mod Decoded
use crypto_trading_system.Prelude.{ℕ, ◌+◌, ◌*◌, ◌/◌, ◌%◌, List, [], ◌∷◌, Text, codes, get_or}

-- `table`
abbrev pub table : Text
table = codes "ABCDEFGHIJKLMNOPQRSTUVWXYZabcdefghijklmnopqrstuvwxyz0123456789+/"

-- `table[n & 0x3F]`
unfoldable pub digit : ℕ → ℕ
digit n = get_or table (n % 64) 0

-- One round of the loop takes three bytes, or the one or two that are left.
unfoldable pub base64_encode : List ℕ → Text
base64_encode [] = []
base64_encode (a ∷ []) =
    let block = a * 65_536 in digit (block / 262_144) ∷ digit (block / 4_096) ∷ b'=' ∷ b'=' ∷ []
base64_encode (a ∷ b ∷ []) =
    let block = a * 65_536 + b * 256 in
    digit (block / 262_144) ∷ digit (block / 4_096) ∷ digit (block / 64) ∷ b'=' ∷ []
base64_encode (a ∷ b ∷ c ∷ bytes) =
    let block = a * 65_536 + b * 256 + c in
    digit (block / 262_144)
    ∷ digit (block / 4_096)
    ∷ digit (block / 64)
    ∷ digit block
    ∷ base64_encode bytes
