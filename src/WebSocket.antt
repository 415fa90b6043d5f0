-- ===== src/WebSocket.antt =====
-- The frames of `WsClient` in src/common/websocket.hpp: `SendFrame` and `ReadFrame`. A byte is a number
-- below 256. The stream of an open connection is the list of the bytes still to come, which ends where
-- the connection does; the bytes of `RAND_bytes` are an argument, and so is `can_hold`: for which sizes
-- `resize` finds room, where it throws `std::length_error` or `std::bad_alloc` otherwise. `SSL_read` and
-- `SSL_write` fail when they are asked for no bytes or for a negative number of them.
pub mod Bytes
pub mod Endings
pub mod Frames
pub mod Handshake
pub mod Reading
use crypto_trading_system.Prelude.{
  ℕ, zero, suc, ◌+◌, ◌-◌, ◌*◌, ◌/◌, ◌%◌, ◌^◌, List, [], ◌∷◌, ◌++◌, Bool, true, false, ◌&&◌, Option,
  none, some, Text, ltb, leb, nat_eqb, length, get_or, take, drop, bind, if◌then◌else◌,
}

-- `a ^ b` on the low bits.
unfoldable pub xor : ℕ → ℕ → ℕ → ℕ
xor zero a b = 0
xor (suc bits) a b = (a + b) % 2 + 2 * xor bits (a / 2) (b / 2)

-- `0x80 | b` for a byte.
abbrev pub with_high_bit : ℕ → ℕ
with_high_bit b = if ltb b 128 then 128 + b else b

-- The loop that masks, which is also the one that unmasks; `index & 3` is the remainder by 4.
unfoldable pub mask : List ℕ → ℕ → List ℕ → List ℕ
unfolding xor
mask key index [] = []
mask key index (b ∷ payload) = xor 8 b (get_or key (index % 4) 0) ∷ mask key (suc index) payload

-- The `count` low bytes of a number, the highest first: `(len >> (shift * 8)) & 0xFF`.
unfoldable pub length_bytes : ℕ → ℕ → List ℕ
length_bytes zero n = []
length_bytes (suc count) n = (n / 256 ^ count) % 256 ∷ length_bytes count n

-- The header of a frame that is not fragmented, before its mask.
unfoldable pub frame_header : ℕ → ℕ → List ℕ
unfolding length_bytes
frame_header opcode len =
    with_high_bit opcode
    ∷ (if ltb len 126
        then with_high_bit len ∷ []
        else if leb len 65_535
        then with_high_bit 126 ∷ length_bytes 2 len
        else with_high_bit 127 ∷ length_bytes 8 len)

-- `RawSend`: what is written before it returns. Its length is cut to an `int`: from 2^31 bytes on the low
-- 32 bits say how many are written at first, if they are not negative; what is left is then a multiple
-- of 2^32, which asks for no bytes.
unfoldable pub raw_send : List ℕ → List ℕ
raw_send bytes =
    if ltb (length bytes) (2 ^ 31)
    then bytes
    else if ltb (length bytes % 2 ^ 32) (2 ^ 31)
    then take (length bytes % 2 ^ 32) bytes
    else []

-- The bytes that `SendFrame` writes; the results of `RawSend` are not looked at.
unfoldable pub send_frame : List ℕ → ℕ → List ℕ → List ℕ
unfolding frame_header mask raw_send
send_frame mask_key opcode payload =
    raw_send (frame_header opcode (length payload) ++ mask_key)
    ++ raw_send (mask mask_key 0 payload)

-- `RawRecv`: all the bytes asked for, or a failure where the stream ends before. From 2^31 bytes on it
-- fails in any case, since its length is cut to an `int` as that of `RawSend`.
unfoldable pub raw_recv : ℕ → List ℕ → Option (List ℕ × List ℕ)
raw_recv len stream =
    if ltb len (2 ^ 31) && leb len (length stream)
    then some (take len stream, drop len stream)
    else none

-- How `ReadFrame` ends: it returns false, `resize` throws, or it returns a frame with its payload, its
-- opcode and the stream behind it.
pub data Frame : Type 0 where
  broken : Frame
  thrown : Frame
  frame : List ℕ → ℕ → List ℕ → Frame

abbrev pub frame_of : ℕ → Option (List ℕ × List ℕ) → Frame
frame_of opcode none = Frame.broken
frame_of opcode (some (payload, rest)) = Frame.frame payload opcode rest

-- `payload_len = (payload_len << 8) | ext[idx]`, in 64 bits.
unfoldable pub read_length : ℕ → List ℕ → ℕ
read_length acc [] = acc
read_length acc (b ∷ ext) = read_length ((acc * 256) % 2 ^ 64 + b) ext

-- The length that the low seven bits stand for, and the stream behind it.
unfoldable pub read_payload_length : ℕ → List ℕ → Option (ℕ × List ℕ)
unfolding raw_recv read_length
read_payload_length len stream =
    if nat_eqb len 126
    then bind (raw_recv 2 stream) (λ x. some (read_length 0 x.0, x.1))
    else if nat_eqb len 127
    then bind (raw_recv 8 stream) (λ x. some (read_length 0 x.0, x.1))
    else some (len, stream)

-- The payload, for a frame with and without a mask.
abbrev pub unmasked : List ℕ → Option (List ℕ × List ℕ) → Option (List ℕ × List ℕ)
unmasked key none = none
unmasked key (some (payload, rest)) = some (mask key 0 payload, rest)

unfoldable pub hold_payload : (ℕ → Bool) → ℕ → ℕ → Option (List ℕ × List ℕ) → Frame
hold_payload can_hold opcode len payload =
    if can_hold len then frame_of opcode payload else Frame.thrown

abbrev pub keyed_payload : (ℕ → Bool) → ℕ → ℕ → Option (List ℕ × List ℕ) → Frame
keyed_payload can_hold opcode len none = Frame.broken
keyed_payload can_hold opcode len (some (key, rest)) =
    hold_payload can_hold opcode len (unmasked key (raw_recv len rest))

-- The rest of `ReadFrame`: the mask's key is read before the payload finds its room.
unfoldable pub read_payload : (ℕ → Bool) → ℕ → Bool → ℕ → List ℕ → Frame
unfolding raw_recv mask hold_payload
read_payload can_hold opcode false len stream =
    hold_payload can_hold opcode len (raw_recv len stream)
read_payload can_hold opcode true len stream = keyed_payload can_hold opcode len (raw_recv 4 stream)

abbrev pub sized_frame : (ℕ → Bool) → ℕ → Bool → Option (ℕ × List ℕ) → Frame
sized_frame can_hold opcode masked none = Frame.broken
sized_frame can_hold opcode masked (some (len, rest)) = read_payload can_hold opcode masked len rest

-- `ReadFrame`
unfoldable pub read_frame : (ℕ → Bool) → List ℕ → Frame
unfolding read_payload_length read_payload
read_frame can_hold [] = Frame.broken
read_frame can_hold (a ∷ []) = Frame.broken
read_frame can_hold (a ∷ b ∷ stream) =
    sized_frame can_hold (a % 16) (leb 128 b) (read_payload_length (b % 128) stream)

abbrev pub first_key : List (List ℕ) → List ℕ
first_key [] = []
first_key (key ∷ mask_keys) = key

-- How `Read` ends: it returns true with a text or false, or an exception leaves it; with what it has
-- sent, and the stream that is left where it returns.
pub data Ending : Type 0 where
  returned : List ℕ → List ℕ → List ℕ → Ending  -- the text, what was sent, the stream
  refused : List ℕ → Ending
  thrown : List ℕ → Ending

abbrev pub after_answer : List ℕ → Option Ending → Option Ending
after_answer answer none = none
after_answer answer (some (Ending.returned text sent rest)) =
    some (Ending.returned text (answer ++ sent) rest)
after_answer answer (some (Ending.refused sent)) = some (Ending.refused (answer ++ sent))
after_answer answer (some (Ending.thrown sent)) = some (Ending.thrown (answer ++ sent))

-- `Read` on an open connection. Each answer to a ping takes the next mask. `none` means that the fuel
-- ran out.
unfoldable pub read : (ℕ → Bool) → ℕ → List (List ℕ) → List ℕ → Option Ending
read can_hold zero mask_keys stream = none
read can_hold (suc fuel) mask_keys stream = elim (read_frame can_hold stream) [
  | Frame.broken ↦ some (Ending.refused [])
  | Frame.thrown ↦ some (Ending.thrown [])
  | Frame.frame payload opcode rest ↦
      let answer = send_frame (first_key mask_keys) 10 payload in
      let later = after_answer answer (read can_hold fuel (drop 1 mask_keys) rest) in
      if nat_eqb opcode 9
      then later
      else if nat_eqb opcode 8
      then some (Ending.refused [])
      else some (Ending.returned payload [] rest)
]
