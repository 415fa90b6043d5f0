-- ===== src/WebSocket/Reading.antt =====
-- What `Read` of src/common/websocket.hpp gives of the frames that a server sends.
use crypto_trading_system.Prelude.{
  ◌≡◌, refl, ap, ap₂, ◌∙◌, ℕ, zero, suc, ◌%◌, ◌^◌, ◌<◌, List, [], ◌∷◌, ◌++◌, true, false, some,
  length, drop, All, arith, ltb, leb, nat_eqb, Bool, if◌then◌else◌, append_assoc, Bool-cases, inl,
  inr,
}
use crypto_trading_system.WebSocket.{
  length_bytes, with_high_bit, send_frame, after_answer, read_payload_length, read_payload,
  read_frame, read, first_key, Frame, Ending, hold_payload, sized_frame,
}
use crypto_trading_system.WebSocket.Frames.{
  raw_recv-append, held, read_payload_length-small, read_payload_length-2, read_payload_length-8,
}

-- A frame as a server sends it: not fragmented and not masked.
unfoldable pub server_frame : ℕ → List ℕ → List ℕ
server_frame opcode payload =
    let len = length payload in
    with_high_bit opcode
    ∷ (if ltb len 126
        then len ∷ payload
        else if leb len 65_535
        then 126 ∷ (length_bytes 2 len ++ payload)
        else 127 ∷ (length_bytes 8 len ++ payload))

-- A payload that `ReadFrame` can take: its length is an `int`, and a string has room for it.
abbrev pub IsHeld : (ℕ → Bool) → List ℕ → Type 0
IsHeld can_hold payload = (length payload < 2 ^ 31) × (can_hold (length payload) ≡ true)

read_frame-plain :
    (can_hold : ℕ → Bool) (opcode b : ℕ) (ext payload rest : List ℕ)
    → opcode < 16
    → b < 128
    → ((tail : List ℕ) → read_payload_length b (ext ++ tail) ≡ some (length payload, tail))
    → IsHeld can_hold payload
    → read_frame can_hold (with_high_bit opcode ∷ b ∷ (ext ++ (payload ++ rest)))
      ≡ Frame.frame payload opcode rest
unfolding read_frame read_payload
read_frame-plain can_hold opcode b ext payload rest o plain len (small, holds) =
    let tail = payload ++ rest in
    let code : with_high_bit opcode % 16 ≡ opcode = ground arith in
    let same : b % 128 ≡ b = omega arith in
    let bare : leb 128 b ≡ false = ground arith in
    ap (sized_frame can_hold (with_high_bit opcode % 16) (leb 128 b))
      (ap (λ n. read_payload_length n (ext ++ tail)) same ∙ len tail)
    ∙ ap₂ (λ c m. read_payload can_hold c m (length payload) tail) code bare
    ∙ ap (hold_payload can_hold opcode (length payload))
        (raw_recv-append payload rest (length payload) refl small)
    ∙ held can_hold opcode (length payload) (some (payload, rest)) holds

pub read_frame-server_frame :
    (can_hold : ℕ → Bool) (payload rest : List ℕ) (opcode : ℕ)
    → opcode < 16
    → IsHeld can_hold payload
    → read_frame can_hold (server_frame opcode payload ++ rest) ≡ Frame.frame payload opcode rest
unfolding server_frame
read_frame-server_frame can_hold payload rest opcode o l =
    let len = length payload in
    let plain = read_frame-plain can_hold opcode in
    elim (Bool-cases (ltb len 126)) [
      | inl small ↦ rw small (
          plain len [] payload rest o (ground arith)
            (λ tail. read_payload_length-small len tail small) l)
      | inr more ↦ elim (Bool-cases (leb len 65_535)) [
        | inl medium ↦
            rw (more, medium, append_assoc)
              (plain 126 (length_bytes 2 len) payload rest o (omega arith)
                (λ tail. read_payload_length-2 len tail medium) l)
        | inr large ↦
            rw (more, large, append_assoc)
              (plain 127 (length_bytes 8 len) payload rest o (omega arith)
                (λ tail. read_payload_length-8 len tail (omega (arith, l.0))) l)
      ]
    ]

-- The bytes that answer pings, each with a mask of its own.
abbrev pub pongs : List (List ℕ) → List (List ℕ) → List ℕ
pongs mask_keys [] = []
pongs mask_keys (ping ∷ pings) =
    send_frame (first_key mask_keys) 10 ping ++ pongs (drop 1 mask_keys) pings

abbrev pub ping_frames : List (List ℕ) → List ℕ
ping_frames [] = []
ping_frames (ping ∷ pings) = server_frame 9 ping ++ ping_frames pings

pub read-frame :
    (can_hold : ℕ → Bool) (fuel : ℕ) (mask_keys : List (List ℕ)) (stream payload rest : List ℕ)
    (opcode : ℕ)
    → read_frame can_hold stream ≡ Frame.frame payload opcode rest
    → read can_hold (suc fuel) mask_keys stream ≡ (
        if nat_eqb opcode 9
        then after_answer
            (send_frame (first_key mask_keys) 10 payload)
            (read can_hold fuel (drop 1 mask_keys) rest)
        else if nat_eqb opcode 8
        then some (Ending.refused [])
        else some (Ending.returned payload [] rest))
unfolding read
read-frame can_hold fuel mask_keys stream payload rest opcode h = ground (arith, h)

-- Behind any number of pings, a frame of the server that is neither a ping nor a close, thus also a
-- pong, is what `Read` gives, and nothing behind it is read; each ping is answered by a pong with the
-- payload of the ping, in order. One round more than there are pings is enough. Every payload has
-- fewer than 2^31 bytes and a string has room for it.
pub read-pings :
    (can_hold : ℕ → Bool) (fuel : ℕ) (mask_keys pings : List (List ℕ)) (payload rest : List ℕ)
    (opcode : ℕ)
    → length pings < fuel
    → All (IsHeld can_hold) pings
    → IsHeld can_hold payload
    → opcode < 16
    → nat_eqb opcode 9 ≡ false
    → nat_eqb opcode 8 ≡ false
    → read can_hold fuel mask_keys (ping_frames pings ++ (server_frame opcode payload ++ rest))
      ≡ some (Ending.returned payload (pongs mask_keys pings) rest)
read-pings can_hold zero mask_keys pings payload rest opcode f short l o ping close =
    absurd (omega arith)
read-pings can_hold (suc fuel) mask_keys [] payload rest opcode f short l o ping close =
    read-frame can_hold fuel mask_keys (server_frame opcode payload ++ rest) payload rest opcode
      (read_frame-server_frame can_hold payload rest opcode o l)
    ∙ ground (arith, ping, close)
read-pings can_hold (suc fuel) mask_keys (ping ∷ pings) payload rest opcode f short l o other
      close =
    let tail = ping_frames pings ++ (server_frame opcode payload ++ rest) in
    let answer = send_frame (first_key mask_keys) 10 ping in
    ap (read can_hold (suc fuel) mask_keys)
      (append_assoc (server_frame 9 ping) (ping_frames pings) (server_frame opcode payload ++ rest))
    ∙ read-frame can_hold fuel mask_keys (server_frame 9 ping ++ tail) ping tail 9
        (read_frame-server_frame can_hold ping tail 9 (omega arith) short.0)
    ∙ ap (after_answer answer) (
        read-pings can_hold fuel (drop 1 mask_keys) pings payload rest opcode (omega arith) short.1
          l o other close)
