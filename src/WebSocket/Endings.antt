-- ===== src/WebSocket/Endings.antt =====
-- When `Read` of src/common/websocket.hpp ends.
use crypto_trading_system.Prelude.{
  ◌≡◌, refl, ap, ◌∙◌, ◌⊎◌, ◌&&◌, ℕ, zero, suc, ◌+◌, ◌%◌, ◌^◌, ◌<◌, ◌≤◌, List, [], ◌∷◌, true, false,
  Option, none, some, length, take, drop, arith, ltb, leb, nat_eqb, bind, bind-some, Bool, is_some,
  if◌then◌else◌, Bool-cases, inl, inr,
}
use crypto_trading_system.WebSocket.{
  send_frame, read_length, after_answer, raw_recv, read_payload_length, read_payload, read_frame,
  read, first_key, Frame, Ending, frame_of, hold_payload, unmasked, keyed_payload, sized_frame,
}
use crypto_trading_system.WebSocket.Reading.{read-frame}

length-drop-le : (n : ℕ) (xs : List ℕ) → length (drop n xs) ≤ length xs
length-drop-le zero xs = omega arith
length-drop-le (suc n) [] = omega arith
length-drop-le (suc n) (x ∷ xs) = omega (arith, length-drop-le n xs)

raw_recv-le :
    (len : ℕ) (stream : List ℕ) (x : List ℕ × List ℕ)
    → raw_recv len stream ≡ some x
    → length x.1 ≤ length stream
unfolding raw_recv
raw_recv-le len stream x h = elim (Bool-cases (ltb len (2 ^ 31) && leb len (length stream))) [
  | inl there ↦
      let same : (take len stream, drop len stream) ≡ x = ground arith in
      omega (arith, length-drop-le len stream, ap (λ (y : List ℕ × List ℕ). length y.1) same)
  | inr short ↦ absurd (ground arith)
]

read_ext-le :
    (count : ℕ) (stream : List ℕ) (x : ℕ × List ℕ)
    → bind (raw_recv count stream) (λ y. some (read_length 0 y.0, y.1)) ≡ some x
    → length x.1 ≤ length stream
read_ext-le count stream x h =
    let (y, taken, e) =
      bind-some (raw_recv count stream) (λ y. some (read_length 0 y.0, y.1)) x h in
    let same : (read_length 0 y.0, y.1) ≡ x = ground arith in
    omega (arith, raw_recv-le count stream y taken, ap (λ (p : ℕ × List ℕ). length p.1) same)

read_payload_length-le :
    (len : ℕ) (stream : List ℕ) (x : ℕ × List ℕ)
    → read_payload_length len stream ≡ some x
    → length x.1 ≤ length stream
unfolding read_payload_length
read_payload_length-le len stream x h = elim (Bool-cases (nat_eqb len 126)) [
  | inl two ↦ read_ext-le 2 stream x (rw two at h)
  | inr other ↦ elim (Bool-cases (nat_eqb len 127)) [
    | inl eight ↦ read_ext-le 8 stream x (rw (other, eight) at h)
    | inr none_more ↦
        let same : (len, stream) ≡ x = ground arith in
        omega (arith, ap (λ (p : ℕ × List ℕ). length p.1) same)
  ]
]

frame_of-inv :
    (opcode : ℕ) (o : Option (List ℕ × List ℕ)) (payload : List ℕ) (opcode' : ℕ) (rest : List ℕ)
    → frame_of opcode o ≡ Frame.frame payload opcode' rest
    → o ≡ some (payload, rest)
frame_of-inv opcode none payload opcode' rest h = cc
frame_of-inv opcode (some (p, r)) payload opcode' rest h = ground arith

hold_payload-inv :
    (can_hold : ℕ → Bool) (opcode len : ℕ) (o : Option (List ℕ × List ℕ)) (payload : List ℕ)
    (opcode' : ℕ) (rest : List ℕ)
    → hold_payload can_hold opcode len o ≡ Frame.frame payload opcode' rest
    → o ≡ some (payload, rest)
unfolding hold_payload
hold_payload-inv can_hold opcode len o payload opcode' rest h = elim (Bool-cases (can_hold len)) [
  | inl holds ↦ frame_of-inv opcode o payload opcode' rest (rw holds at h)
  | inr full ↦ let fails : Frame.thrown ≡ Frame.frame payload opcode' rest = rw full at h in cc
]

unmasked-inv :
    (key : List ℕ) (o : Option (List ℕ × List ℕ)) (payload rest : List ℕ)
    → unmasked key o ≡ some (payload, rest)
    → (p : List ℕ) × (o ≡ some (p, rest))
unmasked-inv key none payload rest h = cc
unmasked-inv key (some (p, r)) payload rest h = (p, ground arith)

keyed_payload-le :
    (can_hold : ℕ → Bool) (opcode len : ℕ) (o : Option (List ℕ × List ℕ)) (stream payload : List ℕ)
    (opcode' : ℕ) (rest : List ℕ)
    → ((x : List ℕ × List ℕ) → o ≡ some x → length x.1 ≤ length stream)
    → keyed_payload can_hold opcode len o ≡ Frame.frame payload opcode' rest
    → length rest ≤ length stream
keyed_payload-le can_hold opcode len none stream payload opcode' rest le h = cc
keyed_payload-le can_hold opcode len (some (key, tail)) stream payload opcode' rest le h =
    let taken =
      hold_payload-inv can_hold opcode len (unmasked key (raw_recv len tail)) payload opcode' rest
        h in
    let (p, got) = unmasked-inv key (raw_recv len tail) payload rest taken in
    omega (arith, le (key, tail) refl, raw_recv-le len tail (p, rest) got)

read_payload-le :
    (can_hold : ℕ → Bool) (opcode : ℕ) (masked : Bool) (len : ℕ) (stream payload : List ℕ)
    (opcode' : ℕ) (rest : List ℕ)
    → read_payload can_hold opcode masked len stream ≡ Frame.frame payload opcode' rest
    → length rest ≤ length stream
unfolding read_payload
read_payload-le can_hold opcode false len stream payload opcode' rest h =
    raw_recv-le len stream (payload, rest)
      (hold_payload-inv can_hold opcode len (raw_recv len stream) payload opcode' rest h)
read_payload-le can_hold opcode true len stream payload opcode' rest h =
    keyed_payload-le can_hold opcode len (raw_recv 4 stream) stream payload opcode' rest
      (raw_recv-le 4 stream) h

sized_frame-le :
    (can_hold : ℕ → Bool) (opcode : ℕ) (masked : Bool) (o : Option (ℕ × List ℕ))
    (stream payload : List ℕ) (opcode' : ℕ) (rest : List ℕ)
    → ((x : ℕ × List ℕ) → o ≡ some x → length x.1 ≤ length stream)
    → sized_frame can_hold opcode masked o ≡ Frame.frame payload opcode' rest
    → length rest ≤ length stream
sized_frame-le can_hold opcode masked none stream payload opcode' rest le h = cc
sized_frame-le can_hold opcode masked (some (len, tail)) stream payload opcode' rest le h = omega (
  arith,
  le (len, tail) refl,
  read_payload-le can_hold opcode masked len tail payload opcode' rest h,
)

-- A frame takes two bytes of the stream at least.
read_frame-shorter :
    (can_hold : ℕ → Bool) (stream payload rest : List ℕ) (opcode : ℕ)
    → read_frame can_hold stream ≡ Frame.frame payload opcode rest
    → length rest + 2 ≤ length stream
unfolding read_frame
read_frame-shorter can_hold [] payload rest opcode h = cc
read_frame-shorter can_hold (a ∷ []) payload rest opcode h = cc
read_frame-shorter can_hold (a ∷ b ∷ stream) payload rest opcode h =
    let shorter =
      sized_frame-le can_hold (a % 16) (leb 128 b) (read_payload_length (b % 128) stream) stream
        payload opcode rest (read_payload_length-le (b % 128) stream) h in
    omega (arith, shorter)

is_some-answered :
    (answer : List ℕ) (later : Option Ending)
    → is_some later ≡ true
    → is_some (after_answer answer later) ≡ true
is_some-answered answer none h = cc
is_some-answered answer (some (Ending.returned text sent rest)) h = refl
is_some-answered answer (some (Ending.refused sent)) h = refl
is_some-answered answer (some (Ending.thrown sent)) h = refl

is_some-round :
    (is_ping is_close : Bool) (payload rest : List ℕ) (later : Option Ending)
    → is_some later ≡ true
    → is_some (
        if is_ping
        then later
        else if is_close
        then some (Ending.refused [])
        else some (Ending.returned payload [] rest))
      ≡ true
is_some-round true is_close payload rest later h = h
is_some-round false true payload rest later h = refl
is_some-round false false payload rest later h = refl

Frame-cases :
    (f : Frame)
    → ((f ≡ Frame.broken) ⊎ (f ≡ Frame.thrown))
      ⊎ ((payload : List ℕ) × (opcode : ℕ) × (rest : List ℕ) × (f
            ≡ Frame.frame payload opcode rest))
Frame-cases Frame.broken = inl (inl refl)
Frame-cases Frame.thrown = inl (inr refl)
Frame-cases (Frame.frame payload opcode rest) = inr (payload, opcode, rest, refl)

-- On a stream of any bytes, and whichever sizes a string has room for, `Read` comes to an end, by
-- returning or by the exception of a payload without room, after one round more than the stream has
-- bytes at most.
pub read-ends :
    (can_hold : ℕ → Bool) (fuel : ℕ) (mask_keys : List (List ℕ)) (stream : List ℕ)
    → length stream < fuel
    → is_some (read can_hold fuel mask_keys stream) ≡ true
unfolding read
read-ends can_hold zero mask_keys stream f = absurd (omega arith)
read-ends can_hold (suc fuel) mask_keys stream f = elim (Frame-cases (read_frame can_hold stream)) [
  | inl (inl broken) ↦ ground (arith, broken)
  | inl (inr thrown) ↦ ground (arith, thrown)
  | inr (payload, opcode, rest, whole) ↦
      ap (λ (o : Option Ending). is_some o)
        (read-frame can_hold fuel mask_keys stream payload rest opcode whole)
      ∙ is_some-round (nat_eqb opcode 9) (nat_eqb opcode 8) payload rest _ (
          is_some-answered (send_frame (first_key mask_keys) 10 payload)
            (read can_hold fuel (drop 1 mask_keys) rest)
            (read-ends can_hold fuel (drop 1 mask_keys) rest
              (omega (arith, read_frame-shorter can_hold stream payload rest opcode whole))))
]
