-- ===== src/WebSocket/Frames.antt =====
-- What `ReadFrame` of src/common/websocket.hpp reads of the frames that `SendFrame` writes.
use crypto_trading_system.Prelude.{
  ◌≡◌, refl, sym, ap, ap₂, ◌∙◌, ℕ, ◌%◌, ◌^◌, ◌<◌, List, [], ◌∷◌, ◌++◌, true, Option, none, some,
  length, take, drop, All, arith, ltb, leb, bind, Bool, ◌&&◌, ◌≤◌, if◌then◌else◌, append_assoc,
  Bool-cases, inl, inr, length-append, take-append, drop-append,
}
use crypto_trading_system.WebSocket.{
  mask, length_bytes, read_length, with_high_bit, frame_header, send_frame, raw_recv,
  read_payload_length, read_payload, read_frame, raw_send, Frame, frame_of, hold_payload, unmasked,
  keyed_payload, sized_frame,
}
use crypto_trading_system.WebSocket.Bytes.{
  IsByte, mask-mask, length-mask, length-length_bytes, read_length-bytes2, read_length-bytes8,
}

all_there : (xs ys : List ℕ) → leb (length xs) (length (xs ++ ys)) ≡ true
all_there xs ys = ground (arith, length-append xs ys)

pub raw_recv-append :
    (xs ys : List ℕ) (len : ℕ)
    → length xs ≡ len
    → len < 2 ^ 31
    → raw_recv len (xs ++ ys) ≡ some (xs, ys)
unfolding raw_recv
raw_recv-append xs ys len e small =
    let short : ltb (length xs) (2 ^ 31) ≡ true = ground (arith, e, small) in
    ap (λ l. raw_recv l (xs ++ ys)) (sym e)
    ∙ ap₂
        (λ a b.
          if a && b then some (take (length xs) (xs ++ ys), drop (length xs) (xs ++ ys)) else none)
        short (all_there xs ys)
    ∙ ap₂ (λ t r. some (t, r)) (take-append xs ys) (drop-append xs ys)

-- The low bits of a header's second byte with the bytes behind it give the length.
pub read_payload_length-small :
    (len : ℕ) (rest : List ℕ) → ltb len 126 ≡ true → read_payload_length len rest ≡ some (len, rest)
unfolding read_payload_length
read_payload_length-small len rest h = ground arith

pub read_payload_length-2 :
    (len : ℕ) (rest : List ℕ)
    → leb len 65_535 ≡ true
    → read_payload_length 126 (length_bytes 2 len ++ rest) ≡ some (len, rest)
unfolding read_payload_length
read_payload_length-2 len rest h =
    ap (λ o. bind o (λ x. some (read_length 0 x.0, x.1)))
      (raw_recv-append (length_bytes 2 len) rest 2 (length-length_bytes 2 len) (omega arith))
    ∙ ap (λ n. some (n, rest)) (read_length-bytes2 len (ground arith))

pub read_payload_length-8 :
    (len : ℕ) (rest : List ℕ)
    → len < 2 ^ 64
    → read_payload_length 127 (length_bytes 8 len ++ rest) ≡ some (len, rest)
unfolding read_payload_length
read_payload_length-8 len rest h =
    ap (λ o. bind o (λ x. some (read_length 0 x.0, x.1)))
      (raw_recv-append (length_bytes 8 len) rest 8 (length-length_bytes 8 len) (omega arith))
    ∙ ap (λ n. some (n, rest)) (read_length-bytes8 len h)

pub held :
    (can_hold : ℕ → Bool) (opcode len : ℕ) (payload : Option (List ℕ × List ℕ))
    → can_hold len ≡ true
    → hold_payload can_hold opcode len payload ≡ frame_of opcode payload
unfolding hold_payload
held can_hold opcode len payload holds =
    ap (λ b. if b then frame_of opcode payload else Frame.thrown) holds

read_payload-masked :
    (can_hold : ℕ → Bool) (opcode : ℕ) (mask_key payload rest : List ℕ)
    → length mask_key ≡ 4
    → All IsByte payload
    → length payload < 2 ^ 31
    → can_hold (length payload) ≡ true
    → read_payload can_hold opcode true
        (length payload)
        (mask_key ++ (mask mask_key 0 payload ++ rest))
      ≡ Frame.frame payload opcode rest
unfolding read_payload
read_payload-masked can_hold opcode mask_key payload rest k h l holds =
    ap (keyed_payload can_hold opcode (length payload))
      (raw_recv-append mask_key (mask mask_key 0 payload ++ rest) 4 k (omega arith))
    ∙ ap (λ o. hold_payload can_hold opcode (length payload) (unmasked mask_key o))
        (raw_recv-append (mask mask_key 0 payload) rest (length payload)
          (length-mask mask_key 0 payload) l)
    ∙ held can_hold opcode (length payload) (some (mask mask_key 0 (mask mask_key 0 payload), rest))
        holds
    ∙ ap (λ t. Frame.frame t opcode rest) (mask-mask mask_key 0 payload h)

-- A frame whose header says its length in the bytes `ext`.
read_frame-parts :
    (can_hold : ℕ → Bool) (opcode b : ℕ) (ext mask_key payload rest : List ℕ)
    → opcode < 16
    → leb 128 b ≡ true
    → ((tail : List ℕ) → read_payload_length (b % 128) (ext ++ tail) ≡ some (length payload, tail))
    → length mask_key ≡ 4
    → All IsByte payload
    → length payload < 2 ^ 31
    → can_hold (length payload) ≡ true
    → read_frame can_hold
        (with_high_bit opcode ∷ b ∷ (ext ++ (mask_key ++ (mask mask_key 0 payload ++ rest))))
      ≡ Frame.frame payload opcode rest
unfolding read_frame
read_frame-parts can_hold opcode b ext mask_key payload rest o masked len k h l holds =
    let tail = mask_key ++ (mask mask_key 0 payload ++ rest) in
    let code : with_high_bit opcode % 16 ≡ opcode = ground arith in
    ap (sized_frame can_hold (with_high_bit opcode % 16) (leb 128 b)) (len tail)
    ∙ ap₂ (λ c m. read_payload can_hold c m (length payload) tail) code masked
    ∙ read_payload-masked can_hold opcode mask_key payload rest k h l holds

pub raw_send-short : (bytes : List ℕ) → length bytes < 2 ^ 31 → raw_send bytes ≡ bytes
unfolding raw_send
raw_send-short bytes l = ground (arith, l)

length-frame_header-le : (opcode len : ℕ) → length (frame_header opcode len) ≤ 10
unfolding frame_header
length-frame_header-le opcode len =
    ground (arith, length-length_bytes 2 len, length-length_bytes 8 len)

-- A short frame is written whole.
pub send_frame-whole :
    (mask_key payload : List ℕ) (opcode : ℕ)
    → length mask_key ≡ 4
    → length payload < 2 ^ 31
    → send_frame mask_key opcode payload
      ≡ frame_header opcode (length payload) ++ (mask_key ++ mask mask_key 0 payload)
unfolding send_frame
send_frame-whole mask_key payload opcode k l =
    let header = frame_header opcode (length payload) in
    ap₂ ◌++◌
      (raw_send-short (header ++ mask_key) (
        omega (
          arith,
          k,
          length-append header mask_key,
          length-frame_header-le opcode (length payload),
        )))
      (raw_send-short (mask mask_key 0 payload) (omega (arith, l, length-mask mask_key 0 payload)))
    ∙ append_assoc header mask_key (mask mask_key 0 payload)

-- The frame that `SendFrame` writes for a payload of fewer than 2^31 bytes is read back by `ReadFrame`
-- as the same payload and opcode, with nothing read past its end, where a string has room for the
-- payload; the opcode has four bits and the mask's key four bytes.
pub read_frame-send_frame :
    (can_hold : ℕ → Bool) (mask_key payload rest : List ℕ) (opcode : ℕ)
    → opcode < 16
    → length mask_key ≡ 4
    → All IsByte payload
    → length payload < 2 ^ 31
    → can_hold (length payload) ≡ true
    → read_frame can_hold (send_frame mask_key opcode payload ++ rest)
      ≡ Frame.frame payload opcode rest
unfolding frame_header
read_frame-send_frame can_hold mask_key payload rest opcode o k h l holds =
    let len = length payload in
    let read = read_frame-parts can_hold opcode in
    ap (λ sent. read_frame can_hold (sent ++ rest)) (send_frame-whole mask_key payload opcode k l)
    ∙ elim (Bool-cases (ltb len 126)) [
      | inl small ↦
          let b = with_high_bit len in
          let code : b % 128 ≡ len = ground arith in
          rw (small, append_assoc)
            (read b [] mask_key payload rest o (ground arith)
              (λ tail.
                ap (λ c. read_payload_length c tail) code
                ∙ read_payload_length-small len tail small)
              k h l holds)
      | inr more ↦ elim (Bool-cases (leb len 65_535)) [
        | inl medium ↦
            rw (more, medium, append_assoc)
              (read 254 (length_bytes 2 len) mask_key payload rest o refl
                (λ tail. read_payload_length-2 len tail medium) k h l holds)
        | inr large ↦
            rw (more, large, append_assoc)
              (read 255 (length_bytes 8 len) mask_key payload rest o refl
                (λ tail. read_payload_length-8 len tail (omega arith)) k h l holds)
      ]
    ]
