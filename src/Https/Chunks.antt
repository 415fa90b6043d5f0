-- ===== src/Https/Chunks.antt =====
-- The loop over the chunks of src/common/https.hpp reads back what a server has cut into chunks.
use crypto_trading_system.Prelude.{
  ◌≡◌, ◌≢◌, refl, sym, ap, ap₂, ◌∙◌, ℕ, zero, suc, ◌+◌, ◌-◌, ◌^◌, ◌<◌, ◌≤◌, [], ◌∷◌, ◌++◌, List,
  map, some, Text, arith, length, take, drop, All, append-nil, append_assoc, length-append,
  drop-append, take-append,
}
use crypto_trading_system.Prelude.Search.{index_of, index_of-append}
use crypto_trading_system.Https.{crlf, decode_chunks, strtoul_16}
use crypto_trading_system.Https.Rounds.{
  hex_char, hex_char_lem, hex_number, strtoul_16-digits, decode_chunks-round, decode_chunks-end,
  zero_read,
}

-- A chunk: the digits of its size, of any number and with leading zeros or without, and its content.
pub record Chunk : Type 0 where
  pub digit : ℕ
  pub digits : List ℕ
  pub content : Text

abbrev pub size_line : Chunk → Text
size_line c = map hex_char (c.digit ∷ c.digits)

abbrev pub chunk_text : Chunk → Text
chunk_text c = size_line c ++ (crlf ++ (c.content ++ crlf))

abbrev pub chunked_text : List Chunk → Text
chunked_text [] = []
chunked_text (c ∷ chunks) = chunk_text c ++ chunked_text chunks

abbrev pub contents : List Chunk → Text
contents [] = []
contents (c ∷ chunks) = c.content ++ contents chunks

-- The digits are hexadecimal and say how long the content is, which is not empty.
abbrev pub IsChunk : Chunk → Type 0
IsChunk c =
    All (λ d. d < 16) (c.digit ∷ c.digits)
    × (hex_number 0 (c.digit ∷ c.digits) ≡ length c.content)
    × (0 < length c.content)

no_return :
    (digits : List ℕ) → All (λ d. d < 16) digits → All (λ c. c ≢ b'\r') (map hex_char digits)
no_return [] h = tt
no_return (d ∷ digits) h = ((λ e. omega (arith, hex_char_lem d h.0, e)), no_return digits h.1)

length-hex : (digits : List ℕ) → length (map hex_char digits) ≡ length digits
length-hex [] = refl
length-hex (d ∷ digits) = ap suc (length-hex digits)

regroup :
    (before line tail : Text)
    → before ++ (line ++ (crlf ++ tail)) ≡ (before ++ (line ++ crlf)) ++ tail
regroup before line tail = sym (
    append_assoc before (line ++ crlf) tail
    ∙ ap (λ (t : Text). before ++ t) (append_assoc line crlf tail))

-- Where a chunk stands in a body, the loop takes its content and goes on behind it.
pub decode_chunks-chunk :
    (c : Chunk) (fuel : ℕ) (before rest decoded : Text)
    → IsChunk c
    → length (before ++ (chunk_text c ++ rest)) + 4 ≤ 2 ^ 64
    → decode_chunks (suc fuel) (before ++ (chunk_text c ++ rest)) (length before) decoded
      ≡ decode_chunks fuel
          (before ++ (chunk_text c ++ rest))
          (length (before ++ chunk_text c))
          (decoded ++ c.content)
decode_chunks-chunk c fuel before rest decoded ok room =
    let body = before ++ (chunk_text c ++ rest) in
    let line = size_line c in
    let tail = crlf ++ (c.content ++ (crlf ++ rest)) in
    let shape : chunk_text c ++ rest ≡ line ++ tail =
      append_assoc line (crlf ++ (c.content ++ crlf)) rest
      ∙ ap (λ (t : Text). line ++ (crlf ++ t)) (append_assoc c.content crlf rest) in
    let here : drop (length before) body ≡ line ++ tail =
      drop-append before (chunk_text c ++ rest) ∙ shape in
    let size : length body
        ≡ length before + (length line + (2 + (length c.content + (2 + length rest)))) =
      omega (
        arith,
        length-append before (chunk_text c ++ rest),
        ap (λ (t : Text). length t) shape,
        length-append line tail,
        length-append c.content (crlf ++ rest),
      ) in
    let start : drop (length before + length line + 2) body ≡ c.content ++ (crlf ++ rest) =
      ap₂ (λ (k : ℕ) (t : Text). drop k t)
        (omega (arith, length-append before (line ++ crlf), length-append line crlf))
        (ap (λ (t : Text). before ++ t) shape ∙ regroup before line (c.content ++ (crlf ++ rest)))
      ∙ drop-append (before ++ (line ++ crlf)) (c.content ++ (crlf ++ rest)) in
    let passed : length (before ++ chunk_text c)
        ≡ length before + (length line + (2 + (length c.content + 2))) =
      omega (
        arith,
        length-append before (chunk_text c),
        length-append line (crlf ++ (c.content ++ crlf)),
        length-append c.content crlf,
      ) in
    let found : index_of crlf (drop (length before) body) ≡ some (length line) =
      ap (index_of crlf) here
      ∙ index_of-append b'\r' (b'\n' ∷ []) line tail (no_return (c.digit ∷ c.digits) ok.0) refl in
    let sized : strtoul_16 (drop (length before) body) ≡ length c.content =
      ap strtoul_16 here
      ∙ strtoul_16-digits c.digit c.digits (b'\n' ∷ (c.content ++ (crlf ++ rest))) ok.0
          (omega (arith, ok.1, size, room))
      ∙ ok.1 in
    decode_chunks-round fuel body (length before) (length line) (length c.content) decoded
      (omega (arith, size)) found sized ok.2 (omega (arith, size, room))
    ∙ ap₂ (λ (at : ℕ) (taken : Text). decode_chunks fuel body at (decoded ++ taken))
        (omega (arith, size, room, passed))
        (ap (take (length c.content)) start ∙ take-append c.content (crlf ++ rest))

-- The same for a list of chunks.
pub decode_chunks-chunks :
    (chunks : List Chunk) (fuel left : ℕ) (before rest decoded : Text)
    → All IsChunk chunks
    → fuel ≡ length chunks + left
    → length (before ++ (chunked_text chunks ++ rest)) + 4 ≤ 2 ^ 64
    → decode_chunks fuel (before ++ (chunked_text chunks ++ rest)) (length before) decoded
      ≡ decode_chunks left
          (before ++ (chunked_text chunks ++ rest))
          (length (before ++ chunked_text chunks))
          (decoded ++ contents chunks)
decode_chunks-chunks [] fuel left before rest decoded ok e room =
    let same : fuel ≡ left = omega (arith, e) in
    rw (same, append-nil before, append-nil decoded) refl
decode_chunks-chunks (c ∷ chunks) zero left before rest decoded ok e room =
    absurd (omega (arith, e))
decode_chunks-chunks (c ∷ chunks) (suc fuel) left before rest decoded ok e room =
    let tail = chunked_text chunks ++ rest in
    let body = before ++ ((chunk_text c ++ chunked_text chunks) ++ rest) in
    let first : body ≡ before ++ (chunk_text c ++ tail) =
      ap (λ (t : Text). before ++ t) (append_assoc (chunk_text c) (chunked_text chunks) rest) in
    let second : before ++ (chunk_text c ++ tail) ≡ (before ++ chunk_text c) ++ tail =
      sym (append_assoc before (chunk_text c) tail) in
    let long = ap (λ (t : Text). length t) first in
    let longer = ap (λ (t : Text). length t) second in
    ap (λ (t : Text). decode_chunks (suc fuel) t (length before) decoded) first
    ∙ decode_chunks-chunk c fuel before tail decoded ok.0 (omega (arith, long, room))
    ∙ ap
        (λ (t : Text).
          decode_chunks fuel t (length (before ++ chunk_text c)) (decoded ++ c.content))
        second
    ∙ decode_chunks-chunks chunks fuel left (before ++ chunk_text c) rest (decoded ++ c.content)
        ok.1 (omega (arith, e)) (omega (arith, long, longer, room))
    ∙ ap₂
        (λ (t : Text) (at : ℕ). decode_chunks left t at ((decoded ++ c.content) ++ contents chunks))
        (sym (first ∙ second))
        (ap (λ (t : Text). length t) (append_assoc before (chunk_text c) (chunked_text chunks)))
    ∙ ap
        (λ (t : Text).
          decode_chunks left body (length (before ++ (chunk_text c ++ chunked_text chunks))) t)
        (append_assoc decoded c.content (contents chunks))

-- The chunk of size zero.
abbrev pub last_chunk : Text
last_chunk = b'0' ∷ crlf

decode_chunks-last :
    (fuel : ℕ) (before rest decoded : Text)
    → decode_chunks (suc fuel) (before ++ (last_chunk ++ rest)) (length before) decoded
      ≡ some decoded
decode_chunks-last fuel before rest decoded =
    let body = before ++ (last_chunk ++ rest) in
    let here : drop (length before) body ≡ b'0' ∷ (crlf ++ rest) =
      drop-append before (last_chunk ++ rest) in
    decode_chunks-end fuel body (length before) 1 decoded
      (omega (arith, length-append before (last_chunk ++ rest)))
      (ap (index_of crlf) here
        ∙ index_of-append b'\r' (b'\n' ∷ []) (b'0' ∷ []) (crlf ++ rest)
            ((λ e. omega (arith, e)), tt) refl)
      (ap strtoul_16 here ∙ zero_read (b'\n' ∷ rest))

-- A body that is cut into chunks, each with its size in lower-case hexadecimal digits, and ended by a
-- chunk of size zero with any trailer, is read back whole, after one round more than there are chunks;
-- the body is shorter than 2^64 bytes by at least four.
pub decode_chunks-chunked :
    (chunks : List Chunk) (trailer : Text) (fuel : ℕ)
    → All IsChunk chunks
    → length (chunked_text chunks ++ (last_chunk ++ trailer)) + 4 ≤ 2 ^ 64
    → length chunks < fuel
    → decode_chunks fuel (chunked_text chunks ++ (last_chunk ++ trailer)) 0 []
      ≡ some (contents chunks)
decode_chunks-chunked chunks trailer fuel ok room enough =
    let left : ℕ = fuel - length chunks - 1 in
    decode_chunks-chunks chunks fuel (suc left) [] (last_chunk ++ trailer) [] ok (omega arith) room
    ∙ decode_chunks-last left (chunked_text chunks) trailer (contents chunks)
