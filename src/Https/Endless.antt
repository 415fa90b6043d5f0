-- ===== src/Https/Endless.antt =====
-- When the loop over the chunks of src/common/https.hpp ends, and a response on which it does not.
use crypto_trading_system.Prelude.{
  ◌≡◌, ◌⊎◌, refl, ap, ◌∙◌, ℕ, zero, suc, ◌+◌, ◌-◌, ◌%◌, ◌^◌, ◌<◌, ◌≤◌, [], ◌∷◌, ◌++◌, List, true,
  Option, none, some, Option-cases, inl, inr, Text, codes, arith, is_some, length, take, drop, All,
  length-append, drop-append,
}
use crypto_trading_system.Prelude.Search.{index_of}
use crypto_trading_system.Https.{crlf, decode_chunks, strtoul_16}
use crypto_trading_system.Https.Rounds.{
  hex_char, hex_number, strtoul_16-digits, decode_chunks-round,
}
use crypto_trading_system.Https.Chunks.{
  Chunk, IsChunk, size_line, chunked_text, contents, decode_chunks-chunks,
}

index_of-lt : (needle text : Text) (i : ℕ) → index_of needle text ≡ some i → i < length text
unfolding index_of
index_of-lt needle [] i h = cc
index_of-lt needle (c ∷ text) i h = elim (Option-cases (index_of needle text)) [
  | inl e ↦ ground (arith, e)
  | inr (j, e) ↦ ground (arith, e, index_of-lt needle text j e)
]

lt_or_le : (m n : ℕ) → (m < n) ⊎ (n ≤ m)
lt_or_le m n = ground arith

length-drop : (n : ℕ) (text : Text) → length (drop n text) ≡ length text - n
length-drop zero text = omega arith
length-drop (suc n) [] = omega arith
length-drop (suc n) (c ∷ text) = omega (arith, length-drop n text)

some_of_is_some : (o : Option Text) → is_some o ≡ true → (t : Text) × (o ≡ some t)
some_of_is_some none h = cc
some_of_is_some (some t) h = (t, refl)

stop_past :
    (fuel : ℕ) (body : Text) (at : ℕ) (decoded : Text)
    → length body ≤ at
    → is_some (decode_chunks (suc fuel) body at decoded) ≡ true
unfolding decode_chunks
stop_past fuel body at decoded h = ground arith

stop_line :
    (fuel : ℕ) (body : Text) (at : ℕ) (decoded : Text)
    → index_of crlf (drop at body) ≡ none
    → is_some (decode_chunks (suc fuel) body at decoded) ≡ true
unfolding decode_chunks
stop_line fuel body at decoded h = ground (arith, h)

stop_size :
    (fuel : ℕ) (body : Text) (at i : ℕ) (decoded : Text)
    → index_of crlf (drop at body) ≡ some i
    → (strtoul_16 (drop at body) ≡ 0)
      ⊎ (length body < (at + i + 2 + strtoul_16 (drop at body)) % 2 ^ 64)
    → is_some (decode_chunks (suc fuel) body at decoded) ≡ true
unfolding decode_chunks
stop_size fuel body at i decoded h stop = ground (arith, h)

-- No size reads beyond 2^64 from where it stands: with as much fuel as the body is long the loop ends.
module _ (body : Text) (small : (p : ℕ) → strtoul_16 (drop p body) + length body + 4 ≤ 2 ^ 64) where
  goes_on :
      (fuel at i : ℕ) (decoded : Text)
      → ((next : ℕ) (taken : Text)
          → length body - next < fuel
          → is_some (decode_chunks fuel body next taken) ≡ true)
      → length body - at < suc fuel
      → index_of crlf (drop at body) ≡ some i
      → at < length body
      → 0 < strtoul_16 (drop at body)
      → (at + i + 2 + strtoul_16 (drop at body)) % 2 ^ 64 ≤ length body
      → is_some (decode_chunks (suc fuel) body at decoded) ≡ true
  goes_on fuel at i decoded known enough line inside size fits =
      let here : i < length body - at =
        omega (arith, index_of-lt crlf (drop at body) i line, length-drop at body) in
      ap (λ (o : Option Text). is_some o)
        (decode_chunks-round fuel body at i (strtoul_16 (drop at body)) decoded inside line refl
          size fits)
      ∙ known _ _ (omega (arith, small at, here, fits, enough))

  is_some-decode_chunks :
      (fuel at : ℕ) (decoded : Text)
      → length body - at < fuel
      → is_some (decode_chunks fuel body at decoded) ≡ true
  is_some-decode_chunks zero at decoded enough = absurd (omega arith)
  is_some-decode_chunks (suc fuel) at decoded enough = elim (lt_or_le at (length body)) [
    | inr past ↦ stop_past fuel body at decoded past
    | inl inside ↦ elim (Option-cases (index_of crlf (drop at body))) [
      | inl line ↦ stop_line fuel body at decoded line
      | inr (i, line) ↦ elim (lt_or_le 0 (strtoul_16 (drop at body))) [
        | inr size ↦ stop_size fuel body at i decoded line (inl (omega arith))
        | inl size ↦
            elim (lt_or_le (length body) ((at + i + 2 + strtoul_16 (drop at body)) % 2 ^ 64)) [
              | inl over ↦ stop_size fuel body at i decoded line (inr over)
              | inr fits ↦
                  goes_on fuel at i decoded
                    (λ next taken e. is_some-decode_chunks fuel next taken e) enough line inside
                    size fits
            ]
      ]
    ]
  ]

  -- Where every size that can be read is at most 2^64 less the length of the body and four, the loop
  -- returns a text, after one round more than the body has bytes at most.
  pub decode_chunks-returns :
      (fuel : ℕ)
      → length body < fuel
      → (decoded : Text) × (decode_chunks fuel body 0 [] ≡ some decoded)
  decode_chunks-returns fuel enough =
      some_of_is_some (decode_chunks fuel body 0 []) (is_some-decode_chunks fuel 0 [] (omega arith))

-- The digits of 2^64 - 20 as a size.
abbrev pub wrapping_line : Text
wrapping_line = codes "ffffffffffffffec\r\n"

wrapping_size : (rest : Text) → strtoul_16 (wrapping_line ++ rest) ≡ 2 ^ 64 - 20
unfolding hex_char hex_number
wrapping_size rest =
    strtoul_16-digits 15
      (15 ∷ 15 ∷ 15 ∷ 15 ∷ 15 ∷ 15 ∷ 15 ∷ 15 ∷ 15 ∷ 15 ∷ 15 ∷ 15 ∷ 15 ∷ 14 ∷ 12 ∷ []) (b'\n' ∷ rest)
      (omega arith) (omega arith)

-- At that line, two bytes or more from the front, the position comes back to where it was.
decode_chunks-again :
    (fuel : ℕ) (before rest decoded : Text)
    → 2 ≤ length before
    → length (before ++ (wrapping_line ++ rest)) + 4 ≤ 2 ^ 64
    → decode_chunks fuel (before ++ (wrapping_line ++ rest)) (length before) decoded ≡ none
unfolding decode_chunks index_of
decode_chunks-again zero before rest decoded far room = refl
decode_chunks-again (suc fuel) before rest decoded far room =
    let body = before ++ (wrapping_line ++ rest) in
    let here : drop (length before) body ≡ wrapping_line ++ rest =
      drop-append before (wrapping_line ++ rest) in
    let size : strtoul_16 (drop (length before) body) ≡ 2 ^ 64 - 20 =
      ap strtoul_16 here ∙ wrapping_size rest in
    let long = length-append before (wrapping_line ++ rest) in
    decode_chunks-round fuel body (length before) 16 (2 ^ 64 - 20) decoded (omega (arith, long))
      (ap (index_of crlf) here ∙ refl) size (omega arith) (omega (arith, long, room, far))
    ∙ ap
        (λ (at : ℕ).
          decode_chunks fuel body at
            (decoded ++ take (2 ^ 64 - 20) (drop (length before + 16 + 2) body)))
        (omega (arith, room, far, long))
    ∙ decode_chunks-again fuel before rest _ far room

-- A body in which one chunk or more are followed by a line with the size 2^64 - 20 is read without
-- end: after any number of rounds, the chunks' own included, the loop is not done. The body is shorter
-- than 2^64 bytes by at least four.
pub decode_chunks-endless :
    (c : Chunk) (chunks : List Chunk) (rest : Text) (fuel : ℕ)
    → All IsChunk (c ∷ chunks)
    → length (chunked_text (c ∷ chunks) ++ (wrapping_line ++ rest)) + 4 ≤ 2 ^ 64
    → length (c ∷ chunks) ≤ fuel
    → decode_chunks fuel (chunked_text (c ∷ chunks) ++ (wrapping_line ++ rest)) 0 [] ≡ none
decode_chunks-endless c chunks rest fuel ok room enough =
    let before = chunked_text (c ∷ chunks) in
    let left : ℕ = fuel - length (c ∷ chunks) in
    let far : 2 ≤ length before = omega (
      arith,
      length-append (size_line c ++ (crlf ++ (c.content ++ crlf))) (chunked_text chunks),
      length-append (size_line c) (crlf ++ (c.content ++ crlf)),
    ) in
    decode_chunks-chunks (c ∷ chunks) fuel left [] (wrapping_line ++ rest) [] ok (omega arith) room
    ∙ decode_chunks-again left before rest (contents (c ∷ chunks)) far room
