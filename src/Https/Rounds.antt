-- ===== src/Https/Rounds.antt =====
-- One round of the loop over the chunks of src/common/https.hpp, and how a size is read.
use crypto_trading_system.Prelude.{
  ◌≡◌, ◌≢◌, refl, ◌∙◌, ℕ, suc, ◌+◌, ◌-◌, ◌*◌, ◌%◌, ◌^◌, ◌<◌, ◌≤◌, [], ◌∷◌, ◌++◌, List, map, true,
  false, none, some, Text, arith, ltb, leb, nat_eqb, length, take, drop, All, if◌then◌else◌,
}
use crypto_trading_system.Prelude.Search.{index_of}
use crypto_trading_system.Https.{
  crlf, is_space, hex_digit, hex_value, skip_0x, skip_space, signed_hex, strtoul_16, decode_chunks,
}

-- A round that finds a size within the body goes on behind the chunk.
pub decode_chunks-round :
    (fuel : ℕ) (body : Text) (at i n : ℕ) (decoded : Text)
    → at < length body
    → index_of crlf (drop at body) ≡ some i
    → strtoul_16 (drop at body) ≡ n
    → 0 < n
    → (at + i + 2 + n) % 2 ^ 64 ≤ length body
    → decode_chunks (suc fuel) body at decoded
      ≡ decode_chunks fuel body
          (((at + i + 2 + n) % 2 ^ 64 + 2) % 2 ^ 64)
          (decoded ++ take n (drop (at + i + 2) body))
unfolding decode_chunks
decode_chunks-round fuel body at i n decoded inside line size some_size fits = ground arith

unfoldable pub hex_char : ℕ → ℕ
hex_char v = if ltb v 10 then v + b'0' else v - 10 + b'a'

unfoldable pub hex_number : ℕ → List ℕ → ℕ
hex_number acc [] = acc
hex_number acc (d ∷ digits) = hex_number (acc * 16 + d) digits

hex_digit-hex_char : (v : ℕ) → v < 16 → hex_digit (hex_char v) ≡ some v
unfolding hex_digit hex_char
hex_digit-hex_char v h = ground arith

hex_digit-return : hex_digit b'\r' ≡ none
unfolding hex_digit
hex_digit-return = refl

-- Where the digits stand among the bytes.
pub hex_char_lem :
    (v : ℕ) → v < 16 → (b'0' ≤ hex_char v) × (hex_char v ≢ b'X') × (hex_char v < b'x')
unfolding hex_char
hex_char_lem v h = ground arith

hex_value-end : (acc c : ℕ) (text : Text) → hex_digit c ≡ none → hex_value acc (c ∷ text) ≡ acc
unfolding hex_value
hex_value-end acc c text h = ground arith

hex_value-more :
    (acc c v : ℕ) (text : Text)
    → hex_digit c ≡ some v
    → hex_value acc (c ∷ text) ≡ hex_value (acc * 16 + v) text
unfolding hex_value
hex_value-more acc c v text h = ground arith

hex_value-digits :
    (acc : ℕ) (digits : List ℕ) (rest : Text)
    → All (λ d. d < 16) digits
    → hex_value acc (map hex_char digits ++ (b'\r' ∷ rest)) ≡ hex_number acc digits
unfolding hex_number
hex_value-digits acc [] rest h = hex_value-end acc b'\r' rest hex_digit-return
hex_value-digits acc (d ∷ digits) rest h =
    hex_value-more acc (hex_char d) d (map hex_char digits ++ (b'\r' ∷ rest))
      (hex_digit-hex_char d h.0)
    ∙ hex_value-digits (acc * 16 + d) digits rest h.1

-- A byte that is no `x` is not passed over.
skip_0x-other :
    (z x : ℕ) (rest : Text)
    → nat_eqb x b'x' ≡ false
    → nat_eqb x b'X' ≡ false
    → skip_0x (z ∷ x ∷ rest) ≡ z ∷ x ∷ rest
unfolding skip_0x
skip_0x-other z x [] h k = refl
skip_0x-other z x (c ∷ rest) h k = ground arith

skip_0x-digits :
    (d : ℕ) (digits : List ℕ) (rest : Text)
    → All (λ d. d < 16) (d ∷ digits)
    → skip_0x (hex_char d ∷ map hex_char digits ++ (b'\r' ∷ rest))
      ≡ hex_char d ∷ map hex_char digits ++ (b'\r' ∷ rest)
skip_0x-digits d [] rest h = skip_0x-other _ b'\r' rest refl refl
skip_0x-digits d (e ∷ digits) rest h =
    skip_0x-other _ _ (map hex_char digits ++ (b'\r' ∷ rest)) (ground (arith, hex_char_lem e h.1.0))
      (ground (arith, hex_char_lem e h.1.0))

ne_of_low : (c k : ℕ) → b'0' ≤ c → ltb k b'0' ≡ true → nat_eqb c k ≡ false
ne_of_low c k h l = ground arith

space_of_low : (c : ℕ) → b'0' ≤ c → is_space c ≡ false
space_of_low c h = ground arith

lt-leb : (m n : ℕ) → m < n → leb n m ≡ false
lt-leb m n h = ground arith

-- No digit is a space or a sign.
signed_hex-digits :
    (d : ℕ) (digits : List ℕ) (rest : Text)
    → All (λ d. d < 16) (d ∷ digits)
    → hex_number 0 (d ∷ digits) < 2 ^ 64
    → signed_hex (hex_char d ∷ map hex_char digits ++ (b'\r' ∷ rest)) ≡ hex_number 0 (d ∷ digits)
unfolding signed_hex
signed_hex-digits d digits rest h small =
    let low : b'0' ≤ hex_char d = (hex_char_lem d h.0).0 in
    rw (
      ne_of_low (hex_char d) b'-' low refl,
      ne_of_low (hex_char d) b'+' low refl,
      skip_0x-digits d digits rest h,
      hex_value-digits 0 (d ∷ digits) rest h,
      lt-leb (hex_number 0 (d ∷ digits)) (2 ^ 64) small,
    )

pub strtoul_16-digits :
    (d : ℕ) (digits : List ℕ) (rest : Text)
    → All (λ d. d < 16) (d ∷ digits)
    → hex_number 0 (d ∷ digits) < 2 ^ 64
    → strtoul_16 (map hex_char (d ∷ digits) ++ (b'\r' ∷ rest)) ≡ hex_number 0 (d ∷ digits)
unfolding strtoul_16 skip_space
strtoul_16-digits d digits rest h small =
    rw (space_of_low (hex_char d) (hex_char_lem d h.0).0) (signed_hex-digits d digits rest h small)

-- A round that reads the size zero is the last.
pub decode_chunks-end :
    (fuel : ℕ) (body : Text) (at i : ℕ) (decoded : Text)
    → at < length body
    → index_of crlf (drop at body) ≡ some i
    → strtoul_16 (drop at body) ≡ 0
    → decode_chunks (suc fuel) body at decoded ≡ some decoded
unfolding decode_chunks
decode_chunks-end fuel body at i decoded inside line size = ground arith

pub zero_read : (rest : Text) → strtoul_16 (b'0' ∷ b'\r' ∷ rest) ≡ 0
unfolding hex_char hex_number
zero_read rest = strtoul_16-digits 0 [] rest (omega arith, tt) (omega arith)
