-- ===== src/Https.antt =====
-- What `HttpsRequest` of src/common/https.hpp writes, and what it makes of the bytes that it receives:
-- the request, the headers, and the body, which may be chunked. The socket and TLS are calls of the
-- system and of OpenSSL. `strtoul` is the C library's, in base 16 and 64 bits.
pub mod Chunks
pub mod Endless
pub mod Rounds
use crypto_trading_system.Prelude.{
  ℕ, zero, suc, ◌+◌, ◌-◌, ◌*◌, ◌%◌, ◌^◌, [], ◌∷◌, ◌++◌, Bool, true, false, ◌&&◌, ◌||◌, Option, none,
  some, Text, codes, is_empty, ltb, leb, nat_eqb, is_some, length, take, drop, bind, get_or_else,
  if◌then◌else◌,
}
use crypto_trading_system.Prelude.Search.{starts_with, mentions, index_of}
use crypto_trading_system.Utils.{to_string}

abbrev pub crlf : Text
crlf = codes "\r\n"

-- `CONNECT` to a proxy, and whether its answer lets the request go on.
unfoldable pub connect_request : Text → Text → Text
connect_request host port =
    codes "CONNECT "
    ++ host
    ++ codes ":"
    ++ port
    ++ codes " HTTP/1.1\r\nHost: "
    ++ host
    ++ codes ":"
    ++ port
    ++ codes "\r\n\r\n"

unfoldable pub request_text : Text → Text → Text → Text → Text → Text
request_text method path host headers body =
    method
    ++ codes " "
    ++ path
    ++ codes " HTTP/1.1\r\nHost: "
    ++ host
    ++ codes "\r\nConnection: close\r\n"
    ++ headers
    ++ (if is_empty body
        then []
        else codes "Content-Length: " ++ to_string (length body) ++ codes "\r\n")
    ++ codes "\r\n"
    ++ body

-- `isspace` in the C locale.
abbrev pub is_space : ℕ → Bool
is_space c = nat_eqb c 32 || (leb 9 c && leb c 13)

-- The value of a hexadecimal digit.
unfoldable pub hex_digit : ℕ → Option ℕ
hex_digit c =
    if leb b'0' c && leb c b'9'
    then some (c - b'0')
    else if leb b'a' c && leb c b'f'
    then some (c - b'a' + 10)
    else if leb b'A' c && leb c b'F'
    then some (c - b'A' + 10)
    else none

unfoldable pub skip_space : Text → Text
skip_space [] = []
skip_space (c ∷ text) = if is_space c then skip_space text else c ∷ text

-- `0x` in front of a digit is passed over.
unfoldable pub skip_0x : Text → Text
skip_0x (z ∷ x ∷ c ∷ text) =
    if nat_eqb z b'0' && (nat_eqb x b'x' || nat_eqb x b'X') && is_some (hex_digit c)
    then c ∷ text
    else z ∷ x ∷ c ∷ text
skip_0x text = text

-- The digits up to the first byte that is none.
unfoldable pub hex_value : ℕ → Text → ℕ
hex_value acc [] = acc
hex_value acc (c ∷ text) = elim (hex_digit c) [
  | none ↦ acc
  | some v ↦ hex_value (acc * 16 + v) text
]

-- A value that does not fit is `ULONG_MAX`; a minus sign takes the value from 2^64.
abbrev pub unsigned_of : Bool → ℕ → ℕ
unsigned_of negative n =
    if leb (2 ^ 64) n then 2 ^ 64 - 1 else if negative then (2 ^ 64 - n) % 2 ^ 64 else n

unfoldable pub signed_hex : Text → ℕ
signed_hex [] = 0
signed_hex (c ∷ text) =
    if nat_eqb c b'-'
    then unsigned_of true (hex_value 0 (skip_0x text))
    else if nat_eqb c b'+'
    then unsigned_of false (hex_value 0 (skip_0x text))
    else unsigned_of false (hex_value 0 (skip_0x (c ∷ text)))

unfoldable pub strtoul_16 : Text → ℕ
strtoul_16 text = signed_hex (skip_space text)

-- The loop over the chunks, at a position of the body: the outer `none` means that the fuel ran out.
-- Positions and sizes are `size_t`, and their sums wrap at 2^64.
unfoldable pub decode_chunks : ℕ → Text → ℕ → Text → Option Text
decode_chunks zero body at decoded = none
decode_chunks (suc fuel) body at decoded =
    if leb (length body) at then some decoded else elim (index_of crlf (drop at body)) [
      | none ↦ some decoded
      | some i ↦
          let chunk_size = strtoul_16 (drop at body) in
          let start = at + i + 2 in
          let end = (start + chunk_size) % 2 ^ 64 in
          let rest =
            decode_chunks fuel body ((end + 2) % 2 ^ 64)
              (decoded ++ take chunk_size (drop start body)) in
          if nat_eqb chunk_size 0
          then some decoded
          else if ltb (length body) end
          then some decoded
          else rest
    ]

-- A line of the headers, up to the next line break.
abbrev pub line_of : Text → Text
line_of text = take (get_or_else (length text) (index_of crlf text)) text

-- The loop over the lines behind the first one.
unfoldable pub is_chunked : Text → Bool
is_chunked [] = false
is_chunked (c ∷ headers) =
    (starts_with crlf (c ∷ headers)
      && mentions (codes "Transfer-Encoding") (line_of (drop 2 (c ∷ headers)))
      && mentions (codes "chunked") (line_of (drop 2 (c ∷ headers))))
    || is_chunked headers

-- What `HttpsRequest` returns for all the bytes received; a response without an end of its headers is
-- as good as none.
unfoldable pub response_body : ℕ → Text → Option Text
unfolding decode_chunks is_chunked strtoul_16 signed_hex skip_0x skip_space hex_value hex_digit
    index_of mentions
response_body fuel response = elim (index_of (codes "\r\n\r\n") response) [
  | none ↦ some []
  | some header_end ↦
      let body = drop (header_end + 4) response in
      if is_chunked (take header_end response) then decode_chunks fuel body 0 [] else some body
]
