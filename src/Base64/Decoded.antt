-- ===== src/Base64/Decoded.antt =====
-- The text that `Base64Encode` of src/common/websocket.hpp makes, read by a decoder.
use crypto_trading_system.Prelude.{
  ◌≡◌, refl, sym, ap, ap₂, ◌∙◌, ℕ, zero, suc, ◌+◌, ◌-◌, ◌*◌, ◌/◌, ◌%◌, ◌<◌, List, [], ◌∷◌, Text,
  Bool, true, false, ◌&&◌, not, nat_eqb, leb, get_or, All, arith, if◌then◌else◌,
}
use native.Mathlib.Decide.{dec_lt}
use crypto_trading_system.Base64.{table, digit, base64_encode}

-- The value of a digit by its code, as RFC 4648 lays the alphabet out: capitals, small letters, the ten
-- digits, plus and slash; 64 stands for any other code.
unfoldable pub value : ℕ → ℕ
value c =
    if leb 65 c && leb c 90
    then c - 65
    else if leb 97 c && leb c 122
    then c - 71
    else if leb 48 c && leb c 57
    then c + 4
    else if nat_eqb c 43
    then 62
    else if nat_eqb c 47
    then 63
    else 64

-- A decoder for whole groups of four.
unfoldable pub base64_decode : Text → List ℕ
base64_decode (c ∷ c' ∷ c'' ∷ c''' ∷ text) =
    let high = value c * 262_144 + value c' * 4_096 in
    let rest = base64_decode text in
    if nat_eqb c'' b'='
    then high / 65_536 ∷ []
    else if nat_eqb c''' b'='
    then high / 65_536 ∷ (high + value c'' * 64) / 256 % 256 ∷ []
    else (high / 65_536
        ∷ (high + value c'' * 64) / 256 % 256
        ∷ (value c'' * 64 + value c''') % 256
        ∷ rest)
base64_decode _ = []

-- A test of all numbers below `n`.
abbrev pub below : (ℕ → Bool) → ℕ → Bool
below test zero = true
below test (suc n) = test n && below test n

below-all : (test : ℕ → Bool) (n i : ℕ) → below test n ≡ true → i < n → test i ≡ true
below-all test zero i r h = absurd (omega arith)
below-all test (suc n) i r h =
    let here : test n ≡ true = ground arith in
    let rest : below test n ≡ true = ground arith in
    elim (dec_lt i n) [ yes lt ↦ below-all test n i rest lt | no ge ↦ ap test (omega arith) ∙ here ]

-- A digit has its place as its value and is no padding.
right_at : ℕ → Bool
right_at n = nat_eqb (value (digit n)) n && not (nat_eqb (digit n) b'=')

all_right : below right_at 64 ≡ true
unfolding right_at value digit
all_right = refl

digit-mod : (n : ℕ) → digit (n % 64) ≡ digit n
unfolding digit
digit-mod n = let same : n % 64 % 64 ≡ n % 64 = omega arith in ap (λ i. get_or table i 0) same

right-digit : (n : ℕ) → (value (digit n) ≡ n % 64) × (nat_eqb (digit n) b'=' ≡ false)
unfolding right_at
right-digit n =
    let right : right_at (n % 64) ≡ true = below-all right_at 64 (n % 64) all_right (omega arith) in
    let digits : (value (digit (n % 64)) ≡ n % 64) × (nat_eqb (digit (n % 64)) b'=' ≡ false) =
      ground arith in
    (
      ap value (sym (digit-mod n)) ∙ digits.0,
      ap (λ c. nat_eqb c b'=') (sym (digit-mod n)) ∙ digits.1,
    )

value-digit : (n : ℕ) → value (digit n) ≡ n % 64
value-digit n = (right-digit n).0

digit-no_padding : (n : ℕ) → nat_eqb (digit n) b'=' ≡ false
digit-no_padding n = (right-digit n).1

first_byte :
    (n : ℕ)
    → n < 16_777_216
    → ((n / 262_144 % 64) * 262_144 + (n / 4_096 % 64) * 4_096) / 65_536 ≡ n / 65_536
first_byte n h = omega arith

second_byte :
    (n : ℕ)
    → ((n / 262_144 % 64) * 262_144 + (n / 4_096 % 64) * 4_096 + (n / 64 % 64) * 64) / 256 % 256
      ≡ n / 256 % 256
second_byte n = omega arith

third_byte : (n : ℕ) → ((n / 64 % 64) * 64 + n % 64) % 256 ≡ n % 256
third_byte n = omega arith

abbrev pub IsByte : ℕ → Type 0
IsByte b = b < 256

-- A decoder of the standard alphabet gives back just the bytes that `Base64Encode` was given.
pub base64_decode-base64_encode :
    (bytes : List ℕ) → All IsByte bytes → base64_decode (base64_encode bytes) ≡ bytes
unfolding base64_decode base64_encode
base64_decode-base64_encode [] h = refl
base64_decode-base64_encode (a ∷ []) (ha, h) =
    rw (value-digit, value-digit)
      (ap (λ x. x ∷ []) (first_byte (a * 65_536) (omega arith) ∙ omega arith))
base64_decode-base64_encode (a ∷ b ∷ []) (ha, (hb, h)) =
    let n = a * 65_536 + b * 256 in
    rw (digit-no_padding, value-digit, value-digit, value-digit)
      (ap₂ (λ x y. x ∷ y ∷ []) (first_byte n (omega arith) ∙ omega arith)
        (second_byte n ∙ omega arith))
base64_decode-base64_encode (a ∷ b ∷ c ∷ bytes) (ha, (hb, (hc, h))) =
    let n = a * 65_536 + b * 256 + c in
    rw (digit-no_padding, digit-no_padding, value-digit, value-digit, value-digit, value-digit)
      (ap₂ (λ x s. x ∷ s) (first_byte n (omega arith) ∙ omega arith)
        (ap₂ (λ x s. x ∷ s) (second_byte n ∙ omega arith)
          (ap₂ (λ x s. x ∷ s) (third_byte n ∙ omega arith) (base64_decode-base64_encode bytes h))))
