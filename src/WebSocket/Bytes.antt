-- ===== src/WebSocket/Bytes.antt =====
-- Masks and lengths in the frames of src/common/websocket.hpp.
use crypto_trading_system.Prelude.{
  ◌≡◌, refl, ap, ap₂, ◌∙◌, ℕ, zero, suc, ◌+◌, ◌*◌, ◌/◌, ◌%◌, ◌^◌, ◌<◌, List, [], ◌∷◌, length,
  get_or, All, arith,
}
use native.Mathlib.Numerals.{unary_clauses}
use crypto_trading_system.WebSocket.{xor, mask, length_bytes, read_length}

abbrev pub IsByte : ℕ → Type 0
IsByte b = b < 256

half_below : (a n : ℕ) → a < n * 2 → a / 2 < n
half_below a n h = omega arith

low_bit : (a k x : ℕ) → ((a + k) % 2 + 2 * x + k) % 2 + 2 * (a / 2) ≡ a
low_bit a k x = omega arith

-- Masking twice with one key gives the low bits back.
pub xor-xor : (bits a k : ℕ) → a < 2 ^ bits → xor bits (xor bits a k) k ≡ a
unfolding xor
xor-xor zero a k h = omega arith
xor-xor (suc bits) a k h =
    let rest : xor bits (xor bits (a / 2) (k / 2)) (k / 2) ≡ a / 2 =
      xor-xor bits (a / 2) (k / 2) (half_below a (2 ^ bits) (simp unary_clauses at h)) in
    let low : ((a + k) % 2 + 2 * xor bits (a / 2) (k / 2)) / 2 ≡ xor bits (a / 2) (k / 2) =
      omega arith in
    ap (λ x. (((a + k) % 2 + 2 * xor bits (a / 2) (k / 2)) + k) % 2 + 2 * xor bits x (k / 2)) low
    ∙ ap (λ y. ((a + k) % 2 + 2 * xor bits (a / 2) (k / 2) + k) % 2 + 2 * y) rest
    ∙ low_bit a k (xor bits (a / 2) (k / 2))

pub mask-mask :
    (key : List ℕ) (index : ℕ) (payload : List ℕ)
    → All IsByte payload
    → mask key index (mask key index payload) ≡ payload
unfolding mask
mask-mask key index [] h = refl
mask-mask key index (b ∷ payload) (h, t) =
    ap₂ (λ x s. x ∷ s) (xor-xor 8 b (get_or key (index % 4) 0) h)
      (mask-mask key (suc index) payload t)

pub length-mask :
    (key : List ℕ) (index : ℕ) (payload : List ℕ) → length (mask key index payload) ≡ length payload
unfolding mask
length-mask key index [] = refl
length-mask key index (b ∷ payload) = ap suc (length-mask key (suc index) payload)

pub length-length_bytes : (count n : ℕ) → length (length_bytes count n) ≡ count
unfolding length_bytes
length-length_bytes zero n = refl
length-length_bytes (suc count) n = ap suc (length-length_bytes count n)

-- The bytes of a length stand for it.
pub read_length-bytes2 : (n : ℕ) → n < 2 ^ 16 → read_length 0 (length_bytes 2 n) ≡ n
unfolding read_length length_bytes
read_length-bytes2 n h = omega arith

pub read_length-bytes8 : (n : ℕ) → n < 2 ^ 64 → read_length 0 (length_bytes 8 n) ≡ n
unfolding read_length length_bytes
read_length-bytes8 n h = omega arith
