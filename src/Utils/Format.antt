-- ===== src/Utils/Format.antt =====
-- What `Format` and `CountDecimalPlaces` of sdk/include/utils.hpp promise.
use native.Mathlib.Nat.{mod-lt, div-add-mod}
use crypto_trading_system.Prelude.{
  ℕ, zero, suc, ◌+◌, ◌*◌, ◌/◌, ◌%◌, ◌^◌, ◌<◌, ◌≡◌, refl, ap, ◌∙◌, [], ◌∷◌, ◌++◌, arith, Text,
  length, All, nat_eqb, ℤ, pos, negsuc, if◌then◌else◌,
}
use crypto_trading_system.Prelude.Int.{sub_ℕ}
use crypto_trading_system.Utils.{pow10, to_string, pad, format, after_dot, count_decimal_places}
use crypto_trading_system.Utils.Decimal.{
  pow10-eq, value_from, IsDigit, value_from-append, value_from-shift, value_from-to_string,
  to_string-IsDigit, length-to_string-le, pad_lem, ten_pow_pos,
}

-- How a decimal text is read as a scaled integer, independently of `Format`: leave the point out,
-- and take a sign in front off.
unfoldable pub without_dot : Text → Text
without_dot [] = []
without_dot (c ∷ s) = if nat_eqb c b'.' then s else c ∷ without_dot s

unfoldable pub read_scaled : Text → ℤ
unfolding without_dot value_from
read_scaled [] = pos 0
read_scaled (c ∷ s) =
    if nat_eqb c b'-'
    then sub_ℕ 0 (value_from 0 (without_dot s))
    else pos (value_from 0 (without_dot (c ∷ s)))

without_dot-digits : (s : Text) → All IsDigit s → without_dot s ≡ s
unfolding without_dot
without_dot-digits [] h = refl
without_dot-digits (c ∷ s) h = ground (arith, without_dot-digits s h.1)

without_dot-point : (s t : Text) → All IsDigit s → without_dot (s ++ (b'.' ∷ t)) ≡ s ++ t
unfolding without_dot
without_dot-point [] t h = refl
without_dot-point (c ∷ s) t h = ground (arith, without_dot-point s t h.1)

after_dot-point : (s t : Text) → All IsDigit s → after_dot (s ++ (b'.' ∷ t)) ≡ t
unfolding after_dot
after_dot-point [] t h = refl
after_dot-point (c ∷ s) t h = ground (arith, after_dot-point s t h.1)

after_dot-digits : (s : Text) → All IsDigit s → after_dot s ≡ []
unfolding after_dot
after_dot-digits [] h = refl
after_dot-digits (c ∷ s) h = ground (arith, after_dot-digits s h.1)

-- The text of `Format` for a magnitude, without the sign, where `scale` is the power of ten.
abbrev body : ℕ → ℕ → ℕ → Text
body n p scale = to_string (n / scale) ++ (b'.' ∷ pad (suc p) (to_string (n % scale)))

module _ (n p scale : ℕ) (power : scale ≡ 10 ^ suc p) where
  fraction_lem :
      let fraction = pad (suc p) (to_string (n % scale)) in
      (length fraction ≡ suc p) × All IsDigit fraction × (value_from 0 fraction ≡ n % scale)
  fraction_lem =
      let small : n % scale < 10 ^ suc p =
        omega (arith, mod-lt n {m = scale} (omega (arith, ten_pow_pos (suc p), power)), power) in
      let (width, digits, same) =
        pad_lem (suc p) (to_string (n % scale)) (length-to_string-le (n % scale) p small)
          (to_string-IsDigit (n % scale)) in
      (width, digits, same ∙ value_from-to_string (n % scale))

  value_from-body : value_from 0 (without_dot (body n p scale)) ≡ n
  value_from-body =
      let fraction = pad (suc p) (to_string (n % scale)) in
      rw
        (
          without_dot-point (to_string (n / scale)) fraction (to_string-IsDigit (n / scale)),
          value_from-append 0 (to_string (n / scale)) fraction,
          value_from-to_string (n / scale),
        )
        (omega (
          arith,
          value_from-shift (n / scale) fraction,
          fraction_lem.2,
          ap (λ k. n / scale * 10 ^ k) fraction_lem.0,
          ap (λ (k : ℕ). n / scale * k) power,
          div-add-mod n scale,
        ))

  after_dot-body : length (after_dot (body n p scale)) ≡ suc p
  after_dot-body =
      let fraction = pad (suc p) (to_string (n % scale)) in
      ap length (after_dot-point (to_string (n / scale)) fraction (to_string-IsDigit (n / scale)))
      ∙ fraction_lem.0

read_scaled-digits : (s : Text) → All IsDigit s → read_scaled s ≡ pos (value_from 0 s)
unfolding read_scaled
read_scaled-digits [] h = refl
read_scaled-digits (c ∷ s) h = ground (arith, without_dot-digits (c ∷ s) h)

read_scaled-point :
    (s t : Text)
    → All IsDigit s
    → read_scaled (s ++ (b'.' ∷ t)) ≡ pos (value_from 0 (without_dot (s ++ (b'.' ∷ t))))
unfolding read_scaled
read_scaled-point [] t h = refl
read_scaled-point (c ∷ s) t h = ground arith

read_scaled-minus : (s : Text) → read_scaled (b'-' ∷ s) ≡ sub_ℕ 0 (value_from 0 (without_dot s))
unfolding read_scaled
read_scaled-minus s = refl

format-pos : (n p : ℕ) → format (pos n) (suc p) ≡ body (n + 0) p (pow10 (suc p))
unfolding format
format-pos n p = ground arith

format-negsuc : (n p : ℕ) → format (negsuc n) (suc p) ≡ b'-' ∷ body (0 + suc n) p (pow10 (suc p))
unfolding format
format-negsuc n p = ground arith

-- The text of `Format` stands for exactly the scaled integer, its sign included, for each precision
-- that `kPow10` covers.
pub format_exact : (scaled : ℤ) (p : ℕ) → p < 13 → read_scaled (format scaled p) ≡ scaled
unfolding format
format_exact (pos n) zero h =
    read_scaled-digits (to_string n) (to_string-IsDigit n) ∙ ap pos (value_from-to_string n)
format_exact (negsuc n) zero h =
    rw
      (
        read_scaled-minus (to_string (suc n)),
        without_dot-digits (to_string (suc n)) (to_string-IsDigit (suc n)),
        value_from-to_string (suc n),
      )
      (ground arith)
format_exact (pos n) (suc p) h =
    let scale = pow10 (suc p) in
    ap read_scaled (format-pos n p)
    ∙ read_scaled-point (to_string ((n + 0) / scale)) (pad (suc p) (to_string ((n + 0) % scale)))
        (to_string-IsDigit ((n + 0) / scale))
    ∙ ap pos (value_from-body (n + 0) p scale (pow10-eq (suc p) h) ∙ omega arith)
format_exact (negsuc n) (suc p) h =
    let scale = pow10 (suc p) in
    ap read_scaled (format-negsuc n p)
    ∙ read_scaled-minus (body (0 + suc n) p scale)
    ∙ ap (sub_ℕ 0) (value_from-body (0 + suc n) p scale (pow10-eq (suc p) h))
    ∙ ground arith

after_dot-minus : (s : Text) → after_dot (b'-' ∷ s) ≡ after_dot s
unfolding after_dot
after_dot-minus s = refl

-- `CountDecimalPlaces` reads back the precision that `Format` was given, for each precision that
-- `kPow10` covers.
pub count_decimal_places-format :
    (scaled : ℤ) (p : ℕ) → p < 13 → count_decimal_places (format scaled p) ≡ p
unfolding format count_decimal_places
count_decimal_places-format (pos n) zero h =
    ap length (after_dot-digits (to_string n) (to_string-IsDigit n))
count_decimal_places-format (negsuc n) zero h = ap length (
    after_dot-minus (to_string (suc n))
    ∙ after_dot-digits (to_string (suc n)) (to_string-IsDigit (suc n)))
count_decimal_places-format (pos n) (suc p) h =
    ap (λ t. length (after_dot t)) (format-pos n p)
    ∙ after_dot-body (n + 0) p (pow10 (suc p)) (pow10-eq (suc p) h)
count_decimal_places-format (negsuc n) (suc p) h =
    ap (λ t. length (after_dot t)) (format-negsuc n p)
    ∙ ap length (after_dot-minus (body (0 + suc n) p (pow10 (suc p))))
    ∙ after_dot-body (0 + suc n) p (pow10 (suc p)) (pow10-eq (suc p) h)
