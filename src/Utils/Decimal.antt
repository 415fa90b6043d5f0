-- ===== src/Utils/Decimal.antt =====
-- The decimal texts of numbers, read back digit by digit.
use native.Mathlib.Nat.{pow-suc}
use crypto_trading_system.Prelude.{
  ℕ, zero, suc, ◌+◌, ◌-◌, ◌*◌, ◌/◌, ◌%◌, ◌^◌, ◌≤◌, ◌<◌, ◌≡◌, refl, ap, ◌∙◌, Bool, true, ◌&&◌, List,
  [], ◌∷◌, ◌++◌, arith, Text, length, length-append, All, ltb, nat_eqb, nat_eqb_iff, Bool-cases,
  inl, inr,
}
use crypto_trading_system.Utils.{pow10, digits_of, to_string, zeros, pad}

all_below : ℕ → (ℕ → Bool) → Bool
all_below zero p = true
all_below (suc n) p = p n && all_below n p

all_below_lem : (n : ℕ) (p : ℕ → Bool) (x : ℕ) → all_below n p ≡ true → x < n → p x ≡ true
unfolding all_below
all_below_lem zero p x h lt = absurd (omega arith)
all_below_lem (suc n) p x h lt = ground (arith, all_below_lem n p x)

pow10_table_lem : all_below 13 (λ p. nat_eqb (pow10 p) (10 ^ p)) ≡ true
unfolding all_below
pow10_table_lem = refl

pub pow10-eq : (p : ℕ) → p < 13 → pow10 p ≡ 10 ^ p
pow10-eq p h = (nat_eqb_iff (pow10 p) (10 ^ p)).0 (all_below_lem 13 _ p pow10_table_lem h)

pub ten_pow_pos : (n : ℕ) → 0 < 10 ^ n
ten_pow_pos zero = omega arith
ten_pow_pos (suc n) = omega (arith, ten_pow_pos n, pow-suc 10 n)

-- The number that a text of digits stands for, read on from `acc`.
unfoldable pub value_from : ℕ → Text → ℕ
value_from acc [] = acc
value_from acc (c ∷ s) = value_from (acc * 10 + (c - b'0')) s

abbrev pub IsDigit : ℕ → Type 0
IsDigit c = (b'0' ≤ c) × (c ≤ b'9')

pub value_from-append :
    (acc : ℕ) (s t : Text) → value_from acc (s ++ t) ≡ value_from (value_from acc s) t
unfolding value_from
value_from-append acc [] t = refl
value_from-append acc (c ∷ s) t = value_from-append (acc * 10 + (c - b'0')) s t

pub value_from-shift :
    (acc : ℕ) (s : Text) → value_from acc s ≡ acc * 10 ^ length s + value_from 0 s
unfolding value_from
value_from-shift acc [] = omega arith
value_from-shift acc (c ∷ s) = omega (
  arith,
  value_from-shift (acc * 10 + (c - b'0')) s,
  value_from-shift (0 * 10 + (c - b'0')) s,
  pow-suc 10 (length s),
  ap (λ (t : ℕ). acc * t) (pow-suc 10 (length s)),
)

pub value_from-digits_of : (fuel n : ℕ) → n < fuel → value_from 0 (digits_of fuel n) ≡ n
unfolding digits_of value_from
value_from-digits_of zero n h = absurd (omega arith)
value_from-digits_of (suc fuel) n h = ground (
  arith,
  value_from-append 0 (digits_of fuel (n / 10)) ((b'0' + n % 10) ∷ []),
  value_from-digits_of fuel (n / 10),
)

pub value_from-to_string : (n : ℕ) → value_from 0 (to_string n) ≡ n
unfolding to_string
value_from-to_string n = value_from-digits_of (suc n) n (omega arith)

pub All-append {ℓ κ} :
    {A : Type ℓ} (P : A → Type κ) (xs ys : List A) → All P xs → All P ys → All P (xs ++ ys)
All-append P [] ys hx hy = hy
All-append P (x ∷ xs) ys hx hy = (hx.0, All-append P xs ys hx.1 hy)

digits_of-IsDigit : (fuel n : ℕ) → All IsDigit (digits_of fuel n)
unfolding digits_of
digits_of-IsDigit zero n = tt
digits_of-IsDigit (suc fuel) n = elim (Bool-cases (ltb n 10)) [
  | inl small ↦ rw small (ground arith)
  | inr large ↦ rw large (
      All-append IsDigit (digits_of fuel (n / 10)) ((b'0' + n % 10) ∷ [])
        (digits_of-IsDigit fuel (n / 10)) (omega arith))
]

pub to_string-IsDigit : (n : ℕ) → All IsDigit (to_string n)
unfolding to_string
to_string-IsDigit n = digits_of-IsDigit (suc n) n

length-digits_of-le : (fuel n k : ℕ) → n < 10 ^ suc k → length (digits_of fuel n) ≤ suc k
unfolding digits_of
length-digits_of-le zero n k h = omega arith
length-digits_of-le (suc fuel) n zero h = ground arith
length-digits_of-le (suc fuel) n (suc k) h = ground (
  arith,
  length-append (digits_of fuel (n / 10)) ((b'0' + n % 10) ∷ []),
  length-digits_of-le fuel (n / 10) k,
  pow-suc 10 (suc k),
)

pub length-to_string-le : (n k : ℕ) → n < 10 ^ suc k → length (to_string n) ≤ suc k
unfolding to_string
length-to_string-le n k h = length-digits_of-le (suc n) n k h

length-zeros : (n : ℕ) → length (zeros n) ≡ n
unfolding zeros
length-zeros zero = refl
length-zeros (suc n) = ap suc (length-zeros n)

zeros-IsDigit : (n : ℕ) → All IsDigit (zeros n)
unfolding zeros
zeros-IsDigit zero = tt
zeros-IsDigit (suc n) = (omega arith, zeros-IsDigit n)

value_from-zeros : (n : ℕ) → value_from 0 (zeros n) ≡ 0
unfolding zeros value_from
value_from-zeros zero = refl
value_from-zeros (suc n) = value_from-zeros n

-- Padding to a width that the text does not exceed gives just that width, the same digits in front
-- of zeros, and the same number.
pub pad_lem :
    (width : ℕ) (s : Text)
    → length s ≤ width
    → All IsDigit s
    → (length (pad width s) ≡ width)
      × All IsDigit (pad width s)
      × (value_from 0 (pad width s) ≡ value_from 0 s)
unfolding pad
pad_lem width s h digits = (
  omega (arith, length-append (zeros (width - length s)) s, length-zeros (width - length s)),
  All-append IsDigit (zeros (width - length s)) s (zeros-IsDigit (width - length s)) digits,
  value_from-append 0 (zeros (width - length s)) s
      ∙ ap (λ k. value_from k s) (value_from-zeros (width - length s)),
)
