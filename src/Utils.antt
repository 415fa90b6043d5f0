-- ===== src/Utils.antt =====
-- sdk/include/utils.hpp: prices and volumes as scaled integers, and their decimal texts.
pub mod Format
pub mod Decimal
use crypto_trading_system.Prelude.{
  ℕ, zero, suc, ◌+◌, ◌-◌, ◌/◌, ◌%◌, Bool, List, [], ◌∷◌, ◌++◌, Text, ℤ, pos, negsuc, ltb, ltb_ℤ,
  nat_eqb, length, get_or, if◌then◌else◌,
}
use crypto_trading_system.Prelude.Int.{nat_abs}
use crypto_trading_system.Double.{Double}

-- `kPow10`
abbrev pub pow10_table : List ℕ
pow10_table =
    1 ∷ 10 ∷ 100 ∷ 1_000 ∷ 10_000 ∷ 100_000 ∷ 1_000_000 ∷ 10_000_000 ∷ 100_000_000 ∷ 1_000_000_000
    ∷ 10_000_000_000 ∷ 100_000_000_000 ∷ 1_000_000_000_000 ∷ []

-- `kPow10[precision]`. The code does not check the index: what a precision above 12 reads is not
-- defined, here 1.
abbrev pub pow10 : ℕ → ℕ
pow10 precision = get_or pow10_table precision 1

module _ {D : Type 0} ⦃d : Double D⦄ where
  unfoldable pub encode : D → ℕ → ℤ
  encode value precision = d.round (d.mul value (d.of_int (pos (pow10 precision))))

  unfoldable pub decode : ℤ → ℕ → D
  decode scaled precision = d.div (d.of_int scaled) (d.of_int (pos (pow10 precision)))

-- The decimal digits of a number, most significant first: `std::to_string`, `%lld`. There are fewer
-- digits than `fuel` wherever the number is below it.
unfoldable pub digits_of : ℕ → ℕ → Text
digits_of zero n = []
digits_of (suc fuel) n =
    let rest = digits_of fuel (n / 10) ++ ((b'0' + n % 10) ∷ []) in
    if ltb n 10 then (b'0' + n) ∷ [] else rest

unfoldable pub to_string : ℕ → Text
unfolding digits_of
to_string n = digits_of (suc n) n

unfoldable pub to_string_ℤ : ℤ → Text
unfolding to_string
to_string_ℤ (pos n) = to_string n
to_string_ℤ (negsuc n) = b'-' ∷ to_string (suc n)

-- `%0*lld` pads with zeros on the left.
unfoldable pub zeros : ℕ → Text
zeros zero = []
zeros (suc n) = b'0' ∷ zeros n

unfoldable pub pad : ℕ → Text → Text
unfolding zeros
pad width s = zeros (width - length s) ++ s

-- `Format`. The buffer of 64 bytes is never too small: a sign, 19 digits, a point and 12 digits.
unfoldable pub format : ℤ → ℕ → Text
unfolding to_string_ℤ to_string pad
format scaled zero = to_string_ℤ scaled
format scaled (suc p) =
    let precision = suc p in
    let negative = ltb_ℤ scaled (pos 0) in
    let abs_scaled = nat_abs scaled in
    let integer_part = abs_scaled / pow10 precision in
    let frac_part = abs_scaled % pow10 precision in
    (if negative then b'-' ∷ [] else [])
    ++ (to_string integer_part ++ (b'.' ∷ pad precision (to_string frac_part)))

-- The text behind the first point, if there is one.
unfoldable pub after_dot : Text → Text
after_dot [] = []
after_dot (c ∷ s) = if nat_eqb c b'.' then s else after_dot s

unfoldable pub count_decimal_places : Text → ℕ
unfolding after_dot
count_decimal_places str = length (after_dot str)
