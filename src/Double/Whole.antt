-- ===== src/Double/Whole.antt =====
-- Whole numbers as a `Double`, exact in every operation but division: the value at which the
-- theorems about any `Double` are evaluated and their hypotheses are met.
use crypto_trading_system.Prelude.{◌/◌, ◌≡◌, ap₂, ℤ, pos, ◌+ℤ◌, ◌-ℤ◌, ltb_ℤ, leb_ℤ, arith}
use crypto_trading_system.Prelude.Int.{◌*ℤ◌, nat_abs, sub_ℕ, int_laws, pos_part, neg_part}
use crypto_trading_system.Double.{Double, IsExact, IsAdditive}

-- Division that drops the remainder, by a divisor above zero.
abbrev pub div_ℤ : ℤ → ℤ → ℤ
div_ℤ a b = sub_ℕ (pos_part a / pos_part b) (neg_part a / pos_part b)

instance abbrev pub whole_double : Double ℤ
whole_double = record {
  of_int = λ a. a;
  add = ◌+ℤ◌;
  sub = ◌-ℤ◌;
  mul = ◌*ℤ◌;
  div = div_ℤ;
  abs = λ a. pos (nat_abs a);
  lt = ltb_ℤ;
  le = leb_ℤ;
  round = λ a. a;
  tiny = pos 0;
}

*ℤ_comm : (a b : ℤ) → a *ℤ b ≡ b *ℤ a
unfolding ◌*ℤ◌
*ℤ_comm a b = ap₂ sub_ℕ (omega arith) (omega arith)

+ℤ_assoc : (a b c : ℤ) → a +ℤ b +ℤ c ≡ a +ℤ (b +ℤ c)
+ℤ_assoc a b c = omega int_laws

pub Whole-IsExact : IsExact ℤ
Whole-IsExact = record {
  add_comm = λ a b. omega int_laws;
  add_assoc = +ℤ_assoc;
  mul_comm = *ℤ_comm;
  add_nought = λ a. omega int_laws;
  sub-add = λ a b. omega int_laws;
  add-sub = λ a b. omega int_laws;
}

-- At precision 0, where `kPow10` is 1, whole numbers are decoded to themselves.
div_ℤ-one : (a : ℤ) → div_ℤ a (pos 1) ≡ a
div_ℤ-one a = ground arith

pub div_ℤ-one-IsAdditive : IsAdditive (λ a. div_ℤ a (pos 1))
div_ℤ-one-IsAdditive a b = rw (div_ℤ-one a, div_ℤ-one b, div_ℤ-one (a +ℤ b))
