-- ===== src/Double.antt =====
-- `double`, as far as the code computes with it: a type with the operations below. No law of them is
-- assumed here; a theorem that needs exact arithmetic takes `IsExact` as a hypothesis.
pub mod Whole
use crypto_trading_system.Prelude.{
  ◌≡◌, ℤ, pos, negsuc, ◌+ℤ◌, ◌-ℤ◌, Bool, true, false, if◌then◌else◌, sym,
}

pub record Double (D : Type 0) : Type 0 where
  pub of_int : ℤ → D  -- `static_cast<double>` of an `int64_t`, and the literal 0.0
  pub add : D → D → D
  pub sub : D → D → D
  pub mul : D → D → D
  pub div : D → D → D
  pub abs : D → D
  pub lt : D → D → Bool
  pub le : D → D → Bool
  pub round : D → ℤ  -- `static_cast<int64_t>(std::round(x))`
  pub tiny : D  -- the literal 1e-8

abbrev pub nought : {D : Type 0} ⦃d : Double D⦄ → D
nought ⦃d⦄ = d.of_int (pos 0)

-- `std::max(a, b)`: `a` unless it is less than `b`.
abbrev pub max_of : {D : Type 0} ⦃d : Double D⦄ → D → D → D
max_of ⦃d⦄ a b = if d.lt a b then b else a

-- Sums and differences of the values at hand lose nothing. Of binary floating point this holds of
-- the sums that need no rounding, and not in general.
pub record IsExact (D : Type 0) ⦃d : Double D⦄ : Type 0 where
  pub add_comm : (a b : D) → d.add a b ≡ d.add b a
  pub add_assoc : (a b c : D) → d.add (d.add a b) c ≡ d.add a (d.add b c)
  pub mul_comm : (a b : D) → d.mul a b ≡ d.mul b a
  pub add_nought : (a : D) → d.add a (d.of_int (pos 0)) ≡ a
  pub sub-add : (a b : D) → d.add (d.sub a b) b ≡ a
  pub add-sub : (a b : D) → d.sub (d.add a b) b ≡ a

-- The two conversions that `Decode` is made of lose nothing at this precision: sums of scaled
-- integers become sums of values.
abbrev pub IsAdditive : {D : Type 0} ⦃d : Double D⦄ → (ℤ → D) → Type 0
IsAdditive ⦃d⦄ value = (a b : ℤ) → value (a +ℤ b) ≡ d.add (value a) (value b)

module _ {D : Type 0} ⦃d : Double D⦄ (exact : IsExact D) where
  open d use {add, sub}

  -- A difference is determined by what it adds up to.
  sub-eq_of_add : (a b c : D) → a ≡ add c b → sub a b ≡ c
  sub-eq_of_add a b c e = rw e (exact.add-sub c b)

  pub sub_sub : (a b c : D) → sub (sub a b) c ≡ sub a (add b c)
  sub_sub a b c = sym (sub-eq_of_add a (add b c) (sub (sub a b) c) (sym whole))
    where
      whole : add (sub (sub a b) c) (add b c) ≡ a
      whole =
          rw (exact.add_comm b c, ← exact.add_assoc, exact.sub-add (sub a b) c, exact.sub-add a b)

  -- Moving an amount from one account to another keeps their sum.
  pub move_lem : (a b x : D) → add (sub a x) (add b x) ≡ add a b
  move_lem a b x = rw (exact.add_comm b x, ← exact.add_assoc, exact.sub-add a x)

  pub sub_nought : (a : D) → sub a (d.of_int (pos 0)) ≡ a
  sub_nought a = sub-eq_of_add a _ a (sym (exact.add_nought a))
