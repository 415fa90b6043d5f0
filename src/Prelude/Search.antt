-- ===== src/Prelude/Search.antt =====
-- `std::string::find` for a text that is not empty.
use Prim.Native.Nat.{ℕ, suc}
use mathlib.Core.Path.{◌≡◌}
use mathlib.Core.Logic.{◌≢◌}
use mathlib.Core.Bool.{Bool, true, false, ◌&&◌, ◌||◌}
use mathlib.Core.Option.{Option, none, some}
use mathlib.Core.List.{[], ◌∷◌, ◌++◌}
use native.Mathlib.Omega.{arith}
use crypto_trading_system.Prelude.Lists.{length, All}
use crypto_trading_system.Prelude.Tests.{nat_eqb, if◌then◌else◌}
use crypto_trading_system.Prelude.Texts.{Text}

abbrev pub starts_with : Text → Text → Bool
starts_with [] text = true
starts_with (n ∷ needle) [] = false
starts_with (n ∷ needle) (c ∷ text) = nat_eqb n c && starts_with needle text

-- `text.find(needle) != std::string::npos`
unfoldable pub mentions : Text → Text → Bool
mentions needle [] = starts_with needle []
mentions needle (c ∷ text) = starts_with needle (c ∷ text) || mentions needle text

abbrev pub one_later : Option ℕ → Option ℕ
one_later none = none
one_later (some i) = some (suc i)

-- `text.find(needle)`; the `none` is `npos`.
unfoldable pub index_of : Text → Text → Option ℕ
index_of needle [] = none
index_of needle (c ∷ text) =
    let later = one_later (index_of needle text) in
    if starts_with needle (c ∷ text) then some 0 else later

-- Behind bytes that are not the first of the needle, it is found where it stands.
pub index_of-append :
    (n : ℕ) (needle before after : Text)
    → All (λ c. c ≢ n) before
    → starts_with (n ∷ needle) after ≡ true
    → index_of (n ∷ needle) (before ++ after) ≡ some (length before)
unfolding index_of
index_of-append n needle [] [] other h = cc
index_of-append n needle [] (c ∷ after) other h = ground arith
index_of-append n needle (c ∷ before) after other h =
    ground (arith, index_of-append n needle before after other.1 h, other.0)
