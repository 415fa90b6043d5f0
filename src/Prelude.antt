-- ===== src/Prelude.antt =====
-- Names that every module of the library shares: those of the standard libraries, passed on, and
-- the small tests, lists, signed integers, texts and maps on which the model of the C++ code stands.
mod Tests
mod Lists
pub mod Int
mod Equality
pub mod Search
mod Texts
pub mod Map
pub use Tests.*
pub use Lists.*
pub use Equality.*
pub use Texts.{Text, codes, text_eqb_iff, text_eq, is_empty}
unfoldable pub use Texts.{text_eqb}
pub use Int.{ℤ, pos, negsuc, ◌+ℤ◌, ◌-ℤ◌, ◌≤ℤ◌, ltb_ℤ, leb_ℤ}
pub use Prim.Native.Nat.{ℕ, zero, suc, ◌+◌, ◌-◌, ◌*◌, ◌/◌, ◌%◌, ◌^◌, ◌≤◌, ◌<◌}
pub use mathlib.Core.Path.{◌≡◌, refl, sym, ap, ap₂, ◌∙◌, subst, fun_ext}
pub use mathlib.Core.Logic.{◌≢◌, ◌↔◌, ◌⊎◌, inl, inr}
pub use mathlib.Core.Bool.{Bool, true, false, not, ◌&&◌, ◌||◌}
pub use mathlib.Core.Option.{Option, none, some}
pub use mathlib.Core.List.{List, [], ◌∷◌, ◌++◌, map, append-nil, append_assoc}
pub use native.Mathlib.Omega.{arith}
