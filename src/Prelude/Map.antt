-- ===== src/Prelude/Map.antt =====
-- `std::map` and `std::unordered_map` as association lists. The order of the list is the order in
-- which a loop over the map sees its entries.
use mathlib.Core.Path.{◌≡◌, refl, ap}
use mathlib.Core.Logic.{◌≢◌}
use mathlib.Core.Bool.{Bool}
use mathlib.Core.Option.{Option, none, some}
use mathlib.Core.List.{List, [], ◌∷◌}
use native.Mathlib.Omega.{arith}
use crypto_trading_system.Prelude.Tests.{if◌then◌else◌, is_some, get_or_else}
use crypto_trading_system.Prelude.Equality.{Eq, ◌==◌, beq_refl, beq_of_ne}

abbrev pub Map : Type 0 → Type 0 → Type 0
Map K V = List (K × V)

module _ {K V : Type 0} ⦃e : Eq K⦄ where
  unfoldable pub find : K → Map K V → Option V
  find k [] = none
  find k ((j, v) ∷ m) = if j == k then some v else find k m

  -- `m[k] = v`
  unfoldable pub assign : K → V → Map K V → Map K V
  assign k v [] = (k, v) ∷ []
  assign k v ((j, w) ∷ m) = if j == k then (k, v) ∷ m else (j, w) ∷ assign k v m

  -- `m.erase(k)`
  unfoldable pub erase : K → Map K V → Map K V
  erase k [] = []
  erase k ((j, w) ∷ m) = let rest = erase k m in if j == k then rest else (j, w) ∷ rest

  abbrev pub contains : K → Map K V → Bool
  contains k m = is_some (find k m)

  -- `m[k]` where it is read: the value, or the default that `operator[]` would insert.
  abbrev pub at_or : V → K → Map K V → V
  at_or d k m = get_or_else d (find k m)

  -- `m[k]` where it is written through: the entry is made from the default if it is missing.
  abbrev pub modify : V → K → (V → V) → Map K V → Map K V
  modify d k f m = assign k (f (at_or d k m)) m

  pub find-assign :
      (k j : K) (v : V) (m : Map K V)
      → find j (assign k v m) ≡ (if k == j then some v else find j m)
  unfolding find assign
  find-assign k j v [] = refl
  find-assign k j v ((i, w) ∷ m) =
      ground (arith, e.beq_iff k j, e.beq_iff i k, e.beq_iff i j, find-assign k j v m)

  pub find-erase :
      (k j : K) (m : Map K V) → find j (erase k m) ≡ (if k == j then none else find j m)
  unfolding find erase
  find-erase k j [] = ground arith
  find-erase k j ((i, w) ∷ m) =
      ground (arith, e.beq_iff k j, e.beq_iff i k, e.beq_iff i j, find-erase k j m)

  pub find-assign_self : (k : K) (v : V) (m : Map K V) → find k (assign k v m) ≡ some v
  find-assign_self k v m = rw (find-assign, beq_refl)

  pub find-assign_ne : (k j : K) (v : V) (m : Map K V) → k ≢ j → find j (assign k v m) ≡ find j m
  find-assign_ne k j v m h = rw (find-assign, beq_of_ne k j h)

  pub find-erase_self : (k : K) (m : Map K V) → find k (erase k m) ≡ none
  find-erase_self k m = rw (find-erase, beq_refl)

  pub find-erase_ne : (k j : K) (m : Map K V) → k ≢ j → find j (erase k m) ≡ find j m
  find-erase_ne k j m h = rw (find-erase, beq_of_ne k j h)

  pub at_or-modify :
      (d : V) (k j : K) (f : V → V) (m : Map K V)
      → at_or d j (modify d k f m) ≡ (if k == j then f (at_or d j m) else at_or d j m)
  at_or-modify d k j f m = ground (arith, e.beq_iff k j, find-assign k j (f (at_or d k m)) m)

  pub at_or-modify_self :
      (d : V) (k : K) (f : V → V) (m : Map K V) → at_or d k (modify d k f m) ≡ f (at_or d k m)
  at_or-modify_self d k f m = ap (get_or_else d) (find-assign_self k (f (at_or d k m)) m)

  pub at_or-modify_ne :
      (d : V) (k j : K) (f : V → V) (m : Map K V) → k ≢ j → at_or d j (modify d k f m) ≡ at_or d j m
  at_or-modify_ne d k j f m h = ap (get_or_else d) (find-assign_ne k j (f (at_or d k m)) m h)

  pub assign-assign : (k : K) (v w : V) (m : Map K V) → assign k v (assign k w m) ≡ assign k v m
  unfolding assign
  assign-assign k v w [] = ground (arith, e.beq_iff k k)
  assign-assign k v w ((j, x) ∷ m) =
      ground (arith, e.beq_iff j k, e.beq_iff k k, assign-assign k v w m)

  -- Writing back the value that is there changes nothing.
  pub assign-found : (k : K) (v : V) (m : Map K V) → find k m ≡ some v → assign k v m ≡ m
  unfolding assign find
  assign-found k v [] h = cc
  assign-found k v ((j, x) ∷ m) h = ground (arith, e.beq_iff j k, assign-found k v m)

  pub erase-erase : (k : K) (m : Map K V) → erase k (erase k m) ≡ erase k m
  unfolding erase
  erase-erase k [] = refl
  erase-erase k ((j, x) ∷ m) = ground (arith, erase-erase k m)
