-- ===== src/Okx/Paging/Cursor.antt =====
-- The orders or fills that an exchange holds, and what comes after one of them in its list.
use crypto_trading_system.Prelude.{
  ◌≡◌, refl, ap, ◌∙◌, [], ◌∷◌, ◌++◌, List, false, Text, text_eq, is_empty, All, ◌==◌, if◌then◌else◌,
}
use crypto_trading_system.Prelude.{beq_refl}

module _ {J : Type 0} (id : J → Text) where
  unfoldable pub behind : Text → List J → List J
  behind cursor [] = []
  behind cursor (x ∷ xs) = if id x == cursor then xs else behind cursor xs

  -- Everything without a cursor, and what comes behind the element with the cursor's id.
  unfoldable pub after : Text → List J → List J
  unfolding behind
  after cursor xs = if is_empty cursor then xs else behind cursor xs

  -- The id of the last element, or the one given.
  abbrev pub last_or : Text → List J → Text
  last_or cursor [] = cursor
  last_or cursor (x ∷ xs) = last_or (id x) xs

  -- No two have the same id, and no id is empty.
  abbrev pub IsNumbered : List J → Type 0
  IsNumbered [] = Unit
  IsNumbered (x ∷ xs) =
      (is_empty (id x) ≡ false) × All (λ y. (id x == id y) ≡ false) xs × IsNumbered xs

  last_or-ne :
      (x y : J) (xs rest : List J)
      → All (λ z. (id x == id z) ≡ false) (y ∷ xs ++ rest)
      → (id x == last_or (id y) xs) ≡ false
  last_or-ne x y [] rest h = h.0
  last_or-ne x y (z ∷ xs) rest h = last_or-ne x z xs rest h.1

  behind-last :
      (x : J) (xs rest : List J)
      → IsNumbered (x ∷ xs ++ rest)
      → behind (last_or (id x) xs) (x ∷ xs ++ rest) ≡ rest
  unfolding behind
  behind-last x [] rest h = ap (λ b. if b then rest else behind (id x) rest) (beq_refl (id x))
  behind-last x (y ∷ xs) rest h =
      ap (λ b. if b then y ∷ xs ++ rest else behind (last_or (id y) xs) (y ∷ xs ++ rest))
        (last_or-ne x y xs rest h.1)
      ∙ behind-last y xs rest h.2

  last_or-filled :
      (x : J) (xs rest : List J)
      → IsNumbered (x ∷ xs ++ rest)
      → is_empty (last_or (id x) xs) ≡ false
  last_or-filled x [] rest h = h.0
  last_or-filled x (y ∷ xs) rest h = last_or-filled y xs rest h.2

  -- Behind the last of what has been read stands the rest.
  pub after-last :
      (xs rest : List J) → IsNumbered (xs ++ rest) → after (last_or [] xs) (xs ++ rest) ≡ rest
  unfolding after
  after-last [] rest h = refl
  after-last (x ∷ xs) rest h =
      ap (λ b. if b then x ∷ xs ++ rest else behind (last_or (id x) xs) (x ∷ xs ++ rest))
        (last_or-filled x xs rest h)
      ∙ behind-last x xs rest h

  pub last_or-append :
      (cursor : Text) (xs ys : List J) → last_or cursor (xs ++ ys) ≡ last_or (last_or cursor xs) ys
  last_or-append cursor [] ys = refl
  last_or-append cursor (x ∷ xs) ys = last_or-append (id x) xs ys
