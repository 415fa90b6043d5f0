-- ===== src/Okx/Paging/Complete.antt =====
-- What the paging queries of src/clients/okx/okx.cpp return of what the exchange holds.
use crypto_trading_system.Prelude.{
  ◌≡◌, refl, sym, ap, ap₂, subst, ◌∙◌, ℕ, zero, suc, ◌+◌, ◌-◌, ◌/◌, ◌<◌, ◌≤◌, [], ◌∷◌, ◌++◌, List,
  map, Option, none, some, Text, arith, ltb, length, take, drop, All, true, false, if◌then◌else◌,
  append_assoc, append-nil, Bool-cases, inl, inr, take_all, length-take, take-append-drop,
}
use crypto_trading_system.Okx.Paging.{Page, start_page, read_page, read_pages}
use crypto_trading_system.Okx.Paging.Cursor.{after, last_or, IsNumbered, after-last, last_or-append}

-- What is kept of the elements: those that can be read.
abbrev pub kept : {J A : Type 0} → (J → Option A) → List J → List A
kept read [] = []
kept read (x ∷ xs) = elim (read x) [ none ↦ kept read xs | some a ↦ a ∷ kept read xs ]

pub kept-append :
    {J A : Type 0} (read : J → Option A) (xs ys : List J)
    → kept read (xs ++ ys) ≡ kept read xs ++ kept read ys
kept-append read [] ys = refl
kept-append read (x ∷ xs) ys = ground (arith, kept-append read xs ys)

length-drop : {J : Type 0} (n : ℕ) (xs : List J) → length (drop n xs) ≡ length xs - n
length-drop zero xs = omega arith
length-drop (suc n) [] = omega arith
length-drop (suc n) (x ∷ xs) = omega (arith, length-drop n xs)

all_taken : {J : Type 0} (xs : List J) → ltb (length (take 100 xs)) 100 ≡ true → take 100 xs ≡ xs
all_taken xs h = take_all 100 xs (ground (arith, length-take 100 xs))

All-tail : {J : Type 0} (P : J → Type 0) (xs ys : List J) → All P (xs ++ ys) → All P ys
All-tail P [] ys h = h
All-tail P (x ∷ xs) ys h = All-tail P xs ys h.1

All-take : {J : Type 0} (P : J → Type 0) (n : ℕ) (xs : List J) → All P xs → All P (take n xs)
All-take P zero xs h = tt
All-take P (suc n) [] h = tt
All-take P (suc n) (x ∷ xs) h = (h.0, All-take P n xs h.1)

length-take-le_self : {J : Type 0} (n : ℕ) (xs : List J) → length (take n xs) ≤ length xs
length-take-le_self zero xs = omega arith
length-take-le_self (suc n) [] = omega arith
length-take-le_self (suc n) (x ∷ xs) = omega (arith, length-take-le_self n xs)

le_of_ltb : (n : ℕ) → ltb n 100 ≡ false → 100 ≤ n
le_of_ltb n h = ground arith

-- A full page leaves a hundred fewer.
fewer :
    {J : Type 0} (xs : List J) (fuel : ℕ)
    → length xs / 100 < suc fuel
    → ltb (length (take 100 xs)) 100 ≡ false
    → length (drop 100 xs) / 100 < fuel
fewer xs fuel h more =
    let full : 100 ≤ length xs =
      omega (arith, le_of_ltb (length (take 100 xs)) more, length-take-le_self 100 xs) in
    omega (arith, length-drop 100 xs, full)

module _ {J : Type 0} (id : J → Text) where
  last_or-any : (c e : Text) (xs : List J) → 0 < length xs → last_or id c xs ≡ last_or id e xs
  last_or-any c e [] h = absurd (omega arith)
  last_or-any c e (x ∷ xs) h = refl

  next_cursor :
      (xs rest : List J)
      → ltb (length (take 100 rest)) 100 ≡ false
      → last_or id [] (take 100 rest) ≡ last_or id [] (xs ++ take 100 rest)
  next_cursor xs rest more =
      last_or-any [] (last_or id [] xs) (take 100 rest) (ground arith)
      ∙ sym (last_or-append id [] xs (take 100 rest))

module _ {J A : Type 0} (id : J → Text) (parse : J → Option A) where
  -- The element is kept if it can be read, moves the cursor, and is counted.
  abbrev pub Counts : (J → Page A → Page A) → J → Type 0
  Counts read x =
      (page : Page A)
      → read x page ≡ record {
        result = page.result ++ kept parse (x ∷ []);
        last_id = id x;
        data_count = page.data_count + 1;
      }

  module _ (read : J → Page A → Page A) where
    read_page-whole :
        (xs : List J) (page : Page A)
        → All (Counts read) xs
        → read_page read (map some xs) page ≡ record {
          result = page.result ++ kept parse xs;
          last_id = last_or id page.last_id xs;
          data_count = page.data_count + length xs;
        }
    unfolding read_page
    read_page-whole [] page h = ground (arith, append-nil page.result)
    read_page-whole (x ∷ xs) page h =
        let next : Page A = record {
          result = page.result ++ kept parse (x ∷ []);
          last_id = id x;
          data_count = page.data_count + 1;
        } in
        let results : next.result ++ kept parse xs ≡ page.result ++ kept parse (x ∷ xs) =
          append_assoc page.result (kept parse (x ∷ [])) (kept parse xs)
          ∙ ap (λ (ys : List A). page.result ++ ys) (sym (kept-append parse (x ∷ []) xs)) in
        let counts : next.data_count + length xs ≡ page.data_count + suc (length xs) =
          omega arith in
        ap (read_page read (map some xs)) (h.0 page)
        ∙ read_page-whole xs next h.1
        ∙ ap₂
            (λ (r : List A) (n : ℕ). record {
              result = r;
              last_id = last_or id (id x) xs;
              data_count = n;
            })
            results counts

    module _ (path : Text → Text) (data_of : Text → Option (List (Option J)))
        (exchange : Text → Text) where
      -- One round, for the page that it reads.
      pub read_pages-round :
          (fuel : ℕ) (cursor : Text) (result : List A) (elements : List (Option J)) (page : Page A)
          → data_of (exchange (path cursor)) ≡ some elements
          → read_page read elements (start_page result) ≡ page
          → read_pages path data_of read exchange (suc fuel) cursor result ≡ (
              if ltb page.data_count 100
              then some page.result
              else read_pages path data_of read exchange fuel page.last_id page.result)
      unfolding read_pages
      read_pages-round fuel cursor result elements page served told =
          let then_read : Page A → Option (List A) = λ p.
            if ltb p.data_count 100
            then some p.result
            else read_pages path data_of read exchange fuel p.last_id p.result in
          let answered : Option (List (Option J)) → Option (List A) = λ o. elim o [
            | none ↦ some result
            | some es ↦ then_read (read_page read es (start_page result))
          ] in
          ap answered served ∙ ap then_read told

    module _ (path : Text → Text) (data_of : Text → Option (List (Option J)))
        (exchange : Text → Text) (held : List J) (numbered : IsNumbered id held)
        (counted : All (Counts read) held)
        (serves : (cursor : Text)
          → data_of (exchange (path cursor))
            ≡ some (map some (take 100 (after id cursor held)))) where
      -- From any point of the list on, the loop reads all that is left.
      read_pages-from :
          (fuel : ℕ) (xs rest : List J) (result : List A)
          → held ≡ xs ++ rest
          → length rest / 100 < fuel
          → read_pages path data_of read exchange fuel (last_or id [] xs) result
            ≡ some (result ++ kept parse rest)
      unfolding read_pages
      read_pages-from zero xs rest result split f = elim f [ ]
      read_pages-from (suc fuel) xs rest result split f =
          let cursor = last_or id [] xs in
          let here : after id cursor held ≡ rest =
            ap (after id cursor) split
            ∙ after-last id xs rest (subst (IsNumbered id) split numbered) in
          let elements = map some (take 100 rest) in
          let page : Page A = record {
            result = result ++ kept parse (take 100 rest);
            last_id = last_or id [] (take 100 rest);
            data_count = length (take 100 rest);
          } in
          let served : data_of (exchange (path cursor)) ≡ some elements =
            serves cursor ∙ ap (λ ys. some (map some (take 100 ys))) here in
          let zero_add : 0 + length (take 100 rest) ≡ length (take 100 rest) = omega arith in
          let told : read_page read elements (start_page result) ≡ page =
            read_page-whole (take 100 rest) (start_page result) (
              All-take (Counts read) 100 rest
                (All-tail (Counts read) xs rest (subst (All (Counts read)) split counted)))
            ∙ ap (λ (n : ℕ). record page { data_count = n }) zero_add in
          let round =
            read_pages-round path data_of exchange fuel cursor result elements page served told in
          let whole = take-append-drop 100 rest in
          elim (Bool-cases (ltb (length (take 100 rest)) 100)) [
            | inl last ↦
                round ∙ rw last (ap (λ ys. some (result ++ kept parse ys)) (all_taken rest last))
            | inr more ↦
                round
                ∙ rw more (
                    ap (λ (c : Text). read_pages path data_of read exchange fuel c page.result)
                      (next_cursor id xs rest more)
                    ∙ read_pages-from fuel (xs ++ take 100 rest) (drop 100 rest) page.result
                        (split
                          ∙ ap (λ ys. xs ++ ys) (sym whole)
                          ∙ sym (append_assoc xs (take 100 rest) (drop 100 rest)))
                        (fewer rest fuel f more)
                    ∙ ap (λ ys. some ys)
                        (append_assoc result (kept parse (take 100 rest))
                            (kept parse (drop 100 rest))
                          ∙ ap (λ ys. result ++ ys)
                              (sym (kept-append parse (take 100 rest) (drop 100 rest))
                                ∙ ap (kept parse) whole)))
          ]

      -- Enough fuel is one round more than there are full pages.
      pub read_pages_complete :
          (fuel : ℕ)
          → length held / 100 < fuel
          → read_pages path data_of read exchange fuel [] [] ≡ some (kept parse held)
      read_pages_complete fuel enough = read_pages-from fuel [] held [] refl enough
