-- ===== src/Ring/Feed.antt =====
-- A ring between a producer and a consumer, as long as it has room: what is pushed is popped in that
-- order, and nothing is lost.
use crypto_trading_system.Prelude.{
  ◌≡◌, refl, sym, ap, subst, ◌∙◌, ℕ, zero, suc, ◌+◌, ◌-◌, ◌^◌, ◌<◌, ◌≤◌, [], ◌∷◌, ◌++◌, List, Bool,
  true, false, arith, length, append-nil, append_assoc, length-append,
}
use crypto_trading_system.Ring.{Ring, fresh, replicate, shm_push, shm_pop}
use crypto_trading_system.Ring.Refine.{
  IsValid, contents, queue_push, queue_pop, shm_push_refines, shm_pop_refines, tail-shm_push-le,
  tail-shm_pop,
}

module _ {A : Type 0} where
  -- What a pop found.
  abbrev pub found : Bool → A → List A
  found true x = x ∷ []
  found false x = []

  abbrev pub popped : Bool × A × Ring A → List A
  popped p = found p.0 p.1

  abbrev pub push_all : ℕ → List A → Ring A → Ring A
  push_all c [] r = r
  push_all c (x ∷ xs) r = push_all c xs (shm_push c r x).1

  -- A ring that can take `n` more entries: it is valid, its counter does not wrap, and there is room
  -- for them even if nothing is popped.
  pub record Takes (d : A) (c n : ℕ) (r : Ring A) : Type 0 where
    pub valid : IsValid c r
    pub unwrapped : r.tail + n < 2 ^ 64
    pub room : length (contents d c r) + n ≤ c

  module _ (d : A) (c : ℕ) where
    queue_push-room : (q : List A) (x : A) → length q < c → (queue_push c q x).1 ≡ q ++ (x ∷ [])
    queue_push-room q x room = ground arith

    contents-push :
        (x : A) (r : Ring A) (n : ℕ)
        → Takes d c (suc n) r
        → contents d c (shm_push c r x).1 ≡ contents d c r ++ (x ∷ [])
    contents-push x r n t =
        ap (λ p. p.1) (shm_push_refines d c r x t.valid (omega (arith, t.unwrapped))).0
        ∙ queue_push-room (contents d c r) x (omega (arith, t.room))

    Takes-push : (x : A) (r : Ring A) (n : ℕ) → Takes d c (suc n) r → Takes d c n (shm_push c r x).1
    Takes-push x r n t = record {
      valid = (shm_push_refines d c r x t.valid (omega (arith, t.unwrapped))).1;
      unwrapped = omega (arith, t.unwrapped, tail-shm_push-le c r x);
      room = omega (
        arith,
        t.room,
        ap length (contents-push x r n t),
        length-append (contents d c r) (x ∷ []),
      );
    }

    -- What is pushed into a ring with room for it stands behind what was there.
    pub contents-push_all :
        (xs : List A) (n : ℕ) (r : Ring A)
        → Takes d c (length xs + n) r
        → (contents d c (push_all c xs r) ≡ contents d c r ++ xs) × Takes d c n (push_all c xs r)
    contents-push_all [] n r t =
        (sym (append-nil (contents d c r)), subst (λ k. Takes d c k r) (omega arith) t)
    contents-push_all (x ∷ xs) n r t =
        let t' = subst (λ k. Takes d c k r) (omega arith) t in
        let e = contents-push x r (length xs + n) t' in
        let rest = contents-push_all xs n (shm_push c r x).1 (Takes-push x r (length xs + n) t') in
        (rest.0 ∙ ap (λ q. q ++ xs) e ∙ append_assoc (contents d c r) (x ∷ []) xs, rest.1)

    whole : (q : List A) → found (queue_pop q d).0 (queue_pop q d).1 ++ (queue_pop q d).2 ≡ q
    whole [] = refl
    whole (x ∷ q) = refl

    -- A pop hands over the first entry, if there is one.
    pub contents-pop :
        (r : Ring A)
        → IsValid c r
        → popped (shm_pop c r d) ++ contents d c (shm_pop c r d).2 ≡ contents d c r
    contents-pop r v =
        ap (λ p. found p.0 p.1 ++ p.2) (shm_pop_refines d c r v).0 ∙ whole (contents d c r)

    length-queue_pop : (q : List A) → length (queue_pop q d).2 ≤ length q - 1
    length-queue_pop [] = omega arith
    length-queue_pop (x ∷ q) = omega arith

    pub length-contents-pop :
        (r : Ring A)
        → IsValid c r
        → length (contents d c (shm_pop c r d).2) ≤ length (contents d c r) - 1
    length-contents-pop r v =
        subst (λ q. length q ≤ length (contents d c r) - 1)
          (ap (λ p. p.2) (sym (shm_pop_refines d c r v).0)) (length-queue_pop (contents d c r))

    pub Takes-pop : (r : Ring A) (n : ℕ) → Takes d c n r → Takes d c n (shm_pop c r d).2
    Takes-pop r n t = record {
      valid = (shm_pop_refines d c r t.valid).1;
      unwrapped = omega (arith, t.unwrapped, tail-shm_pop c r d);
      room = omega (
        arith,
        t.room,
        ap length (contents-pop r t.valid),
        length-append (popped (shm_pop c r d)) (contents d c (shm_pop c r d).2),
      );
    }

    length-replicate : (n : ℕ) → length (replicate n d) ≡ n
    length-replicate zero = refl
    length-replicate (suc n) = ap suc (length-replicate n)

    fresh-IsValid : 0 < c → IsValid c (fresh c d)
    unfolding fresh
    fresh-IsValid p = record {
      room = p;
      sized = length-replicate c;
      ordered = omega arith;
      bounded = omega arith;
      unwrapped = omega arith;
    }

    -- A new ring takes as many entries as it has slots.
    pub Takes-fresh : (n : ℕ) → 0 < c → n ≤ c → n < 2 ^ 64 → Takes d c n (fresh c d)
    unfolding fresh
    Takes-fresh n p q w = record {
      valid = fresh-IsValid p;
      unwrapped = omega (arith, w);
      room = ground (arith, q);
    }
