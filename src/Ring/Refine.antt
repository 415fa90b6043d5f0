-- ===== src/Ring/Refine.antt =====
-- A ring whose counters have not wrapped is a first-in first-out queue of at most `capacity` entries.
use native.Mathlib.Nat.{mod-add-mod, mod-eq_of_lt, mod-eq-sub-mod, mod-lt}
use native.Mathlib.Decide.{dec_lt}
use crypto_trading_system.Prelude.{
  ℕ, zero, suc, ◌+◌, ◌-◌, ◌%◌, ◌^◌, ◌≤◌, ◌<◌, ◌≡◌, ◌≢◌, refl, ap, ap₂, ◌∙◌, Bool, true, false, List,
  [], ◌∷◌, ◌++◌, leb, arith, length, get_or, set, length-set, get_or-set_self, get_or-set_ne,
  if◌then◌else◌,
}
use crypto_trading_system.Ring.{Ring, shm_push, shm_pop}

-- Fewer than `c` steps round an array of `c` slots do not come back to the start.
pub mod-ne : (h k c : ℕ) → 0 < k → k < c → (h + k) % c ≢ h % c
mod-ne h k c p q e = elim (dec_lt (h % c + k) c) [
  | yes lt ↦ omega (arith, mod-add-mod h c k, mod-eq_of_lt lt)
  | no ge ↦ omega (
    arith,
    mod-add-mod h c k,
    mod-lt h {m = c} (omega arith),
    mod-eq-sub-mod {n = h % c + k} {m = c} (omega arith),
    mod-eq_of_lt {n = h % c + k - c} {m = c} (omega (arith, mod-lt h {m = c} (omega arith))),
  )
]

-- A client's calls. A pop is made with the variable set to `d`.
pub data Call (A : Type 0) : Type 0 where
  push : A → Call A
  pop : Call A

module _ {A : Type 0} where
  -- The `n` entries from counter `h` on.
  abbrev pub window : A → ℕ → List A → ℕ → ℕ → List A
  window d capacity buf h zero = []
  window d capacity buf h (suc n) = get_or buf (h % capacity) d ∷ window d capacity buf (suc h) n

  -- The entries that are pushed and not yet popped, oldest first. `d` stands for a read out of range.
  abbrev pub contents : A → ℕ → Ring A → List A
  contents d capacity r = window d capacity r.entries r.head (r.tail - r.head)

  pub record IsValid (capacity : ℕ) (r : Ring A) : Type 0 where
    pub room : 0 < capacity
    pub sized : length r.entries ≡ capacity
    pub ordered : r.head ≤ r.tail
    pub bounded : r.tail ≤ r.head + capacity
    pub unwrapped : r.tail < 2 ^ 64

  module _ (d : A) (c : ℕ) where
    pub window-set_ne :
        (buf : List A) (x : A) (h n j : ℕ)
        → h + n ≤ j
        → j < h + c
        → window d c (set buf (j % c) x) h n ≡ window d c buf h n
    window-set_ne buf x h zero j p q = refl
    window-set_ne buf x h (suc n) j p q =
        ap₂ ◌∷◌
          (get_or-set_ne buf x d (λ e.
            mod-ne h (j - h) c (omega arith) (omega arith) (ap (λ k. k % c) (omega arith) ∙ e)))
          (window-set_ne buf x (suc h) n j (omega arith) (omega arith))

    pub window-snoc :
        (buf : List A) (h n : ℕ)
        → window d c buf h (suc n) ≡ window d c buf h n ++ (get_or buf ((h + n) % c) d ∷ [])
    window-snoc buf h zero = ap (λ k. get_or buf (k % c) d ∷ []) (omega arith)
    window-snoc buf h (suc n) = ap (◌∷◌ (get_or buf (h % c) d)) (
        window-snoc buf (suc h) n
        ∙ ap (λ k. window d c buf (suc h) n ++ (get_or buf (k % c) d ∷ [])) (omega arith))

    -- Writing the slot behind the window extends the window by the entry written.
    pub window-set :
        (buf : List A) (x : A) (h n : ℕ)
        → c ≡ length buf
        → n < c
        → window d c (set buf ((h + n) % c) x) h (suc n) ≡ window d c buf h n ++ (x ∷ [])
    window-set buf x h n size lt =
        window-snoc (set buf ((h + n) % c) x) h n
        ∙ ap₂ (λ w y. w ++ (y ∷ [])) (window-set_ne buf x h n (h + n) (omega arith) (omega arith))
            (get_or-set_self buf ((h + n) % c) x d
              (omega (arith, size, mod-lt (h + n) {m = c} (omega arith))))

    pub length-window : (buf : List A) (h n : ℕ) → length (window d c buf h n) ≡ n
    length-window buf h zero = refl
    length-window buf h (suc n) = ap suc (length-window buf (suc h) n)

    pub window-cons :
        (buf : List A) (h n : ℕ)
        → 0 < n
        → window d c buf h n ≡ get_or buf (h % c) d ∷ window d c buf (suc h) (n - 1)
    window-cons buf h zero p = absurd (omega arith)
    window-cons buf h (suc n) p = ap (λ k. window d c buf h (suc k)) (omega arith)

  -- The specification: a queue of at most `c` entries, oldest first. `d` is the caller's variable.
  abbrev pub queue_push : ℕ → List A → A → Bool × List A
  queue_push c q e = if leb c (length q) then (false, q) else (true, q ++ (e ∷ []))

  abbrev pub queue_pop : List A → A → Bool × A × List A
  queue_pop [] d = (false, d, [])
  queue_pop (x ∷ q) d = (true, x, q)

  -- On a valid ring whose counter does not wrap `shm_push` returns what the bounded queue returns,
  -- leaves the ring holding that queue's entries, and keeps it valid.
  pub shm_push_refines :
      (d : A) (c : ℕ) (r : Ring A) (e : A)
      → IsValid c r
      → r.tail + 1 < 2 ^ 64
      → let (done, r') = shm_push c r e in
        ((done, contents d c r') ≡ queue_push c (contents d c r) e) × IsValid c r'
  unfolding shm_push
  shm_push_refines d c r e v w =
      let n = r.tail - r.head in
      ground (
        arith,
        length-window d c r.entries r.head n,
        window-set d c r.entries e r.head n,
        length-set r.entries (r.tail % c) e,
      )

  -- On a valid ring `shm_pop` returns what the queue returns, leaves the ring holding that queue's
  -- entries, and keeps it valid.
  pub shm_pop_refines :
      (d : A) (c : ℕ) (r : Ring A)
      → IsValid c r
      → let (done, x, r') = shm_pop c r d in
        ((done, x, contents d c r') ≡ queue_pop (contents d c r) d) × IsValid c r'
  unfolding shm_pop
  shm_pop_refines d c r v = ground (arith, window-cons d c r.entries r.head (r.tail - r.head))

  -- What each of a client's calls returns.
  unfoldable pub run : A → ℕ → Ring A → List (Call A) → List (Bool × A)
  run d c r [] = []
  run d c r (push e ∷ calls) = let (done, r') = shm_push c r e in (done, d) ∷ run d c r' calls
  run d c r (pop ∷ calls) = let (done, x, r') = shm_pop c r d in (done, x) ∷ run d c r' calls

  unfoldable pub queue_run : A → ℕ → List A → List (Call A) → List (Bool × A)
  queue_run d c q [] = []
  queue_run d c q (push e ∷ calls) =
      let (done, q') = queue_push c q e in (done, d) ∷ queue_run d c q' calls
  queue_run d c q (pop ∷ calls) =
      let (done, x, q') = queue_pop q d in (done, x) ∷ queue_run d c q' calls

  pub tail-shm_push-le : (c : ℕ) (r : Ring A) (e : A) → (shm_push c r e).1.tail ≤ r.tail + 1
  unfolding shm_push
  tail-shm_push-le c r e = ground arith

  pub tail-shm_pop : (c : ℕ) (r : Ring A) (e : A) → (shm_pop c r e).2.tail ≡ r.tail
  unfolding shm_pop
  tail-shm_pop c r e = ground arith

  -- No sequence of calls, short enough for the counter not to wrap, tells a valid ring from the
  -- bounded queue of its entries.
  pub run_refines :
      (d : A) (c : ℕ) (calls : List (Call A)) (r : Ring A)
      → IsValid c r
      → r.tail + length calls < 2 ^ 64
      → run d c r calls ≡ queue_run d c (contents d c r) calls
  unfolding run queue_run
  run_refines d c [] r v w = refl
  run_refines d c (push e ∷ calls) r v w =
      let (now, valid) = shm_push_refines d c r e v (omega arith) in
      rw (
        run_refines d c calls (shm_push c r e).1 valid (omega (arith, tail-shm_push-le c r e)),
        ← now,
      )
  run_refines d c (pop ∷ calls) r v w =
      let (now, valid) = shm_pop_refines d c r v in
      rw (run_refines d c calls (shm_pop c r d).2 valid (omega (arith, tail-shm_pop c r d)), ← now)
