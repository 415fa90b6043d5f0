-- ===== src/Ring/Threads/Safety.antt =====
-- Every interleaving of the two threads of a ring keeps the queue in order, and they never touch one
-- slot at one time.
use crypto_trading_system.Prelude.{
  ℕ, zero, suc, ◌+◌, ◌-◌, ◌%◌, ◌^◌, ◌≤◌, ◌<◌, ◌≡◌, ◌≢◌, refl, ap, ◌∙◌, [], ◌∷◌, ◌++◌, arith, length,
  length-append, get_or, set, length-set, get_or-set_self, get_or-set_ne, append_assoc,
}
use native.Mathlib.Nat.{mod-lt}
use crypto_trading_system.Ring.{Ring, u64, sub_u64, fresh, replicate}
use crypto_trading_system.Ring.Refine.{
  window, contents, mod-ne, window-set_ne, window-snoc, window-cons, length-window,
}
use crypto_trading_system.Ring.Threads.{
  System, Step, push_load_tail, push_load_head, push_full, push_write, push_store_tail,
  pop_load_head, pop_load_tail, pop_empty, pop_copy, pop_store_head, Reach, here, next, Inv,
  Producer, Consumer,
}

module _ {A : Type 0} (d : A) (c : ℕ) where
  Step-pushed_le : {s u : System A} → Step d c s u → length s.pushed ≤ length u.pushed
  Step-pushed_le (push_store_tail s t e p) = omega (arith, length-append s.pushed (e ∷ []))
  Step-pushed_le (push_load_tail s e p) = omega arith
  Step-pushed_le st = omega arith

  -- The slot at the head is not the slot behind the tail while entries are held and one is free.
  other_slot :
      (r : Ring A) (e : A) (t : ℕ)
      → r.head ≤ t
      → t < r.head + c
      → r.head < t
      → get_or (set r.entries (t % c) e) (r.head % c) d ≡ get_or r.entries (r.head % c) d
  other_slot r e t p q lt = get_or-set_ne r.entries e d (λ same.
      mod-ne r.head (t - r.head) c (omega arith) (omega arith)
        (ap (λ k. k % c) (omega arith) ∙ same))

  write-Inv :
      (s : System A) (t h : ℕ) (e : A)
      → s.producer ≡ Producer.head_loaded t h e
      → sub_u64 t h < c
      → length s.pushed < 2 ^ 64
      → Inv d c s
      → Inv d c (record s {
        producer = Producer.written t e;
        ring = record (s.ring) { entries = set s.ring.entries (t % c) e };
      })
  write-Inv s t h e p lt fits v =
      let own : (t ≡ s.ring.tail) × (h ≤ s.ring.head) = ground arith in
      let near : s.ring.tail < s.ring.head + c = omega arith in
      let n = s.ring.tail - s.ring.head in
      ground (
        arith,
        own,
        near,
        length-set s.ring.entries (t % c) e,
        window-set_ne d c s.ring.entries e s.ring.head n t,
        get_or-set_self s.ring.entries (t % c) e d,
        mod-lt t {m = c} v.room,
        other_slot s.ring e t (omega arith) (omega arith),
      )

  store_tail-Inv :
      (s : System A) (t : ℕ) (e : A)
      → s.producer ≡ Producer.written t e
      → length s.pushed + 1 < 2 ^ 64
      → Inv d c s
      → Inv d c (record s {
        producer = Producer.idle;
        ring = record (s.ring) { tail = u64 (t + 1) };
        pushed = s.pushed ++ (e ∷ []);
      })
  store_tail-Inv s t e p fits v =
      let n = s.ring.tail - s.ring.head in
      let own : (t ≡ s.ring.tail)
          × (s.ring.tail < s.ring.head + c)
          × (get_or s.ring.entries (t % c) d ≡ e) =
        ground arith in
      let more : u64 (t + 1) - s.ring.head ≡ suc n = omega arith in
      let slot : (s.ring.head + n) % c ≡ t % c = ap (λ k. k % c) (omega arith) in
      let queue : s.pushed ++ (e ∷ [])
          ≡ s.popped ++ window d c s.ring.entries s.ring.head (u64 (t + 1) - s.ring.head) =
        rw (
          more,
          window-snoc d c s.ring.entries s.ring.head n,
          slot,
          own.2,
          v.fifo,
          append_assoc s.popped (window d c s.ring.entries s.ring.head n) (e ∷ []),
        ) in
      ground (arith, own, queue, length-append s.pushed (e ∷ []))

  store_head-Inv :
      (s : System A) (h : ℕ) (e : A)
      → s.consumer ≡ Consumer.copied h e
      → length s.pushed < 2 ^ 64
      → Inv d c s
      → Inv d c (record s {
        consumer = Consumer.idle;
        ring = record (s.ring) { head = u64 (h + 1) };
        popped = s.popped ++ (e ∷ []);
      })
  store_head-Inv s h e p fits v =
      let n = s.ring.tail - s.ring.head in
      let own : (h ≡ s.ring.head)
          × (s.ring.head < s.ring.tail)
          × (get_or s.ring.entries (h % c) d ≡ e) =
        ground arith in
      ground (
        arith,
        own,
        window-cons d c s.ring.entries s.ring.head n,
        append_assoc s.popped (e ∷ []) (window d c s.ring.entries (suc s.ring.head) (n - 1)),
      )

  Step-Inv : {s u : System A} → Step d c s u → length u.pushed < 2 ^ 64 → Inv d c s → Inv d c u
  Step-Inv (push_write s t h e p lt) f v = write-Inv s t h e p lt f v
  Step-Inv (push_store_tail s t e p) f v =
      store_tail-Inv s t e p (omega (arith, length-append s.pushed (e ∷ []))) v
  Step-Inv (pop_store_head s h e p) f v = store_head-Inv s h e p f v
  Step-Inv (push_load_tail s e p) f v = ground arith
  Step-Inv (push_load_head s t e p) f v = ground arith
  Step-Inv (push_full s t h e p q) f v = ground arith
  Step-Inv (pop_load_head s p) f v = ground arith
  Step-Inv (pop_load_tail s h p) f v = ground arith
  Step-Inv (pop_empty s h t p q) f v = ground arith
  Step-Inv (pop_copy s h t p q) f v = ground arith

  -- Two threads at rest on a ring that `shm_create` made.
  abbrev pub start : System A
  start = record {
    ring = fresh c d;
    producer = Producer.idle;
    consumer = Consumer.idle;
    pushed = [];
    popped = [];
  }

  length-replicate : (n : ℕ) → length (replicate n d) ≡ n
  length-replicate zero = refl
  length-replicate (suc n) = ap suc (length-replicate n)

  start-Inv : 0 < c → Inv d c start
  unfolding fresh
  start-Inv p = ground (arith, length-replicate c)

  pub Reach-Inv : {s : System A} → 0 < c → Reach d c start s → length s.pushed < 2 ^ 64 → Inv d c s
  Reach-Inv p here f = start-Inv p
  Reach-Inv p (next r st) f = Step-Inv st f (Reach-Inv p r (omega (arith, Step-pushed_le st)))

  -- In every state that the two threads reach from a new ring, in whatever order their shared
  -- accesses come and as long as fewer than 2^64 entries were pushed, the entries popped so far
  -- followed by those in the ring are the entries pushed so far, in order: none is lost, doubled,
  -- reordered or torn. The ring never holds more than `c` of them.
  pub popped_in_order :
      (s : System A)
      → 0 < c
      → Reach d c start s
      → length s.pushed < 2 ^ 64
      → (s.pushed ≡ s.popped ++ contents d c s.ring) × (length (contents d c s.ring) ≤ c)
  popped_in_order s p r f =
      let v : Inv d c s = Reach-Inv p r f in
      (
        v.fifo,
        omega (
          arith,
          v.bounded,
          length-window d c s.ring.entries s.ring.head (s.ring.tail - s.ring.head),
        ),
      )

  -- When the producer is about to write its slot and the consumer about to copy its slot, the two
  -- slots differ.
  pub no_slot_race :
      (s : System A) (t h h' t' : ℕ) (e : A)
      → 0 < c
      → Reach d c start s
      → length s.pushed < 2 ^ 64
      → s.producer ≡ Producer.head_loaded t h e
      → sub_u64 t h < c
      → s.consumer ≡ Consumer.tail_loaded h' t'
      → h' < t'
      → t % c ≢ h' % c
  no_slot_race s t h h' t' e p r f writes free copies some same =
      let v : Inv d c s = Reach-Inv p r f in
      let own : (t ≡ s.ring.tail) × (h ≤ s.ring.head) = ground arith in
      let other : (h' ≡ s.ring.head) × (t' ≤ s.ring.tail) = ground arith in
      let v1 = v.bounded in
      let v2 = v.ordered in
      let v3 = v.counted in
      mod-ne h' (t - h') c (omega arith) (omega arith) (ap (λ k. k % c) (omega arith) ∙ same)
