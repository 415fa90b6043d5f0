-- ===== src/Ring/Threads.antt =====
-- `shm_push` and `shm_pop` of sdk/include/ring_shm.hpp run by one producer and one consumer thread,
-- a shared access at a time. An acquire load is taken to see some value that the other thread stored
-- before, with all that it wrote before that store: the interleavings below have just these.
pub mod Safety
use native.Mathlib.Decide.{dec_lt}
use crypto_trading_system.Prelude.{
  ℕ, zero, suc, ◌+◌, ◌-◌, ◌%◌, ◌^◌, ◌≤◌, ◌<◌, ◌≡◌, ◌≢◌, refl, ap, ◌∙◌, List, [], ◌∷◌, ◌++◌, arith,
  length, length-append, get_or, set, length-set, get_or-set_self, get_or-set_ne, append-nil,
  append_assoc,
}
use crypto_trading_system.Ring.{Ring, u64, sub_u64}
use crypto_trading_system.Ring.Refine.{
  window, mod-ne, window-set_ne, window-snoc, window-cons, length-window,
}

-- Where the producer stands in `shm_push`, with its local variables.
pub data Producer (A : Type 0) : Type 0 where
  idle : Producer A
  tail_loaded : (tail : ℕ) (e : A) → Producer A
  head_loaded : (tail head : ℕ) (e : A) → Producer A
  written : (tail : ℕ) (e : A) → Producer A

-- Where the consumer stands in `shm_pop`.
pub data Consumer (A : Type 0) : Type 0 where
  idle : Consumer A
  head_loaded : (head : ℕ) → Consumer A
  tail_loaded : (head tail : ℕ) → Consumer A
  copied : (head : ℕ) (e : A) → Consumer A

-- The ring, both threads, and the history: what the calls that returned true pushed and popped.
pub record System (A : Type 0) : Type 0 where
  pub ring : Ring A
  pub producer : Producer A
  pub consumer : Consumer A
  pub pushed : List A
  pub popped : List A

module _ {A : Type 0} (d : A) (c : ℕ) where
  -- One shared access of one thread. `d` is what a read out of range would give.
  pub data Step : System A → System A → Type 0 where
    push_load_tail :
        (s : System A) (e : A)
        → s.producer ≡ Producer.idle
        → Step s (record s { producer = Producer.tail_loaded s.ring.tail e })
    push_load_head :
        (s : System A) (t : ℕ) (e : A)
        → s.producer ≡ Producer.tail_loaded t e
        → Step s (record s { producer = Producer.head_loaded t s.ring.head e })
    push_full :
        (s : System A) (t h : ℕ) (e : A)
        → s.producer ≡ Producer.head_loaded t h e
        → c ≤ sub_u64 t h
        → Step s (record s { producer = Producer.idle })
    push_write :
        (s : System A) (t h : ℕ) (e : A)
        → s.producer ≡ Producer.head_loaded t h e
        → sub_u64 t h < c
        → Step s (record s {
          producer = Producer.written t e;
          ring = record (s.ring) { entries = set s.ring.entries (t % c) e };
        })
    push_store_tail :
        (s : System A) (t : ℕ) (e : A)
        → s.producer ≡ Producer.written t e
        → Step s (record s {
          producer = Producer.idle;
          ring = record (s.ring) { tail = u64 (t + 1) };
          pushed = s.pushed ++ (e ∷ []);
        })
    pop_load_head :
        (s : System A)
        → s.consumer ≡ Consumer.idle
        → Step s (record s { consumer = Consumer.head_loaded s.ring.head })
    pop_load_tail :
        (s : System A) (h : ℕ)
        → s.consumer ≡ Consumer.head_loaded h
        → Step s (record s { consumer = Consumer.tail_loaded h s.ring.tail })
    pop_empty :
        (s : System A) (h t : ℕ)
        → s.consumer ≡ Consumer.tail_loaded h t
        → t ≤ h
        → Step s (record s { consumer = Consumer.idle })
    pop_copy :
        (s : System A) (h t : ℕ)
        → s.consumer ≡ Consumer.tail_loaded h t
        → h < t
        → Step s (record s { consumer = Consumer.copied h (get_or s.ring.entries (h % c) d) })
    pop_store_head :
        (s : System A) (h : ℕ) (e : A)
        → s.consumer ≡ Consumer.copied h e
        → Step s (record s {
          consumer = Consumer.idle;
          ring = record (s.ring) { head = u64 (h + 1) };
          popped = s.popped ++ (e ∷ []);
        })

  pub data Reach (start : System A) : System A → Type 0 where
    here : Reach start start
    next : {s u : System A} → Reach start s → Step s u → Reach start u

  -- What each thread knows where it stands: its view of the other's counter may be old.
  abbrev pub ProducerKnows : Ring A → Producer A → Type 0
  ProducerKnows r Producer.idle = Unit
  ProducerKnows r (Producer.tail_loaded t e) = t ≡ r.tail
  ProducerKnows r (Producer.head_loaded t h e) = (t ≡ r.tail) × (h ≤ r.head)
  ProducerKnows r (Producer.written t e) =
      (t ≡ r.tail) × (r.tail < r.head + c) × (get_or r.entries (t % c) d ≡ e)

  abbrev pub ConsumerKnows : Ring A → Consumer A → Type 0
  ConsumerKnows r Consumer.idle = Unit
  ConsumerKnows r (Consumer.head_loaded h) = h ≡ r.head
  ConsumerKnows r (Consumer.tail_loaded h t) = (h ≡ r.head) × (t ≤ r.tail)
  ConsumerKnows r (Consumer.copied h e) =
      (h ≡ r.head) × (r.head < r.tail) × (get_or r.entries (h % c) d ≡ e)

  pub record Inv (s : System A) : Type 0 where
    pub room : 0 < c
    pub sized : length s.ring.entries ≡ c
    pub ordered : s.ring.head ≤ s.ring.tail
    pub bounded : s.ring.tail ≤ s.ring.head + c
    pub counted : s.ring.tail ≡ length s.pushed
    pub fifo :
        s.pushed ≡ s.popped ++ window d c s.ring.entries s.ring.head (s.ring.tail - s.ring.head)
    pub produces : ProducerKnows s.ring s.producer
    pub consumes : ConsumerKnows s.ring s.consumer
