-- ===== src/Ring.antt =====
-- The shared-memory ring of sdk/include/ring_shm.hpp: `RingShm`, `shm_push` and `shm_pop`, each as one
-- call. `Ring.Refine` shows what a sequence of calls does, `Ring.Feed` what becomes
-- of the entries, `Ring.Threads` splits the calls into their
-- shared accesses. Mapping the memory (`shm_create` up to `shm_destroy`) is the operating system's.
pub mod Feed
pub mod Refine
pub mod Threads
use crypto_trading_system.Prelude.{
  ℕ, zero, suc, ◌+◌, ◌-◌, ◌%◌, ◌^◌, Bool, true, false, List, [], ◌∷◌, leb, get_or, set,
  if◌then◌else◌,
}

-- `head` and `tail` are the `uint64_t` counters of the entries popped and pushed so far.
pub record Ring (A : Type 0) : Type 0 where
  pub head : ℕ
  pub tail : ℕ
  pub entries : List A

-- `uint64_t` arithmetic.
abbrev pub u64 : ℕ → ℕ
u64 n = n % 2 ^ 64

abbrev pub sub_u64 : ℕ → ℕ → ℕ
sub_u64 a b = (a + 2 ^ 64 - b) % 2 ^ 64

module _ {A : Type 0} where
  abbrev pub replicate : ℕ → A → List A
  replicate zero a = []
  replicate (suc n) a = a ∷ replicate n a

  -- What `shm_create` leaves: memory of zero bytes.
  unfoldable pub fresh : ℕ → A → Ring A
  fresh capacity nought = record { head = 0; tail = 0; entries = replicate capacity nought }

  unfoldable pub shm_push : ℕ → Ring A → A → Bool × Ring A
  shm_push capacity r e = if leb capacity (sub_u64 r.tail r.head) then (false, r) else (
    true,
    record r { entries = set r.entries (r.tail % capacity) e; tail = u64 (r.tail + 1) },
  )

  -- `e` is the caller's variable before the call. A read out of range, which `Refine.IsValid` rules
  -- out, would leave it too.
  unfoldable pub shm_pop : ℕ → Ring A → A → Bool × A × Ring A
  shm_pop capacity r e =
      if leb r.tail r.head
      then (false, e, r)
      else (true, get_or r.entries (r.head % capacity) e, record r { head = u64 (r.head + 1) })
