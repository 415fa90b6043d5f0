-- ===== src/Tests/Rings.antt =====
-- The ring at concrete inputs.
use crypto_trading_system.Prelude.{ℕ, ◌≤◌, ◌%◌, ◌≡◌, ◌≢◌, refl, [], ◌∷◌, ◌++◌, length, arith}
use crypto_trading_system.Ring.{fresh}
use crypto_trading_system.Ring.Refine.{push, pop, contents, run, queue_run, run_refines}
use crypto_trading_system.Ring.Threads.{Producer, Consumer, System, Step, Reach, here, next}
use crypto_trading_system.Ring.Threads.Safety.{start, popped_in_order, no_slot_race}

-- The push of 7 on a new ring of four slots, then the start of another push and of a pop.
abbrev loaded : System ℕ
loaded = record (start 0 4) { producer = Producer.tail_loaded 0 7 }

abbrev roomy : System ℕ
roomy = record loaded { producer = Producer.head_loaded 0 0 7 }

abbrev stored : System ℕ
stored = record roomy {
  producer = Producer.written 0 7;
  ring = record { head = 0; tail = 0; entries = 7 ∷ 0 ∷ 0 ∷ 0 ∷ [] };
}

abbrev pushed_seven : System ℕ
pushed_seven = record stored {
  producer = Producer.idle;
  ring = record { head = 0; tail = 1; entries = 7 ∷ 0 ∷ 0 ∷ 0 ∷ [] };
  pushed = 7 ∷ [];
}

abbrev second : System ℕ
second = record pushed_seven { producer = Producer.tail_loaded 1 8 }

abbrev second_roomy : System ℕ
second_roomy = record second { producer = Producer.head_loaded 1 0 8 }

abbrev popping : System ℕ
popping = record second_roomy { consumer = Consumer.head_loaded 0 }

abbrev both : System ℕ
both = record popping { consumer = Consumer.tail_loaded 0 1 }

Reach-pushed_seven : Reach 0 4 (start 0 4) pushed_seven
unfolding fresh
Reach-pushed_seven =
    next
      (next
        (next (next here (Step.push_load_tail (start 0 4) 7 refl))
          (Step.push_load_head loaded 0 7 refl))
        (Step.push_write roomy 0 0 7 refl (omega arith)))
      (Step.push_store_tail stored 0 7 refl)

Reach-both : Reach 0 4 (start 0 4) both
unfolding fresh
Reach-both =
    next
      (next
        (next (next Reach-pushed_seven (Step.push_load_tail pushed_seven 8 refl))
          (Step.push_load_head second 1 8 refl))
        (Step.pop_load_head second_roomy refl))
      (Step.pop_load_tail popping 0 refl)

popped_in_order_example :
    (pushed_seven.pushed ≡ pushed_seven.popped ++ contents 0 4 pushed_seven.ring)
    × (length (contents 0 4 pushed_seven.ring) ≤ 4)
popped_in_order_example =
    popped_in_order 0 4 pushed_seven (omega arith) Reach-pushed_seven (omega arith)

no_slot_race_example : 1 % 4 ≢ 0 % 4
no_slot_race_example =
    no_slot_race 0 4 both 1 0 0 1 8 (omega arith) Reach-both (omega arith) refl (omega arith) refl
      (omega arith)

run_refines_example :
    run {A = ℕ} 0 2 (fresh 2 0) (push 5 ∷ pop ∷ push 6 ∷ push 7 ∷ push 8 ∷ [])
    ≡ queue_run 0 2 (contents 0 2 (fresh 2 0)) (push 5 ∷ pop ∷ push 6 ∷ push 7 ∷ push 8 ∷ [])
unfolding fresh
run_refines_example =
    run_refines 0 2 (push 5 ∷ pop ∷ push 6 ∷ push 7 ∷ push 8 ∷ []) (fresh 2 0) (ground arith)
      (omega arith)
