-- ===== src/Timed/Tests.antt =====
-- The timer theorems at a context with two partitions.
use cgo.Base.{ℕ, ◌+◌, ◌≡◌, ◌==◌, true, false, some, [], ◌∷◌, arith}
use cgo.Timed.{Timer, TimedContext, push, pop, run_timeout}
use cgo.Timed.Order.{AllSorted, Popped, pop-Popped}
use cgo.Timed.Announce.{Inserted, Announced, push-Announced}
use cgo.Timed.Expiry.{Ran, run_timeout-Ran}

abbrev clock : ℕ → ℕ
clock n = 10 + n

abbrev first : Timer
first = record { id = 0; fn = 7; ex = 5 }

abbrev second : Timer
second = record { id = 2; fn = 8; ex = 30 }

abbrev two : TimedContext
two = record {
  tid = 3;
  size = 2;
  schedulers = λ i. record { pq_timer = first ∷ second ∷ []; signal = some 6 };
  signals = λ s. record { emitted = false; waited = true; notified = 0 };
  readings = 0;
  fired = [];
}

two-AllSorted : AllSorted two
two-AllSorted i = ((omega arith, tt), (tt, tt))

abbrev sooner : Timer
sooner = record { id = 4; fn = 9; ex = 3 }

push-Announced_example :
    Inserted sooner (first ∷ second ∷ []) ((push 0 sooner two).schedulers 0).pq_timer
    × ((k : ℕ)
        → (0 == k) ≡ false
        → ((push 0 sooner two).schedulers k).pq_timer ≡ first ∷ second ∷ [])
    × Announced 0 sooner two (push 0 sooner two)
push-Announced_example = push-Announced 0 sooner two

pop-Popped_example :
    Popped 10
      (first ∷ second ∷ [])
      ((pop clock 0 two).0, ((pop clock 0 two).1.schedulers 0).pq_timer)
pop-Popped_example = pop-Popped clock 0 two two-AllSorted

run_timeout-Ran_example : Ran 1 two (run_timeout clock 0 1 two)
run_timeout-Ran_example = run_timeout-Ran clock 0 1 two
