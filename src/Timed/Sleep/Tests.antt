-- ===== src/Timed/Sleep/Tests.antt =====
-- A task that sleeps, at a concrete state.
use cgo.Base.{ℕ, ◌+◌, false, none, []}
use cgo.Sched.Fresh.{fresh}
use cgo.Timed.Sleep.{Sleepers, sleep_set, sleep_wait, take_timer, run_callback}

-- Each reading of the clock is two ticks after the last one.
abbrev clock : ℕ → ℕ
clock n = n + n

abbrev start : Sleepers
start = record {
  world = fresh 0;
  timers = record {
    tid = 0;
    size = 1;
    schedulers = λ i. record { pq_timer = []; signal = none };
    signals = λ s. record { emitted = false; waited = false; notified = 0 };
    readings = 0;
    fired = [];
  };
  hands = [];
}

-- Task 5 sleeps for 4 ticks on semaphore 1. Before it waits, task 6 sets a timer of 3 ticks for semaphore 2. Then
-- task 6 waits, and a worker takes the first timer and runs its callback.
abbrev both_set : Sleepers
both_set = sleep_set clock 2 3 (sleep_set clock 1 4 start)

abbrev both_wait : Sleepers
both_wait = (sleep_wait 6 2 (sleep_wait 5 1 both_set).0).0

abbrev taken : Sleepers
taken = take_timer clock 0 both_wait

abbrev called : Sleepers
called = run_callback 1 [] taken
