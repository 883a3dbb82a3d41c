-- ===== src/Timed.antt =====
-- `TimedContext` of src/include/core/timed.h and src/core/timed.cpp. Times are ticks of the steady
-- clock, and `clock n` is its n-th reading. A callback is a number, and running it appends it to
-- `fired`; the callbacks of the program release a semaphore, offer a value to a channel or decide a
-- race, and none of them creates a timer. `std::priority_queue` is a list in order of expiry, equal
-- times in order of insertion.
pub mod Order
pub mod Announce
pub mod Loops
pub mod Expiry
pub mod Sleep
mod Tests
use cgo.Base.{
  ℕ, zero, suc, ◌+◌, ◌-◌, ◌%◌, ◌^◌, ltb, leb, ◌==◌, ◌&&◌, ◌||◌, Bool, true, false, if◌then◌else◌,
  Option, none, some, List, [], ◌∷◌, ◌++◌, update,
}
use cgo.Sched.Signal.{LazySignal, emit}

pub record Timer : Type 0 where
  pub id : ℕ
  pub fn : ℕ
  pub ex : ℕ

pub record TimedScheduler : Type 0 where
  pub pq_timer : List Timer
  pub signal : Option ℕ

pub record TimedContext : Type 0 where
  pub tid : ℕ
  pub size : ℕ
  pub schedulers : ℕ → TimedScheduler
  pub signals : ℕ → LazySignal
  pub readings : ℕ
  pub fired : List ℕ

-- The heap's `push`.
unfoldable pub insert : Timer → List Timer → List Timer
insert t [] = t ∷ []
insert t (u ∷ us) = if ltb t.ex u.ex then t ∷ u ∷ us else u ∷ insert t us

-- Whether the queue is empty or its top expires later than `t`.
unfoldable pub is_next : Timer → List Timer → Bool
is_next t [] = true
is_next t (u ∷ us) = ltb t.ex u.ex

unfoldable pub emit_if : Bool → Option ℕ → TimedContext → TimedContext
emit_if true (some s) w = record w { signals = update w.signals s (emit (w.signals s)) }
emit_if _ _ w = w

abbrev pub set_queue : ℕ → List Timer → TimedContext → TimedContext
set_queue i q w = record w {
  schedulers = update w.schedulers i (record (w.schedulers i) { pq_timer = q });
}

-- `Scheduler::push` on partition `i`.
unfoldable pub push : ℕ → Timer → TimedContext → TimedContext
unfolding emit_if
push i t w =
    let q = (w.schedulers i).pq_timer in
    set_queue i (insert t q) (emit_if (is_next t q) (w.schedulers i).signal w)

unfoldable pub pop_due : ℕ → ℕ → List Timer → TimedContext → Option Timer × TimedContext
pop_due now i [] w = (none, w)
pop_due now i (t ∷ ts) w = if leb t.ex now then (some t, set_queue i ts w) else (none, w)

-- The clock is read only if the queue is not empty.
unfoldable pub read_if : List Timer → TimedContext → TimedContext
read_if [] w = w
read_if (t ∷ ts) w = record w { readings = suc w.readings }

-- Running a callback.
abbrev pub fire : Timer → TimedContext → TimedContext
fire t w = record w { fired = w.fired ++ t.fn ∷ [] }

module _ (clock : ℕ → ℕ) where
  -- `Scheduler::pop` on partition `i`.
  unfoldable pub pop : ℕ → TimedContext → Option Timer × TimedContext
  unfolding pop_due read_if
  pop i w = let q = (w.schedulers i).pq_timer in pop_due (clock w.readings) i q (read_if q w)

  -- `create_timeout`; `timeout` is already cast to ticks.
  unfoldable pub create_timeout : ℕ → ℕ → TimedContext → TimedContext
  create_timeout fn timeout w =
      let t : Timer = record { id = w.tid; fn = fn; ex = clock w.readings + timeout } in
      push (w.tid % w.size) t (record w { tid = (w.tid + 1) % 2 ^ 64; readings = suc w.readings })

  -- The first loop of `run_timeout` on slot `i`, with `left` rounds left: what was run, and the
  -- state.
  unfoldable pub run_own : ℕ → ℕ → TimedContext → ℕ × TimedContext
  run_own zero i w = (0, w)
  run_own (suc left) i w =
      let r = pop i w in
      elim r.0 [
        | none ↦ (0, r.1)
        | some t ↦ (let more = run_own left i (fire t r.1) in (suc more.0, more.1))
      ]

  -- The second loop, over the slots from `pindex + i` on, with `rounds` slots to go and `left`
  -- callbacks that may still be run. Its caller has `0 < left`.
  unfoldable pub run_others : ℕ → ℕ → ℕ → ℕ → TimedContext → ℕ × TimedContext
  run_others zero pindex i left w = (0, w)
  run_others (suc rounds) pindex i left w =
      let r = pop ((pindex + i) % w.size) w in
      elim r.0 [
        | none ↦ run_others rounds pindex (suc i) left r.1
        | some t ↦
            (let w1 = fire t r.1 in
              let more = run_others rounds pindex (suc i) (left - 1) w1 in
              if left == 1 then (1, w1) else (suc more.0, more.1))
      ]

  -- `run_timeout`.
  unfoldable pub run_timeout : ℕ → ℕ → TimedContext → ℕ × TimedContext
  unfolding run_own run_others
  run_timeout pindex batch_size w =
      let r = run_own batch_size (pindex % w.size) w in
      let more = run_others w.size pindex 0 (batch_size - r.0) r.1 in
      if r.0 == batch_size then r else (r.0 + more.0, more.1)

-- `next_schedule_time`; `none` stands for TimePoint::max().
unfoldable pub next_schedule_time : ℕ → TimedContext → Option ℕ
next_schedule_time pindex w = elim (w.schedulers (pindex % w.size)).pq_timer [
  | [] ↦ none
  | t ∷ ts ↦ some t.ex
]
