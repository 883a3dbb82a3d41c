-- ===== src/Sched.antt =====
-- The data of src/include/core/schedule.h and the scheduler queues of src/core/schedule.cpp.
-- Tasks, semaphores (each with its condition), lazy signals and contexts are known by addresses.
-- What a spinlock guards is one step of the model. `size_t` counters wrap at 2 ^ 64.
pub mod Spinlock
pub mod Signal
pub mod Condition
pub mod Semaphore
pub mod Permits
pub mod Wakeup
pub mod Latch
pub mod Run
pub mod Defer
pub mod Places
pub mod Fresh
mod Tests
use cgo.Base.{ℕ, ◌+◌, ◌%◌, ◌^◌, Bool, false, Option, none, some, List, [], ◌∷◌, ◌++◌, update}
use cgo.Sched.Signal.{LazySignal, emit}

-- A `size_t` increment.
abbrev pub incr : ℕ → ℕ
incr n = (n + 1) % 2 ^ 64

pub record Task : Type 0 where
  pub ctx : ℕ
  pub id : ℕ
  pub yielded : Bool
  pub waiting_cond : Option ℕ
  pub waiting_mtx : Option ℕ
  pub execute_cnt : ℕ
  pub suspend_cnt : ℕ
  pub yield_cnt : ℕ

-- `runnable` lists the tasks between the two sentinels.
pub record Scheduler : Type 0 where
  pub runnable : List ℕ
  pub signal : Option ℕ

-- `pool` lists the tasks, `index` finds one by its id.
pub record Allocator : Type 0 where
  pub pool : List ℕ
  pub index : ℕ → Option ℕ

-- `size` is the number of partitions, `tid` the next task id.
pub record SchedContext : Type 0 where
  pub size : ℕ
  pub tid : ℕ
  pub allocators : ℕ → Allocator
  pub schedulers : ℕ → Scheduler

-- `blocked` lists the tasks between the two sentinels.
pub record CondState : Type 0 where
  pub blocked : List ℕ
  pub scheduled_ctx : Option ℕ

pub record SemState : Type 0 where
  pub vacant : ℕ
  pub cond : CondState

pub record World : Type 0 where
  pub contexts : ℕ → SchedContext
  pub signals : ℕ → LazySignal
  pub tasks : ℕ → Task
  pub sems : ℕ → SemState

abbrev pub set_context : ℕ → SchedContext → World → World
set_context c s w = record w { contexts = update w.contexts c s }

abbrev pub set_scheduler : ℕ → ℕ → Scheduler → World → World
set_scheduler c i q w =
    set_context c (record (w.contexts c) { schedulers = update (w.contexts c).schedulers i q }) w

abbrev pub set_task : ℕ → Task → World → World
set_task t x w = record w { tasks = update w.tasks t x }

abbrev pub set_sem : ℕ → SemState → World → World
set_sem s x w = record w { sems = update w.sems s x }

-- The partition of `_scheduler(id)` and `_allocator(id)`.
abbrev pub slot : World → ℕ → ℕ → ℕ
slot w c id = id % (w.contexts c).size

unfoldable pub emit_to : Option ℕ → World → World
emit_to none w = w
emit_to (some s) w = record w { signals = update w.signals s (emit (w.signals s)) }

-- `Scheduler::push` on partition `i` of context `c`.
unfoldable pub push : ℕ → ℕ → ℕ → World → World
unfolding emit_to
push c i task w =
    let q = (w.contexts c).schedulers i in
    emit_to q.signal (set_scheduler c i (record q { runnable = q.runnable ++ task ∷ [] }) w)

unfoldable pub take_first : ℕ → ℕ → List ℕ → World → Option ℕ × World
take_first c i [] w = (none, w)
take_first c i (task ∷ rest) w =
    (some task, set_scheduler c i (record ((w.contexts c).schedulers i) { runnable = rest }) w)

-- `Scheduler::pop`.
unfoldable pub pop : ℕ → ℕ → World → Option ℕ × World
unfolding take_first
pop c i w = take_first c i ((w.contexts c).schedulers i).runnable w
