-- ===== src/Timed/Sleep.antt =====
-- `sleep` and `timeout` of src/core/timed.cpp, and `on_timeout` of src/include/core/timed.h. The callback of a
-- `sleep` is the address of its semaphore, and running it releases that one. What different threads may do in
-- between is a step of its own: setting the timer, waiting, taking a timer, and running its callback.
pub mod Late
pub mod Due
pub mod Waking
pub mod Open
pub mod Woken
mod Tests
use cgo.Base.{ℕ, ◌==◌, if◌then◌else◌, Bool, Option, none, some, List, [], ◌∷◌, ◌++◌}
use cgo.Sched.{World, set_sem}
use cgo.Sched.Permits.{enter}
use cgo.Sched.Semaphore.{release}
use cgo.Channel.{Env, set_chan}
use cgo.Channel.Ops.{nowait_send}
use cgo.Timed.{Timer, TimedContext, create_timeout, pop}

-- The tasks and semaphores, the timers of a context, and the callbacks that workers have taken from
-- the queues and not run yet.
pub record Sleepers : Type 0 where
  pub world : World
  pub timers : TimedContext
  pub hands : List ℕ

-- `sleep` up to the call of `aquire`: a new semaphore, and the timer that releases it.
unfoldable pub sleep_set : (ℕ → ℕ) → ℕ → ℕ → Sleepers → Sleepers
sleep_set clock signal timeout s = record s {
  world =
      set_sem signal (record { vacant = 0; cond = record { blocked = []; scheduled_ctx = none } })
        s.world;
  timers = create_timeout clock signal timeout s.timers;
}

-- `signal->aquire()` by the task, up to its suspension: the state, and whether it goes on at once.
unfoldable pub sleep_wait : ℕ → ℕ → Sleepers → Sleepers × Bool
sleep_wait task signal s = let r = enter task signal s.world in (record s { world = r.0 }, r.1)

-- What a worker does with the answer of `pop`.
unfoldable pub in_hand : Option Timer × TimedContext → Sleepers → Sleepers
in_hand (none, w) s = record s { timers = w }
in_hand (some t, w) s = record s { timers = w; hands = s.hands ++ t.fn ∷ [] }

-- `pop` of a partition in `run_timeout`, and then the call of the callback, a step of its own: it
-- releases the semaphore. `rest` are the callbacks that are still in hand.
unfoldable pub take_timer : (ℕ → ℕ) → ℕ → Sleepers → Sleepers
unfolding in_hand
take_timer clock i s = in_hand (pop clock i s.timers) s

unfoldable pub run_callback : ℕ → List ℕ → Sleepers → Sleepers
run_callback signal rest s = record {
  world = release signal s.world;
  timers = record s.timers { fired = s.timers.fired ++ signal ∷ [] };
  hands = rest;
}

-- `on_timeout`.
unfoldable pub on_timeout : ℕ → ℕ → TimedContext → TimedContext
on_timeout pindex signal w = record w {
  schedulers =
      λ i. if i == pindex then record (w.schedulers i) { signal = some signal } else w.schedulers i;
}

-- `timeout`: a new channel of one item, and a timer whose callback offers it a value.
unfoldable pub timeout_begin :
    {V : Type 0} → (ℕ → ℕ) → ℕ → ℕ → ℕ → Env V × TimedContext → Env V × TimedContext
timeout_begin clock chan fn timeout (e, w) = (
  set_chan chan (record { capacity = 1; buffer = []; senders = []; recvers = [] }) e,
  create_timeout clock fn timeout w,
)

-- The callback: `cell` is the object that is offered, and `msg` its message.
unfoldable pub timeout_callback : {V : Type 0} → V → ℕ → ℕ → ℕ → Env V → Env V
timeout_callback blank chan cell msg e = (nowait_send blank chan cell msg e).1
