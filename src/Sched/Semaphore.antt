-- ===== src/Sched/Semaphore.antt =====
-- `Semaphore` and `Mutex` of src/core/schedule.cpp.
use cgo.Base.{ℕ, ◌-◌, ltb, Bool, true, false, if◌then◌else◌}
use cgo.Sched.{World, set_sem, incr}
use cgo.Sched.Condition.{notify, wait, wait_resumed}

-- A round of the loop in `aquire`: the state, and whether the semaphore was taken. If not, the task
-- is waiting on the condition.
unfoldable pub aquire_round : ℕ → ℕ → World → World × Bool
unfolding wait
aquire_round task s w =
    if ltb 0 (w.sems s).vacant
    then (set_sem s (record (w.sems s) { vacant = (w.sems s).vacant - 1 }) w, true)
    else (wait task s w, false)

-- A round after the task was woken.
unfoldable pub aquire_again : ℕ → ℕ → World → World × Bool
unfolding aquire_round wait_resumed
aquire_again task s w = aquire_round task s (wait_resumed s w)

unfoldable pub release : ℕ → World → World
unfolding notify
release s w = notify s (set_sem s (record (w.sems s) { vacant = incr (w.sems s).vacant }) w)

unfoldable pub lock : ℕ → ℕ → World → World × Bool
unfolding aquire_round
lock task s w = aquire_round task s w

unfoldable pub unlock : ℕ → World → World
unfolding release
unlock s w = release s w
