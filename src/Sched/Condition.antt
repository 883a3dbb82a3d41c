-- ===== src/Sched/Condition.antt =====
-- `SchedContext::Condition` of src/core/schedule.cpp, for the condition of semaphore `s`.
use cgo.Base.{ℕ, ◌==◌, if◌then◌else◌, Bool, true, Option, none, some, List, [], ◌∷◌, ◌++◌}
use cgo.Linked.{unlink_from}
use cgo.Sched.{World, CondState, set_task, set_sem, set_scheduler, slot, push}

abbrev pub set_cond : ℕ → CondState → World → World
set_cond s c w = set_sem s (record (w.sems s) { cond = c }) w

unfoldable pub schedule_first : ℕ → List ℕ → World → World
schedule_first s [] w = w
schedule_first s (task ∷ rest) w =
    let x = w.tasks task in
    push x.ctx (slot w x.ctx x.id) task
      (set_cond s (record { blocked = rest; scheduled_ctx = some x.ctx }) w)

-- `_schedule_from_this`: the longest blocked task becomes runnable in its own partition.
unfoldable pub schedule_from_this : ℕ → World → World
unfolding schedule_first
schedule_from_this s w = schedule_first s (w.sems s).cond.blocked w

unfoldable pub notify : ℕ → World → World
unfolding schedule_from_this
notify s w = schedule_from_this s w

-- `wait` up to its suspension, by the running task; the mutex is that of semaphore `s`.
unfoldable pub wait : ℕ → ℕ → World → World
wait task s w =
    set_task task (record (w.tasks task) { waiting_cond = some s; waiting_mtx = some s }) w

-- `wait` after its suspension.
unfoldable pub wait_resumed : ℕ → World → World
wait_resumed s w = set_cond s (record (w.sems s).cond { scheduled_ctx = none }) w

-- `_suspend_to_this`, which also unlocks the condition and the caller's mutex.
unfoldable pub suspend_to_this : ℕ → ℕ → World → World
suspend_to_this task s w =
    set_cond s (record (w.sems s).cond { blocked = (w.sems s).cond.blocked ++ task ∷ [] }) w

unfoldable pub same_ctx : Option ℕ → ℕ → Bool
same_ctx none c = true
same_ctx (some d) c = d == c

-- `unlink_this` of a task, which is blocked by semaphore `s`, or already in its run queue.
unfoldable pub unlink_task : ℕ → ℕ → World → World
unfolding unlink_from
unlink_task task s w =
    let x = w.tasks task in
    let q = (w.contexts x.ctx).schedulers (slot w x.ctx x.id) in
    let w1 =
      set_scheduler x.ctx (slot w x.ctx x.id) (record q { runnable = unlink_from task q.runnable })
        w in
    set_cond s (record (w.sems s).cond { blocked = unlink_from task (w.sems s).cond.blocked }) w1

-- `_remove`, for a task that is destroyed before it goes on.
unfoldable pub remove : ℕ → ℕ → World → World
unfolding unlink_task same_ctx schedule_from_this
remove task s w =
    let w1 = unlink_task task s w in
    let next = schedule_from_this s w1 in
    if same_ctx (w.sems s).cond.scheduled_ctx (w.tasks task).ctx then next else w1
