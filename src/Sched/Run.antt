-- ===== src/Sched/Run.antt =====
-- `Allocator`, `create_scheduled`, `_execute`, `run_scheduled` and `final_schedule` of
-- src/core/schedule.cpp. The coroutine of a task is the environment: `resume` runs it to its next
-- suspension, and `done` says whether it has ended.
pub mod Accounts
pub mod Final
pub mod Held
use cgo.Base.{
  ℕ, zero, suc, ◌+◌, ◌-◌, ◌%◌, ◌^◌, ◌==◌, ◌||◌, Bool, true, false, if◌then◌else◌, Option, none,
  some, List, [], ◌∷◌, ◌++◌, update,
}
use cgo.Linked.{unlink_from}
use cgo.Sched.{
  World, Task, SchedContext, Allocator, set_context, set_task, set_scheduler, slot, push, pop, incr,
}
use cgo.Sched.Condition.{suspend_to_this, remove}

abbrev pub set_allocator : ℕ → ℕ → Allocator → World → World
set_allocator c i a w =
    set_context c (record (w.contexts c) { allocators = update (w.contexts c).allocators i a }) w

-- `Allocator::create` on partition `i`: the list gives the task the address `task`. Its frame is the
-- environment's.
unfoldable pub create : ℕ → ℕ → ℕ → ℕ → World → World
create task c i id w =
    let a = (w.contexts c).allocators i in
    let new : Task = record {
      ctx = c;
      id = id;
      yielded = false;
      waiting_cond = none;
      waiting_mtx = none;
      execute_cnt = 0;
      suspend_cnt = 0;
      yield_cnt = 0;
    } in
    set_allocator c i (record { pool = a.pool ++ task ∷ []; index = update a.index id (some task) })
      (set_task task new w)

unfoldable pub erase_indexed : ℕ → ℕ → ℕ → Option ℕ → World → Option World
erase_indexed c i id none w = none
erase_indexed c i id (some t) w =
    let a = (w.contexts c).allocators i in
    some
      (set_allocator c i (record { pool = unlink_from t a.pool; index = update a.index id none }) w)

-- `Allocator::destroy`; `none` where `_index.at` throws.
unfoldable pub destroy : ℕ → ℕ → ℕ → World → Option World
unfolding erase_indexed unlink_from
destroy task c i w =
    let id = (w.tasks task).id in erase_indexed c i id (((w.contexts c).allocators i).index id) w

-- `create_scheduled`.
unfoldable pub create_scheduled : ℕ → ℕ → World → World
create_scheduled task c w =
    let id = (w.contexts c).tid in
    let w1 = set_context c (record (w.contexts c) { tid = incr id }) w in
    push c (slot w c id) task (create task c (slot w c id) id w1)

unfoldable pub is_waiting : Task → Bool
is_waiting x = elim x.waiting_cond [ none ↦ false | some s ↦ true ]

-- `Yielder::operator()`, by the running task.
unfoldable pub yield_task : ℕ → World → World
yield_task task w = set_task task (record (w.tasks task) { yielded = true }) w

-- `on_scheduled`.
unfoldable pub on_scheduled : ℕ → ℕ → ℕ → World → World
on_scheduled c pindex signal w =
    let i = slot w c pindex in
    set_scheduler c i (record ((w.contexts c).schedulers i) { signal = some signal }) w

-- `spawn`, and what the running task knows of itself.
unfoldable pub spawn : ℕ → ℕ → World → World
unfolding create_scheduled
spawn c task w = create_scheduled task c w

unfoldable pub this_coroutine_id : ℕ → World → ℕ
this_coroutine_id task w = (w.tasks task).id

unfoldable pub this_coroutine_ctx : ℕ → World → ℕ
this_coroutine_ctx task w = (w.tasks task).ctx

-- The environment.
pub record Bodies : Type 0 where
  pub resume : ℕ → World → World
  pub done : ℕ → World → Bool

module _ (b : Bodies) where
  -- The loop of `_execute`; `none` if the fuel runs out before the task yields, waits or ends.
  unfoldable pub run_task : ℕ → ℕ → World → Option World
  unfolding is_waiting
  run_task zero task w = none
  run_task (suc fuel) task w =
      let more = run_task fuel task (b.resume task w) in
      if (w.tasks task).yielded || is_waiting (w.tasks task) || b.done task w then some w else more

  unfoldable pub start_task : ℕ → World → World
  start_task task w =
      let x = w.tasks task in
      set_task task
        (record x {
          yielded = false;
          waiting_cond = none;
          waiting_mtx = none;
          execute_cnt = incr x.execute_cnt;
        })
        w

  unfoldable pub requeue : ℕ → World → World
  requeue task w =
      let x = w.tasks task in
      push x.ctx (slot w x.ctx x.id) task
        (set_task task (record x { yield_cnt = incr x.yield_cnt }) w)

  unfoldable pub block : ℕ → Option ℕ → World → World
  block task none w = w
  block task (some s) w =
      let x = w.tasks task in
      suspend_to_this task s (set_task task (record x { suspend_cnt = incr x.suspend_cnt }) w)

  -- What `_execute` does with the task after the loop.
  unfoldable pub settle : ℕ → World → Option World
  unfolding requeue block
  settle task w =
      let x = w.tasks task in
      if b.done task w
      then destroy task x.ctx (slot w x.ctx x.id) w
      else if x.yielded
      then some (requeue task w)
      else some (block task x.waiting_cond w)

  settle_if : ℕ → Option World → Option World
  unfolding settle
  settle_if task none = none
  settle_if task (some w) = settle task w

  -- `_execute`.
  unfoldable pub execute : ℕ → ℕ → World → Option World
  unfolding start_task settle_if
  execute fuel task w = settle_if task (run_task fuel task (start_task task w))

  -- The first loop of `run_scheduled` on partition `i` of context `c`, with `left` rounds to go:
  -- how many tasks it ran, and the state.
  unfoldable pub run_own : ℕ → ℕ → ℕ → ℕ → World → Option (ℕ × World)
  run_own fuel zero c i w = some (0, w)
  run_own fuel (suc left) c i w =
      let r = pop c i w in
      elim r.0 [
        | none ↦ some (0, r.1)
        | some task ↦ elim (execute fuel task r.1) [
          | none ↦ none
          | some w1 ↦ elim (run_own fuel left c i w1) [
            | none ↦ none
            | some (n, w2) ↦ some (suc n, w2)
          ]
        ]
      ]

  -- The second loop, over the partitions from `pindex + i` on, with `rounds` partitions to go and
  -- `left` tasks that may still run. Its caller has `0 < left`.
  unfoldable pub run_others : ℕ → ℕ → ℕ → ℕ → ℕ → ℕ → World → Option (ℕ × World)
  run_others fuel zero c pindex i left w = some (0, w)
  run_others fuel (suc rounds) c pindex i left w =
      let r = pop c (slot w c (pindex + i)) w in
      elim r.0 [
        | none ↦ run_others fuel rounds c pindex (suc i) left r.1
        | some task ↦ elim (execute fuel task r.1) [
          | none ↦ none
          | some w1 ↦
              (let more = run_others fuel rounds c pindex (suc i) (left - 1) w1 in
                if left == 1
                then some (1, w1)
                else (elim more [ none ↦ none | some (n, w2) ↦ some (suc n, w2) ]))
        ]
      ]

  unfoldable pub add_count : ℕ → Option (ℕ × World) → Option (ℕ × World)
  add_count n none = none
  add_count n (some (m, w)) = some (n + m, w)

  unfoldable pub after_own : ℕ → ℕ → ℕ → ℕ → Option (ℕ × World) → Option (ℕ × World)
  unfolding run_others add_count
  after_own fuel c pindex batch none = none
  after_own fuel c pindex batch (some (n, w)) =
      let more = add_count n (run_others fuel (w.contexts c).size c pindex 0 (batch - n) w) in
      if n == batch then some (n, w) else more

  -- `run_scheduled`.
  unfoldable pub run_scheduled : ℕ → ℕ → ℕ → ℕ → World → Option (ℕ × World)
  unfolding run_own after_own
  run_scheduled fuel c pindex batch w =
      after_own fuel c pindex batch (run_own fuel batch c (slot w c pindex) w)

-- The end of a worker. `unwind task` is what the destruction of the frames of a task does to the state:
-- it runs the destructors and guards of the program.
module _ (unwind : ℕ → World → World) where
  -- What `final_schedule` does for a task: the state, and the task if its frames are destroyed.
  unfoldable pub final_task : ℕ → Option ℕ → World → World × List ℕ
  final_task task none w = (w, [])
  final_task task (some s) w = (unwind task (remove task s w), task ∷ [])

  unfoldable pub final_tasks : List ℕ → World → World × List ℕ
  unfolding final_task
  final_tasks [] w = (w, [])
  final_tasks (task ∷ rest) w =
      let r = final_task task (w.tasks task).waiting_cond w in
      let more = final_tasks rest r.0 in (more.0, r.1 ++ more.1)

  -- `final_schedule`: the state, and the tasks whose frames were destroyed.
  unfoldable pub final_schedule : ℕ → ℕ → World → World × List ℕ
  unfolding final_tasks
  final_schedule c pindex w =
      let i = slot w c pindex in
      let q = (w.contexts c).schedulers i in
      final_tasks ((w.contexts c).allocators i).pool
        (set_scheduler c i (record q { signal = none }) w)
