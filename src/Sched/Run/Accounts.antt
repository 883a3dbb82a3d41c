-- ===== src/Sched/Run/Accounts.antt =====
-- Where a task is after it was created, and after a round of `_execute`.
use cgo.Base.{
  Bool, ℕ, ◌≡◌, refl, ap, true, false, Option, none, some, [], ◌∷◌, ◌++◌, arith, update, has, ◌∙◌,
  append-nil, ==-self,
}
use cgo.Linked.{unlink_from}
use cgo.Linked.Remove.{unlink_from-append}
use cgo.Sched.{World, Task, slot, push, emit_to}
use cgo.Sched.Run.{
  Bodies, set_allocator, create, erase_indexed, destroy, create_scheduled, requeue, block, settle,
}
use cgo.Sched.Condition.{suspend_to_this}

emit_to-contexts : (o : Option ℕ) (w : World) → (emit_to o w).contexts ≡ w.contexts
unfolding emit_to
emit_to-contexts none w = refl
emit_to-contexts (some s) w = refl

push-runnable :
    (c i t : ℕ) (w : World)
    → (((push c i t w).contexts c).schedulers i).runnable
      ≡ ((w.contexts c).schedulers i).runnable ++ t ∷ []
unfolding push
push-runnable c i t w = rw emit_to-contexts (ground arith)

push-allocators :
    (c i t : ℕ) (w : World) → ((push c i t w).contexts c).allocators ≡ (w.contexts c).allocators
unfolding push
push-allocators c i t w = rw emit_to-contexts (ground arith)

-- A new task stands behind the others in the run queue of its partition, its allocator finds it by
-- its id, and the next task gets another id.
pub create_scheduled_lem :
    (task c : ℕ) (w : World)
    → let id = (w.contexts c).tid in
      let i = slot w c id in
      let v = (create_scheduled task c w).contexts c in
      ((v.schedulers i).runnable ≡ ((w.contexts c).schedulers i).runnable ++ task ∷ [])
      × ((v.allocators i).index id ≡ some task)
      × ((v.allocators i).pool ≡ ((w.contexts c).allocators i).pool ++ task ∷ [])
unfolding create_scheduled create
create_scheduled_lem task c w = (
  rw push-runnable (ground arith),
  rw push-allocators (ground arith),
  rw push-allocators (ground arith),
)

-- The state without the task that `id` led to.
abbrev forget : ℕ → ℕ → ℕ → ℕ → World → World
forget task c i id w =
    let a = (w.contexts c).allocators i in
    set_allocator c i (record { pool = unlink_from task a.pool; index = update a.index id none }) w

destroy-known :
    (task c i id : ℕ) (w : World)
    → (w.tasks task).id ≡ id
    → ((w.contexts c).allocators i).index id ≡ some task
    → destroy task c i w ≡ some (forget task c i id w)
unfolding destroy
destroy-known task c i id w e f = rw (e, f, erase_indexed) (λ j. some (forget task c i (e j) w))

create-facts :
    (task c i id : ℕ) (w : World)
    → let u = create task c i id w in
      ((u.tasks task).id ≡ id)
      × (((u.contexts c).allocators i).index id ≡ some task)
      × (((u.contexts c).allocators i).pool ≡ ((w.contexts c).allocators i).pool ++ task ∷ [])
unfolding create
create-facts task c i id w = (ground arith, ground arith, ground arith)

-- `destroy` undoes `create`: if the new task's address was not in the pool, then after both the
-- pool is as before and the id leads nowhere, and `destroy` does not throw.
pub destroy-create :
    (task c i id : ℕ) (w : World)
    → has task ((w.contexts c).allocators i).pool ≡ false
    → (v : World) × (destroy task c i (create task c i id w) ≡ some v)
      × (((v.contexts c).allocators i).pool ≡ ((w.contexts c).allocators i).pool)
      × (((v.contexts c).allocators i).index id ≡ none)
destroy-create task c i id w new =
    let u = create task c i id w in
    let f = create-facts task c i id w in
    let p = ((w.contexts c).allocators i).pool in
    (
      forget task c i id u,
      destroy-known task c i id u f.0 f.1,
      rw (==-self c, ==-self i, f.2) (unlink_from-append task p [] new ∙ append-nil p),
      rw (==-self c, ==-self i) (ground arith),
    )

-- Where a task is after its turn, given whether it has ended, whether it yielded, and on which
-- condition it waits: forgotten by its allocator, last in the run queue of its partition, or last
-- among the tasks that the condition blocks while no run queue changes.
abbrev pub Place : Bool → Bool → Option ℕ → ℕ → World → World → Type 0
Place true yielded cond task w v =
    let x = w.tasks task in ((v.contexts x.ctx).allocators (slot w x.ctx x.id)).index x.id ≡ none
Place false true cond task w v =
    let x = w.tasks task in
    ((v.contexts x.ctx).schedulers (slot w x.ctx x.id)).runnable
    ≡ ((w.contexts x.ctx).schedulers (slot w x.ctx x.id)).runnable ++ task ∷ []
Place false false none task w v = v ≡ w
Place false false (some s) task w v =
    ((v.sems s).cond.blocked ≡ (w.sems s).cond.blocked ++ task ∷ []) × (v.contexts ≡ w.contexts)

module _ (b : Bodies) (task : ℕ) (w : World) where
  abbrev own : Task
  own = w.tasks task

  abbrev home : ℕ
  home = slot w own.ctx own.id

  settle-ended :
      b.done task w ≡ true
      → ((w.contexts own.ctx).allocators home).index own.id ≡ some task
      → settle b task w ≡ some (forget task own.ctx home own.id w)
  unfolding settle
  settle-ended d k = rw d (destroy-known task own.ctx home own.id w refl k)

  settle-yielded :
      b.done task w ≡ false → own.yielded ≡ true → settle b task w ≡ some (requeue b task w)
  unfolding settle
  settle-yielded d n = rw (d, n)

  settle-waiting :
      b.done task w ≡ false
      → own.yielded ≡ false
      → settle b task w ≡ some (block b task own.waiting_cond w)
  unfolding settle
  settle-waiting d n = rw (d, n)

  -- A task that its allocator finds by its id is put away after its turn: `settle` succeeds and
  -- leaves the task where its end, its yield or its wait says.
  pub settle_places :
      ((w.contexts own.ctx).allocators home).index own.id ≡ some task
      → (v : World) × (settle b task w ≡ some v)
        × Place (b.done task w) own.yielded own.waiting_cond task w v
  unfolding requeue block suspend_to_this
  settle_places k = go (b.done task w) own.yielded own.waiting_cond refl refl refl
    where
      go :
          (d y : Bool) (o : Option ℕ)
          → b.done task w ≡ d
          → own.yielded ≡ y
          → own.waiting_cond ≡ o
          → (v : World) × (settle b task w ≡ some v) × Place d y o task w v
      go true y o d e f = (forget task own.ctx home own.id w, settle-ended d k, ground arith)
      go false true o d e f = (requeue b task w, settle-yielded d e, push-runnable _ _ _ _)
      go false false none d e f =
          (w, settle-waiting d e ∙ ap (λ z. some (block b task z w)) f, refl)
      go false false (some s) d e f = (
        block b task (some s) w,
        settle-waiting d e ∙ ap (λ z. some (block b task z w)) f,
        (ground arith, refl),
      )
