-- ===== src/Sched/Run/Final.antt =====
-- `final_schedule`: which tasks it destroys, and that the partition forgets its signal.
use cgo.Base.{
  ℕ, ◌≡◌, refl, ◌∙◌, ap, sym, subst, ◌==◌, ◌&&◌, if◌then◌else◌, Option, none, some, List, [], ◌∷◌,
  arith, Bool-cases, inl, inr, Option-cases,
}
use cgo.Sched.{World, Task, slot, set_scheduler, set_sem, incr, push, emit_to}
use cgo.Sched.Condition.{remove, unlink_task, schedule_from_this, schedule_first, same_ctx}
use cgo.Sched.Semaphore.{release}
use cgo.Sched.Run.{is_waiting, final_task, final_tasks, final_schedule}

-- `v` has the tasks of `w`, and every partition has the signal that it has in `w`.
record IsQuiet (w v : World) : Type 0 where
  tasks : v.tasks ≡ w.tasks
  pools : (c i : ℕ) → ((v.contexts c).allocators i).pool ≡ ((w.contexts c).allocators i).pool
  signals : (c i : ℕ) → ((v.contexts c).schedulers i).signal ≡ ((w.contexts c).schedulers i).signal

IsQuiet-trans : {u v w : World} → IsQuiet u v → IsQuiet v w → IsQuiet u w
IsQuiet-trans p q = record {
  tasks = q.tasks ∙ p.tasks;
  pools = λ c i. q.pools c i ∙ p.pools c i;
  signals = λ c i. q.signals c i ∙ p.signals c i;
}

emit_to-IsQuiet : (o : Option ℕ) (w : World) → IsQuiet w (emit_to o w)
unfolding emit_to
emit_to-IsQuiet none w = record { tasks = refl; pools = λ c i. refl; signals = λ c i. refl }
emit_to-IsQuiet (some s) w = record { tasks = refl; pools = λ c i. refl; signals = λ c i. refl }

push-IsQuiet : (c i t : ℕ) (w : World) → IsQuiet w (push c i t w)
unfolding push
push-IsQuiet c i t w =
    IsQuiet-trans
      (record { tasks = refl; pools = λ d j. ground arith; signals = λ d j. ground arith })
      (emit_to-IsQuiet ((w.contexts c).schedulers i).signal _)

schedule_first-IsQuiet : (s : ℕ) (b : List ℕ) (w : World) → IsQuiet w (schedule_first s b w)
unfolding schedule_first
schedule_first-IsQuiet s [] w = record { tasks = refl; pools = λ c i. refl; signals = λ c i. refl }
schedule_first-IsQuiet s (t ∷ rest) w =
    IsQuiet-trans (record { tasks = refl; pools = λ c i. refl; signals = λ c i. refl })
      (push-IsQuiet _ _ t _)

unlink_task-IsQuiet : (task s : ℕ) (w : World) → IsQuiet w (unlink_task task s w)
unfolding unlink_task
unlink_task-IsQuiet task s w = record {
  tasks = refl;
  pools = λ d j. ground arith;
  signals = λ d j. ground arith;
}

remove-IsQuiet : (task s : ℕ) (w : World) → IsQuiet w (remove task s w)
unfolding remove schedule_from_this
remove-IsQuiet task s w =
    elim (Bool-cases (same_ctx (w.sems s).cond.scheduled_ctx (w.tasks task).ctx)) [
      | inl y ↦ rw y (IsQuiet-trans u (schedule_first-IsQuiet s _ _))
      | inr n ↦ rw n u
    ]
  where
    u : IsQuiet w (unlink_task task s w)
    u = unlink_task-IsQuiet task s w

-- The tasks of a pool that wait on a condition.
abbrev pub waiting_among : (ℕ → Task) → List ℕ → List ℕ
waiting_among x [] = []
waiting_among x (t ∷ ts) = if is_waiting (x t) then t ∷ waiting_among x ts else waiting_among x ts

-- The semaphores are released one after the other.
abbrev pub release_all : List ℕ → World → World
release_all [] w = w
release_all (s ∷ ss) w = release_all ss (release s w)

-- All that the destruction of the frames of a task does to the state is to release the semaphores that it holds.
abbrev pub Releases : (ℕ → List ℕ) → (ℕ → World → World) → Type 0
Releases held unwind = (task : ℕ) (w : World) → unwind task w ≡ release_all (held task) w

release-IsQuiet : (s : ℕ) (w : World) → IsQuiet w (release s w)
unfolding release schedule_from_this
release-IsQuiet s w =
    let v : World = set_sem s (record (w.sems s) { vacant = incr (w.sems s).vacant }) w in
    let h : IsQuiet w v = record { tasks = refl; pools = λ c i. refl; signals = λ c i. refl } in
    IsQuiet-trans h (schedule_first-IsQuiet s (v.sems s).cond.blocked v)

release_all-IsQuiet : (ss : List ℕ) (w : World) → IsQuiet w (release_all ss w)
release_all-IsQuiet [] w = record { tasks = refl; pools = λ c i. refl; signals = λ c i. refl }
release_all-IsQuiet (s ∷ ss) w =
    IsQuiet-trans (release-IsQuiet s w) (release_all-IsQuiet ss (release s w))

module _ (held : ℕ → List ℕ) (unwind : ℕ → World → World) (u : Releases held unwind) where
  gone-IsQuiet : (t s : ℕ) (w : World) → IsQuiet w (unwind t (remove t s w))
  gone-IsQuiet t s w = IsQuiet-trans (remove-IsQuiet t s w) (
      subst (IsQuiet (remove t s w)) (sym (u t (remove t s w)))
        (release_all-IsQuiet (held t) (remove t s w)))

  final_tasks-IsQuiet : (ts : List ℕ) (w : World) → IsQuiet w (final_tasks unwind ts w).0
  unfolding final_tasks final_task
  final_tasks-IsQuiet [] w = record { tasks = refl; pools = λ c i. refl; signals = λ c i. refl }
  final_tasks-IsQuiet (t ∷ ts) w = elim (Option-cases (w.tasks t).waiting_cond) [
    | inl n ↦ rw n (final_tasks-IsQuiet ts w)
    | inr (s, e) ↦
        rw e (IsQuiet-trans (gone-IsQuiet t s w) (final_tasks-IsQuiet ts (unwind t (remove t s w))))
  ]

  final_tasks_waiting :
      (ts : List ℕ) (w : World) → (final_tasks unwind ts w).1 ≡ waiting_among w.tasks ts
  unfolding final_tasks final_task is_waiting
  final_tasks_waiting [] w = refl
  final_tasks_waiting (t ∷ ts) w = elim (Option-cases (w.tasks t).waiting_cond) [
    | inl n ↦ rw n (final_tasks_waiting ts w)
    | inr (s, e) ↦ rw e (
        ap (λ xs. t ∷ xs)
          (final_tasks_waiting ts (unwind t (remove t s w))
            ∙ ap (λ x. waiting_among x ts) (gone-IsQuiet t s w).tasks))
  ]

  -- If the destruction of frames only releases semaphores, `final_schedule` destroys the frames of
  -- exactly the waiting tasks of its partition, in the order of the pool; afterwards that partition has
  -- no signal, every other one the signal that it had, and all pools are as before.
  pub final_schedule_lem :
      (c pindex d j : ℕ) (w : World)
      → let i = slot w c pindex in
        let r = final_schedule unwind c pindex w in
        (r.1 ≡ waiting_among w.tasks ((w.contexts c).allocators i).pool)
        × (((r.0.contexts d).schedulers j).signal
            ≡ (if (c == d) && (i == j) then none else ((w.contexts d).schedulers j).signal))
        × (((r.0.contexts d).allocators j).pool ≡ ((w.contexts d).allocators j).pool)
  unfolding final_schedule
  final_schedule_lem c pindex d j w =
      let i = slot w c pindex in
      let pool = ((w.contexts c).allocators i).pool in
      let q = (w.contexts c).schedulers i in
      let v : World = set_scheduler c i (record q { signal = none }) w in
      let k = final_tasks-IsQuiet pool v in
      (final_tasks_waiting pool v, k.signals d j ∙ ground arith, k.pools d j ∙ ground arith)
