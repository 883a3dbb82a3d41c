-- ===== src/Sched/Run/Held.antt =====
-- The permits that `final_schedule` gives back.
use cgo.Base.{
  ℕ, ◌≡◌, refl, ◌+◌, ◌%◌, ◌^◌, ◌==◌, if◌then◌else◌, none, List, [], ◌∷◌, ◌++◌, arith, count,
  count-append, Bool-cases, Option-cases, inl, inr, ap, ◌∙◌,
}
use cgo.Sched.{World, slot, set_scheduler, set_sem, incr}
use cgo.Sched.Condition.{remove, unlink_task, schedule_from_this, schedule_first, same_ctx}
use cgo.Sched.Permits.{push-sems}
use cgo.Sched.Semaphore.{release}
use cgo.Sched.Run.{final_task, final_tasks, final_schedule}
use cgo.Sched.Run.Final.{release_all, Releases}

-- The semaphores that some tasks hold.
abbrev pub held_by : (ℕ → List ℕ) → List ℕ → List ℕ
held_by held [] = []
held_by held (t ∷ ts) = held t ++ held_by held ts

-- The permits of `r` in `v` are those in `w` with `n` more, counted in 64 bits.
abbrev pub Gained : ℕ → ℕ → World → World → Type 0
Gained r n w v = (v.sems r).vacant % 2 ^ 64 ≡ ((w.sems r).vacant + n) % 2 ^ 64

schedule_first-vacant :
    (r s : ℕ) (b : List ℕ) (w : World) → ((schedule_first s b w).sems r).vacant ≡ (w.sems r).vacant
unfolding schedule_first
schedule_first-vacant r s [] w = refl
schedule_first-vacant r s (t ∷ b) w = rw push-sems (ground arith)

remove-vacant : (r t s : ℕ) (w : World) → ((remove t s w).sems r).vacant ≡ (w.sems r).vacant
unfolding remove unlink_task schedule_from_this
remove-vacant r t s w =
    let v : World = unlink_task t s w in
    elim (Bool-cases (same_ctx (w.sems s).cond.scheduled_ctx (w.tasks t).ctx)) [
      | inl y ↦ rw y (schedule_first-vacant r s (v.sems s).cond.blocked v ∙ ground arith)
      | inr n ↦ rw n (ground arith)
    ]

release_vacant :
    (r s : ℕ) (w : World)
    → ((release s w).sems r).vacant ≡ (if s == r then incr (w.sems r).vacant else (w.sems r).vacant)
unfolding release schedule_from_this
release_vacant r s w =
    let v : World = set_sem s (record (w.sems s) { vacant = incr (w.sems s).vacant }) w in
    schedule_first-vacant r s (v.sems s).cond.blocked v ∙ ground arith

release_all-Gained : (r : ℕ) (ss : List ℕ) (w : World) → Gained r (count r ss) w (release_all ss w)
release_all-Gained r [] w = omega arith
release_all-Gained r (s ∷ ss) w =
    ground (arith, release_all-Gained r ss (release s w), release_vacant r s w)

module _ (held : ℕ → List ℕ) (unwind : ℕ → World → World) (u : Releases held unwind) where
  final_tasks-Gained :
      (r : ℕ) (ts : List ℕ) (w : World)
      → let z = final_tasks unwind ts w in Gained r (count r (held_by held z.1)) w z.0
  unfolding final_tasks final_task
  final_tasks-Gained r [] w = omega arith
  final_tasks-Gained r (t ∷ ts) w = elim (Option-cases (w.tasks t).waiting_cond) [
    | inl n ↦ rw n (final_tasks-Gained r ts w)
    | inr (s, e) ↦ rw e (
        let v : World = remove t s w in
        omega (
          arith,
          final_tasks-Gained r ts (unwind t v),
          ap (λ (x : World). (x.sems r).vacant) (u t v),
          release_all-Gained r (held t) v,
          remove-vacant r t s w,
          count-append r (held t) (held_by held (final_tasks unwind ts (unwind t v)).1),
        ))
  ]

  pub final_schedule-Gained :
      (r c pindex : ℕ) (w : World)
      → let z = final_schedule unwind c pindex w in Gained r (count r (held_by held z.1)) w z.0
  unfolding final_schedule
  final_schedule-Gained r c pindex w =
      let i = slot w c pindex in
      final_tasks-Gained r ((w.contexts c).allocators i).pool
        (set_scheduler c i (record ((w.contexts c).schedulers i) { signal = none }) w)
