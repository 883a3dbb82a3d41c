-- ===== src/Sched/Places/Released.antt =====
-- What `release` does to the lists of tasks.
use cgo.Base.{ℕ, ◌≡◌, refl, List, [], ◌∷◌, arith, ap, ◌∙◌}
use cgo.Sched.{World, set_sem, incr}
use cgo.Sched.Condition.{schedule_from_this, schedule_first}
use cgo.Sched.Semaphore.{release}
use cgo.Sched.Places.{Place, nowhere, running, queued, joined, without, blocked}
use cgo.Sched.Places.Moves.{
  lists, lists-schedule, home, IsSteady, IsSteady-trans, schedule_first-IsSteady,
}

-- The list `k` after a release, where `s` blocks the tasks of the list.
abbrev pub released : ℕ → World → List ℕ → Place → List ℕ
released s w [] k = lists [] w k
released s w (t ∷ b) k = joined t (home w t) k (without t (blocked s) k (lists [] w k))

module _ (s : ℕ) (w : World) where
  pub lists-release :
      (k : Place) → lists [] (release s w) k ≡ released s w (w.sems s).cond.blocked k
  unfolding release schedule_from_this schedule_first
  lists-release k = go (w.sems s).cond.blocked refl
    where
      v : World
      v = set_sem s (record (w.sems s) { vacant = incr (w.sems s).vacant }) w

      same_lists : (l : Place) → lists [] v l ≡ lists [] w l
      same_lists nowhere = refl
      same_lists running = refl
      same_lists (queued c i) = refl
      same_lists (blocked r) = ground arith

      go :
          (b : List ℕ)
          → (w.sems s).cond.blocked ≡ b
          → lists [] (schedule_first s (v.sems s).cond.blocked v) k ≡ released s w b k
      go [] e = let f : (v.sems s).cond.blocked ≡ [] = ground (arith, e) in rw f (same_lists k)
      go (t ∷ b) e =
          let f : (v.sems s).cond.blocked ≡ t ∷ b = ground (arith, e) in
          rw f (
            lists-schedule [] v s t b f k
            ∙ ap (λ l. joined t (home w t) k (without t (blocked s) k l)) (same_lists k))

  pub release-IsSteady : IsSteady w (release s w)
  unfolding release schedule_from_this
  release-IsSteady =
      let v : World = set_sem s (record (w.sems s) { vacant = incr (w.sems s).vacant }) w in
      let h : IsSteady w v = record { tasks = refl; sizes = λ c. refl } in
      IsSteady-trans h (schedule_first-IsSteady s (v.sems s).cond.blocked v)
