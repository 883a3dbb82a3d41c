-- ===== src/Sched/Places/Unwound.antt =====
-- What the guards of a destroyed coroutine, which release semaphores, do to the places of tasks.
use cgo.Base.{
  ℕ, ◌≡◌, refl, ◌==◌, true, false, List, [], ◌∷◌, arith, has, All, All-map, ap, ◌∙◌, sym, eq_of_==,
}
use cgo.Sched.{World, set_sem, incr}
use cgo.Sched.Condition.{schedule_from_this}
use cgo.Sched.Semaphore.{release}
use cgo.Sched.Run.Final.{release_all}
use cgo.Sched.Places.{Place, nowhere, blocked, same-eq}
use cgo.Sched.Places.Moves.{IsTidy, IsAlike, IsSteady, IsSteady-trans}
use cgo.Sched.Places.Released.{release-IsSteady}
use cgo.Sched.Places.Shift.{woken, schedule_first-IsTidy, alike-IsTidy}

-- A task that is nowhere is not woken.
pub woken-nowhere :
    (place : ℕ → Place) (w : World) (s a : ℕ) (b : List ℕ)
    → IsTidy place [] w
    → (w.sems s).cond.blocked ≡ b
    → place a ≡ nowhere
    → woken place w b a ≡ nowhere
woken-nowhere place w s a [] d e n = n
woken-nowhere place w s a (t ∷ rest) d e n =
    let h : has t (w.sems s).cond.blocked ≡ true = ap (has t) e ∙ ground arith in
    let p : place t ≡ blocked s =
      same-eq (blocked s) (place t) (sym (d.placed.holds (blocked s) t) ∙ h) in
    let o : (t == a) ≡ false = ground (arith, p, n, ap place (eq_of_== t a _)) in rw o n

-- The table `new` of `v` has nowhere what was nowhere in `place`, and `gone` too.
pub record IsRid (place : ℕ → Place) (gone : List ℕ) (w v : World) (new : ℕ → Place) : Type 0 where
  pub tidy : IsTidy new [] v
  pub still : (a : ℕ) → place a ≡ nowhere → new a ≡ nowhere
  pub now : All (λ a. new a ≡ nowhere) gone
  pub steady : IsSteady w v

module _ {w : World} where
  IsRid-refl : (place : ℕ → Place) → IsTidy place [] w → IsRid place [] w w place
  IsRid-refl place d = record {
    tidy = d;
    still = λ a n. n;
    now = tt;
    steady = record { tasks = refl; sizes = λ c. refl };
  }

-- What was gone stays gone.
pub IsRid-then :
    {p q r : ℕ → Place} {g : List ℕ} {u v w : World}
    → IsRid p g u v q
    → IsRid q [] v w r
    → IsRid p g u w r
IsRid-then x y = record {
  tidy = y.tidy;
  still = λ a n. y.still a (x.still a n);
  now = All-map _ (λ a h. y.still a h) x.now;
  steady = IsSteady-trans x.steady y.steady;
}

release-IsRid :
    (place : ℕ → Place) (w : World) (s : ℕ)
    → IsTidy place [] w
    → (new : ℕ → Place) × IsRid place [] w (release s w) new
unfolding release schedule_from_this
release-IsRid place w s d =
    let v : World = set_sem s (record (w.sems s) { vacant = incr (w.sems s).vacant }) w in
    let like : IsAlike w v = record {
      queues = λ c i. refl;
      conds = λ r. ground arith;
      sizes = λ c. refl;
    } in
    let e : IsTidy place [] v = alike-IsTidy place [] w d v like refl in
    let b = (v.sems s).cond.blocked in
    (
      woken place v b,
      record {
        tidy = schedule_first-IsTidy place [] v s b e refl;
        still = λ a n. woken-nowhere place v s a b e refl n;
        now = tt;
        steady = release-IsSteady s w;
      },
    )

pub release_all-IsRid :
    (ss : List ℕ) (place : ℕ → Place) (w : World)
    → IsTidy place [] w
    → (new : ℕ → Place) × IsRid place [] w (release_all ss w) new
release_all-IsRid [] place w d = (place, IsRid-refl place d)
release_all-IsRid (s ∷ ss) place w d =
    let (p, x) = release-IsRid place w s d in
    let (q, y) = release_all-IsRid ss p (release s w) x.tidy in (q, IsRid-then x y)
