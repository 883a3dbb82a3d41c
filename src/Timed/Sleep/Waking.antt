-- ===== src/Timed/Sleep/Waking.antt =====
-- What `release`, and the callbacks of `sleep`, do to a task that a semaphore blocks.
use cgo.Base.{
  ℕ, ◌≡◌, refl, ◌==◌, true, false, List, [], ◌∷◌, arith, has, has-append, Bool-cases, inl, inr, ap,
  ◌∙◌, eq_of_==,
}
use cgo.Sched.{World, slot}
use cgo.Sched.Semaphore.{release}
use cgo.Sched.Places.{queued, joined, without, blocked}
use cgo.Linked.{unlink_from}
use cgo.Sched.Places.Moves.{lists, home}
use cgo.Sched.Places.Released.{released, lists-release, release-IsSteady}

-- The task is blocked by the semaphore alone; it is in its run queue, and the semaphore blocks no task.
abbrev pub IsAsleep : ℕ → ℕ → World → Type 0
IsAsleep task signal w = (w.sems signal).cond.blocked ≡ task ∷ []

abbrev pub IsAwake : ℕ → ℕ → World → Type 0
IsAwake task signal w =
    ((w.sems signal).cond.blocked ≡ []) × (has task (lists [] w (home w task)) ≡ true)

module _ (task signal : ℕ) where
  home-release : (r : ℕ) (w : World) → home (release r w) task ≡ home w task
  home-release r w = let h = release-IsSteady r w in rw (h.tasks, h.sizes (w.tasks task).ctx) refl

  has-released :
      (r : ℕ) (w : World) (b : List ℕ) (c i : ℕ)
      → has task (lists [] w (queued c i)) ≡ true
      → has task (released r w b (queued c i)) ≡ true
  unfolding joined without
  has-released r w [] c i h = h
  has-released r w (t ∷ b) c i h =
      ground (arith, h, has-append task ((w.contexts c).schedulers i).runnable (t ∷ []))

  others-released :
      (r : ℕ) (w : World) (b : List ℕ)
      → (r == signal) ≡ false
      → released r w b (blocked signal) ≡ (w.sems signal).cond.blocked
  unfolding joined without
  others-released r w [] n = refl
  others-released r w (t ∷ b) n = ground (arith, n)

  pub none-released :
      (r : ℕ) (w : World)
      → (w.sems signal).cond.blocked ≡ []
      → released r w (w.sems r).cond.blocked (blocked signal) ≡ []
  none-released r w e = elim (Bool-cases (r == signal)) [
    | inl y ↦
        (let f : (w.sems r).cond.blocked ≡ [] =
            ap (λ x. (w.sems x).cond.blocked) (eq_of_== r signal y) ∙ e in
          rw f e)
    | inr n ↦ others-released r w (w.sems r).cond.blocked n ∙ e
  ]

  release-queued :
      (r : ℕ) (w : World)
      → has task (released r w (w.sems r).cond.blocked (home w task)) ≡ true
      → has task (lists [] (release r w) (home (release r w) task)) ≡ true
  release-queued r w h = rw (home-release r w, lists-release r w (home w task)) h

  pub release-IsAwake :
      (r : ℕ) (w : World) → IsAwake task signal w → IsAwake task signal (release r w)
  release-IsAwake r w (e, h) =
      let x = w.tasks task in
      (
        lists-release r w (blocked signal) ∙ none-released r w e,
        release-queued r w (has-released r w (w.sems r).cond.blocked x.ctx (slot w x.ctx x.id) h),
      )

  pub release-IsAsleep :
      (r : ℕ) (w : World)
      → (r == signal) ≡ false
      → IsAsleep task signal w
      → IsAsleep task signal (release r w)
  release-IsAsleep r w n e =
      lists-release r w (blocked signal) ∙ others-released r w (w.sems r).cond.blocked n ∙ e

  pub release-wakes : (w : World) → IsAsleep task signal w → IsAwake task signal (release signal w)
  unfolding joined without unlink_from
  release-wakes w e =
      let x = w.tasks task in
      (
        lists-release signal w (blocked signal) ∙ rw e (ground (arith, e)),
        release-queued signal w (
            rw e (
              ground (
                arith,
                has-append task ((w.contexts x.ctx).schedulers (slot w x.ctx x.id)).runnable
                    (task ∷ []),
              ))),
      )
