-- ===== src/Sched/Places/Settled.antt =====
-- Where a worker puts a task that it ran.
use cgo.Base.{
  ℕ, ◌≡◌, refl, ◌||◌, Bool, true, false, if◌then◌else◌, Option, none, some, List, arith, has,
  update, ap, ◌∙◌, sym, subst,
}
use cgo.Linked.{unlink_from}
use cgo.Sched.{World, Task, slot, set_task, incr}
use cgo.Sched.Condition.{suspend_to_this}
use cgo.Sched.Run.{
  Bodies, is_waiting, set_allocator, settle, requeue, block, destroy, erase_indexed,
}
use cgo.Sched.Places.{Place, nowhere, running, queued, blocked, joined, joined-nowhere}
use cgo.Sched.Places.Moves.{
  lists, IsHome, IsTidy, IsSpared, push-IsSteady, IsAlike, lists-IsAlike, lists-push, lists-suspend,
  lists-stop,
}
use cgo.Sched.Places.Shift.{Tidy, shift-IsTidy}

module _ (place : ℕ → Place) (run : List ℕ) (w : World) (d : IsTidy place run w) where
  pub settles-IsTidy :
      (b : Bodies) (t : ℕ) (v : World)
      → has t run ≡ true
      → ((w.tasks t).yielded || is_waiting (w.tasks t) || b.done t w) ≡ true
      → settle b t w ≡ some v
      → Tidy (record { run = unlink_from t run; world = v })
  unfolding settle requeue block destroy erase_indexed is_waiting suspend_to_this
  settles-IsTidy b t v r x e = by_end (b.done t w) (w.tasks t).yielded refl refl e
    where
      task : Task
      task = w.tasks t

      i : ℕ
      i = slot w task.ctx task.id

      new : List ℕ
      new = unlink_from t run

      -- The task leaves its worker for the place `j`.
      to :
          (j : Place) (u : World)
          → ((k : Place) → lists new u k ≡ joined t j k (lists new w k))
          → IsSpared t w u
          → IsHome u t j
          → Tidy (record { run = new; world = u })
      to j u at s h = (
        update place t j,
        shift-IsTidy place run w d t running j new u r
            (λ k. at k ∙ ap (joined t j k) (lists-stop run w t k)) s h,
      )

      ended :
          (o : Option ℕ)
          → erase_indexed task.ctx i task.id o w ≡ some v
          → Tidy (record { run = new; world = v })
      ended none f = ground (arith, f)
      ended (some t') f =
          let a = (w.contexts task.ctx).allocators i in
          let u =
            set_allocator task.ctx i
              (record { pool = unlink_from t' a.pool; index = update a.index task.id none }) w in
          let h : IsAlike w u = record {
            queues = λ e l. ground arith;
            conds = λ s. refl;
            sizes = λ e. ground arith;
          } in
          subst (λ z. Tidy (record { run = new; world = z })) (ground (arith, f))
            (to nowhere u (λ k. lists-IsAlike new h k ∙ sym (joined-nowhere t k (lists new w k)))
              (record { others = λ a n. refl; sizes = h.sizes }) tt)

      again : Tidy (record { run = new; world = requeue b t w })
      again =
          let u = set_task t (record task { yield_cnt = incr task.yield_cnt }) w in
          let h = push-IsSteady task.ctx i t u in
          let l : IsAlike w u = record {
            queues = λ e l. refl;
            conds = λ s. refl;
            sizes = λ e. refl;
          } in
          let own : u.tasks t ≡ record task { yield_cnt = incr task.yield_cnt } = ground arith in
          let now = ap (λ (f : ℕ → Task). f t) h.tasks ∙ own in
          to (queued task.ctx i) (requeue b t w)
            (λ k.
              lists-push new u task.ctx i t k
              ∙ ap (joined t (queued task.ctx i) k) (lists-IsAlike new l k))
            (record {
              others = λ a n. ap (λ (f : ℕ → Task). f a) h.tasks ∙ ground (arith, n);
              sizes = h.sizes;
            })
            (ap (λ (y : Task). y.ctx) now, rw (now, h.sizes task.ctx) refl)

      waits :
          (o : Option ℕ)
          → task.waiting_cond ≡ o
          → is_waiting task ≡ true
          → Tidy (record { run = new; world = block b t o w })
      waits none f g = ground (arith, f, g)
      waits (some s) f g =
          let u = set_task t (record task { suspend_cnt = incr task.suspend_cnt }) w in
          let l : IsAlike w u = record {
            queues = λ e l. refl;
            conds = λ s. refl;
            sizes = λ e. refl;
          } in
          to (blocked s) (suspend_to_this t s u)
            (λ k. lists-suspend new u t s k ∙ ap (joined t (blocked s) k) (lists-IsAlike new l k))
            (record { others = λ a n. ground (arith, n); sizes = λ e. refl }) (ground (arith, f))

      by_end :
          (n y : Bool)
          → b.done t w ≡ n
          → task.yielded ≡ y
          → (if n
              then destroy t task.ctx i w
              else if y
              then some (requeue b t w)
              else some (block b t task.waiting_cond w))
            ≡ some v
          → Tidy (record { run = new; world = v })
      by_end true y p q f = ended (((w.contexts task.ctx).allocators i).index task.id) f
      by_end false true p q f =
          subst (λ z. Tidy (record { run = new; world = z })) (ground (arith, f)) again
      by_end false false p q f =
          subst (λ z. Tidy (record { run = new; world = z })) (ground (arith, f))
            (waits task.waiting_cond refl (ground (arith, x, p, q)))
