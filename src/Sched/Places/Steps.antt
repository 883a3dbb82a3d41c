-- ===== src/Sched/Places/Steps.antt =====
-- Tasks and workers over any interleaving: creation, turns on workers, yields, waits and wake-ups.
use cgo.Base.{
  ℕ, ◌≡◌, refl, ◌||◌, true, false, some, List, [], ◌∷◌, ◌++◌, arith, has, update, Bool-cases, inl,
  inr, ap, ◌∙◌, sym, subst, ltb, ◌-◌,
}
use cgo.Linked.{unlink_from}
use cgo.Sched.{World, Task, slot, set_sem, set_context, incr, pop, push, take_first}
use cgo.Sched.Condition.{wait, wait_resumed, schedule_from_this}
use cgo.Sched.Semaphore.{aquire_round, release}
use cgo.Sched.Run.{create, Bodies, is_waiting, create_scheduled, start_task, yield_task, settle}
use cgo.Sched.Places.{Place, running, queued, without, joined, place-nowhere, without-nowhere}
use cgo.Sched.Places.Moves.{
  lists, IsHome, IsTidy, IsSpared, IsSteady, push-IsSteady, take_first-IsSteady, IsAlike,
  move-IsTidy, lists-IsAlike, lists-push, lists-take, lists-run,
}
use cgo.Sched.Places.Shift.{
  Roster, Tidy, alike-IsTidy, run-IsTidy, shift-IsTidy, woken, schedule_first-IsTidy,
}
use cgo.Sched.Places.Settled.{settles-IsTidy}

-- A task is created, at an address that is in no list; a worker takes the first task of a run queue; the
-- task that a worker runs yields, tries to take a semaphore or goes on after it was woken; any thread
-- releases a semaphore; and a worker puts its task away, which has yielded, waits or has ended.
pub data Step : Roster → Roster → Type 0 where
  creates :
      {v : Roster} (t c : ℕ)
      → ((k : Place) → has t (lists v.run v.world k) ≡ false)
      → Step v (record v { world = create_scheduled t c v.world })
  takes :
      {v : Roster} (b : Bodies) (t c i : ℕ)
      → (pop c i v.world).0 ≡ some t
      → Step v (record { run = v.run ++ t ∷ []; world = start_task b t (pop c i v.world).1 })
  yields :
      {v : Roster} (t : ℕ) → has t v.run ≡ true → Step v (record v { world = yield_task t v.world })
  aquires :
      {v : Roster} (t s : ℕ)
      → has t v.run ≡ true
      → Step v (record v { world = (aquire_round t s v.world).0 })
  resumes : {v : Roster} (s : ℕ) → Step v (record v { world = wait_resumed s v.world })
  releases : {v : Roster} (s : ℕ) → Step v (record v { world = release s v.world })
  settles :
      {v : Roster} (b : Bodies) (t : ℕ) (w : World)
      → has t v.run ≡ true
      → ((v.world.tasks t).yielded || is_waiting (v.world.tasks t) || b.done t v.world) ≡ true
      → settle b t v.world ≡ some w
      → Step v (record { run = unlink_from t v.run; world = w })

pub data Reach (u : Roster) : Roster → Type 0 where
  here : Reach u u
  next : {v w : Roster} → Reach u v → Step v w → Reach u w

module _ (place : ℕ → Place) (run : List ℕ) (w : World) (d : IsTidy place run w) where
  creates-IsTidy :
      (t c : ℕ)
      → ((k : Place) → has t (lists run w k) ≡ false)
      → Tidy (record { run = run; world = create_scheduled t c w })
  unfolding create_scheduled create
  creates-IsTidy t c free = (update place t j, move-IsTidy place run run w v t j d at spared atHome)
    where
      id : ℕ
      id = (w.contexts c).tid

      i : ℕ
      i = slot w c id

      j : Place
      j = queued c i

      u : World
      u = create t c i id (set_context c (record (w.contexts c) { tid = incr id }) w)

      v : World
      v = push c i t u

      alike : IsAlike w u
      alike = record { queues = λ e l. ground arith; conds = λ s. refl; sizes = λ e. ground arith }

      at : (k : Place) → lists run v k ≡ joined t j k (without t (place t) k (lists run w k))
      at k =
          lists-push run u c i t k
          ∙ ap (joined t j k)
              (lists-IsAlike run alike k ∙ sym (without-nowhere t k (lists run w k)))
          ∙ ap (λ o. joined t j k (without t o k (lists run w k)))
              (sym (place-nowhere place (lists run w) t d.placed free))

      h : IsSteady u v
      h = push-IsSteady c i t u

      spared : IsSpared t w v
      spared = record {
        others = λ a n. ap (λ (f : ℕ → Task). f a) h.tasks ∙ ground (arith, n);
        sizes = λ e. h.sizes e ∙ alike.sizes e;
      }

      new : (u.tasks t).ctx ≡ c
      new = ground arith

      newid : (u.tasks t).id ≡ id
      newid = ground arith

      atHome : IsHome v t j
      atHome = (
        ap (λ (f : ℕ → Task). (f t).ctx) h.tasks ∙ new,
        rw (h.tasks, newid, h.sizes c, alike.sizes c) refl,
      )

  takes-IsTidy :
      (b : Bodies) (t c i : ℕ)
      → (pop c i w).0 ≡ some t
      → Tidy (record { run = run ++ t ∷ []; world = start_task b t (pop c i w).1 })
  unfolding pop start_task
  takes-IsTidy b t c i e = go ((w.contexts c).schedulers i).runnable refl e
    where
      go :
          (q : List ℕ)
          → ((w.contexts c).schedulers i).runnable ≡ q
          → (take_first c i q w).0 ≡ some t
          → Tidy (record { run = run ++ t ∷ []; world = start_task b t (take_first c i q w).1 })
      go [] f h = ground (arith, h)
      go (x ∷ rest) f h =
          subst (λ y. Tidy (record { run = run ++ y ∷ []; world = start_task b y u })) same_task
            (
              update place x running,
              shift-IsTidy place run w d x (queued c i) running (run ++ x ∷ []) v
                  (ap (has x) f ∙ ground arith) at spared tt,
            )
        where
          same_task : x ≡ t
          same_task = ground (arith, h)

          u : World
          u = (take_first c i (x ∷ rest) w).1

          v : World
          v = start_task b x u

          steady : IsSteady w u
          steady = take_first-IsSteady c i (x ∷ rest) w

          alike : IsAlike u v
          alike = record { queues = λ e l. refl; conds = λ s. refl; sizes = λ e. refl }

          at :
              (k : Place)
              → lists (run ++ x ∷ []) v k
                ≡ joined x running k (without x (queued c i) k (lists run w k))
          at k =
              lists-run run v x k
              ∙ ap (joined x running k)
                  (lists-IsAlike run alike k ∙ lists-take run w c i x rest f k)

          spared : IsSpared x w v
          spared = record {
            others = λ a n. ground (arith, n) ∙ ap (λ (f : ℕ → Task). f a) steady.tasks;
            sizes = steady.sizes;
          }

  releases-IsTidy : (s : ℕ) → Tidy (record { run = run; world = release s w })
  unfolding release schedule_from_this
  releases-IsTidy s =
      let v = set_sem s (record (w.sems s) { vacant = incr (w.sems s).vacant }) w in
      (
        woken place v (v.sems s).cond.blocked,
        schedule_first-IsTidy place run v s (v.sems s).cond.blocked
            (alike-IsTidy place run w d v
              (record { queues = λ c i. refl; conds = λ r. ground arith; sizes = λ c. refl }) refl)
            refl,
      )

  aquires-IsTidy : (t s : ℕ) → has t run ≡ true → IsTidy place run (aquire_round t s w).0
  unfolding aquire_round wait
  aquires-IsTidy t s r = elim (Bool-cases (ltb 0 (w.sems s).vacant)) [
    | inl y ↦ rw y (
        alike-IsTidy place run w d
          (set_sem s (record (w.sems s) { vacant = (w.sems s).vacant - 1 }) w)
          (record { queues = λ c i. refl; conds = λ r. ground arith; sizes = λ c. refl }) refl)
    | inr n ↦ rw n (
        run-IsTidy place run w d t (wait t s w)
          (record { queues = λ c i. refl; conds = λ r. refl; sizes = λ c. refl })
          (record { others = λ a n. ground arith; sizes = λ c. refl }) r)
  ]

  yields-IsTidy : (t : ℕ) → has t run ≡ true → IsTidy place run (yield_task t w)
  unfolding yield_task
  yields-IsTidy t r =
      run-IsTidy place run w d t (yield_task t w)
        (record { queues = λ c i. refl; conds = λ r. refl; sizes = λ c. refl })
        (record { others = λ a n. ground arith; sizes = λ c. refl }) r

  resumes-IsTidy : (s : ℕ) → IsTidy place run (wait_resumed s w)
  unfolding wait_resumed
  resumes-IsTidy s =
      alike-IsTidy place run w d (wait_resumed s w)
        (record { queues = λ c i. refl; conds = λ r. ground arith; sizes = λ c. refl }) refl

Step-Tidy : {u v : Roster} → Step u v → Tidy u → Tidy v
Step-Tidy {u} (creates t c f) (p, d) = creates-IsTidy p u.run u.world d t c f
Step-Tidy {u} (takes b t c i e) (p, d) = takes-IsTidy p u.run u.world d b t c i e
Step-Tidy {u} (yields t r) (p, d) = (p, yields-IsTidy p u.run u.world d t r)
Step-Tidy {u} (aquires t s r) (p, d) = (p, aquires-IsTidy p u.run u.world d t s r)
Step-Tidy {u} (resumes s) (p, d) = (p, resumes-IsTidy p u.run u.world d s)
Step-Tidy {u} (releases s) (p, d) = releases-IsTidy p u.run u.world d s
Step-Tidy {u} (settles b t w r x e) (p, d) = settles-IsTidy p u.run u.world d b t w r x e

-- However tasks are created, taken by workers, yield, wait for semaphores, are woken and are put away: if
-- there is a table that gives every task one place, with which the run queues, the blocked tasks
-- and the running ones agree, each task standing once where the table says and nowhere else, then there is one ever after. A
-- queued task is in the run queue of its own partition, and a blocked one under the condition that it waits for.
pub Reach-Tidy : {u v : Roster} → Tidy u → Reach u v → Tidy v
Reach-Tidy t here = t
Reach-Tidy t (next r s) = Step-Tidy s (Reach-Tidy t r)
