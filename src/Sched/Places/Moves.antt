-- ===== src/Sched/Places/Moves.antt =====
-- What the operations of the scheduler do to the lists of tasks.
use cgo.Base.{
  ℕ, ◌≡◌, refl, ◌==◌, false, if◌then◌else◌, Option, none, some, List, [], ◌∷◌, ◌++◌, arith, update,
  Bool-cases, inl, inr, ap, ◌∙◌, subst, eq_of_==,
}
use cgo.Linked.{unlink_from}
use cgo.Sched.{World, Task, slot, emit_to, push, take_first, set_scheduler}
use cgo.Sched.Condition.{set_cond, suspend_to_this, schedule_first, unlink_task}
use cgo.Sched.Places.{
  Place, nowhere, running, queued, blocked, same, without, joined, IsPlaced, move-IsPlaced,
}

-- The list of tasks at a place, with the tasks that workers run.
abbrev pub lists : List ℕ → World → Place → List ℕ
lists run w nowhere = []
lists run w running = run
lists run w (queued c i) = ((w.contexts c).schedulers i).runnable
lists run w (blocked s) = (w.sems s).cond.blocked

-- Two worlds with the same queues, conditions, tasks and partitions.
pub record IsAlike (w v : World) : Type 0 where
  pub queues :
      (c i : ℕ) → ((v.contexts c).schedulers i).runnable ≡ ((w.contexts c).schedulers i).runnable
  pub conds : (s : ℕ) → (v.sems s).cond.blocked ≡ (w.sems s).cond.blocked
  pub sizes : (c : ℕ) → (v.contexts c).size ≡ (w.contexts c).size

pub lists-IsAlike :
    (run : List ℕ) {w v : World} → IsAlike w v → (k : Place) → lists run v k ≡ lists run w k
lists-IsAlike run a nowhere = refl
lists-IsAlike run a running = refl
lists-IsAlike run a (queued c i) = a.queues c i
lists-IsAlike run a (blocked s) = a.conds s

emit_to-IsAlike : (o : Option ℕ) (w : World) → IsAlike w (emit_to o w)
unfolding emit_to
emit_to-IsAlike none w = record { queues = λ c i. refl; conds = λ s. refl; sizes = λ c. refl }
emit_to-IsAlike (some s) w = record { queues = λ c i. refl; conds = λ s. refl; sizes = λ c. refl }

unlink_from-first : (t : ℕ) (rest : List ℕ) → unlink_from t (t ∷ rest) ≡ rest
unfolding unlink_from
unlink_from-first t rest = ground arith

module _ (run : List ℕ) (w : World) where
  -- `push` puts a task into a run queue.
  pub lists-push :
      (c i t : ℕ) (k : Place) → lists run (push c i t w) k ≡ joined t (queued c i) k (lists run w k)
  unfolding push joined
  lists-push c i t k = lists-IsAlike run (emit_to-IsAlike _ _) k ∙ at k
    where
      q : World
      q =
          set_scheduler c i
            (record ((w.contexts c).schedulers i) {
              runnable = ((w.contexts c).schedulers i).runnable ++ t ∷ [];
            })
            w

      at :
          (k : Place)
          → lists run q k ≡ (if same k (queued c i) then lists run w k ++ t ∷ [] else lists run w k)
      at nowhere = refl
      at running = refl
      at (queued d j) = ground arith
      at (blocked s) = refl

  -- `_suspend_to_this` puts it among the blocked ones.
  pub lists-suspend :
      (t s : ℕ) (k : Place)
      → lists run (suspend_to_this t s w) k ≡ joined t (blocked s) k (lists run w k)
  unfolding suspend_to_this joined
  lists-suspend t s nowhere = refl
  lists-suspend t s running = refl
  lists-suspend t s (queued d j) = refl
  lists-suspend t s (blocked r) = ground arith

  -- `pop` takes the first one from a run queue.
  pub lists-take :
      (c i t : ℕ) (rest : List ℕ)
      → lists run w (queued c i) ≡ t ∷ rest
      → (k : Place)
      → lists run (take_first c i (t ∷ rest) w).1 k ≡ without t (queued c i) k (lists run w k)
  unfolding take_first without unlink_from
  lists-take c i t rest e nowhere = refl
  lists-take c i t rest e running = refl
  lists-take c i t rest e (queued d j) =
      let f : unlink_from t ((w.contexts c).schedulers i).runnable ≡ rest =
        ap (unlink_from t) e ∙ unlink_from-first t rest in
      ground (arith, f)
  lists-take c i t rest e (blocked r) = refl

  -- The first blocked task leaves the list of its condition.
  lists-unblock :
      (s t : ℕ) (o : Option ℕ) (rest : List ℕ)
      → lists run w (blocked s) ≡ t ∷ rest
      → (k : Place)
      → lists run (set_cond s (record { blocked = rest; scheduled_ctx = o }) w) k
        ≡ without t (blocked s) k (lists run w k)
  unfolding without
  lists-unblock s t o rest e nowhere = refl
  lists-unblock s t o rest e running = refl
  lists-unblock s t o rest e (queued c i) = refl
  lists-unblock s t o rest e (blocked r) =
      let f : unlink_from t (w.sems s).cond.blocked ≡ rest =
        ap (unlink_from t) e ∙ unlink_from-first t rest in
      ground (arith, f)

  -- `unlink_this` takes a task from its run queue and from the condition that it waits for.
  pub lists-unlink :
      (t s : ℕ) (k : Place)
      → lists run (unlink_task t s w) k
        ≡ without t
            (queued (w.tasks t).ctx (slot w (w.tasks t).ctx (w.tasks t).id))
            k
            (without t (blocked s) k (lists run w k))
  unfolding unlink_task without
  lists-unlink t s nowhere = refl
  lists-unlink t s running = refl
  lists-unlink t s (queued c i) = ground arith
  lists-unlink t s (blocked r) = ground arith

-- The run queue that a task belongs to.
abbrev pub home : World → ℕ → Place
home w t = let x = w.tasks t in queued x.ctx (slot w x.ctx x.id)

-- `_schedule_from_this` moves the longest blocked task to its own run queue.
pub lists-schedule :
    (run : List ℕ) (w : World) (s t : ℕ) (rest : List ℕ)
    → lists run w (blocked s) ≡ t ∷ rest
    → (k : Place)
    → lists run (schedule_first s (t ∷ rest) w) k
      ≡ joined t (home w t) k (without t (blocked s) k (lists run w k))
unfolding schedule_first
lists-schedule run w s t rest e k =
    let x = w.tasks t in
    let u = set_cond s (record { blocked = rest; scheduled_ctx = some x.ctx }) w in
    lists-push run u x.ctx (slot w x.ctx x.id) t k
    ∙ ap (joined t (home w t) k) (lists-unblock run w s t (some x.ctx) rest e k)

-- A task is in the run queue of its own partition, or waits for what it says.
abbrev pub IsHome : World → ℕ → Place → Type 0
IsHome w t (queued c i) = ((w.tasks t).ctx ≡ c) × (slot w c (w.tasks t).id ≡ i)
IsHome w t (blocked s) = (w.tasks t).waiting_cond ≡ some s
IsHome w t _ = Unit {0}

-- The table `place` tells where each task is, and each is where it belongs.
pub record IsTidy (place : ℕ → Place) (run : List ℕ) (w : World) : Type 0 where
  pub placed : IsPlaced place (lists run w)
  pub homes : (t : ℕ) → IsHome w t (place t)

-- The tasks but `t`, and the numbers of partitions, are the same.
pub record IsSpared (t : ℕ) (w v : World) : Type 0 where
  pub others : (a : ℕ) → (t == a) ≡ false → v.tasks a ≡ w.tasks a
  pub sizes : (c : ℕ) → (v.contexts c).size ≡ (w.contexts c).size

pub IsHome-IsSpared :
    (t a : ℕ) (w v : World) (k : Place)
    → IsSpared t w v
    → (t == a) ≡ false
    → IsHome w a k
    → IsHome v a k
IsHome-IsSpared t a w v nowhere s n h = tt
IsHome-IsSpared t a w v running s n h = tt
IsHome-IsSpared t a w v (queued c i) s n h =
    let e = s.others a n in (ap (λ (x : Task). x.ctx) e ∙ h.0, rw (e, s.sizes c) h.1)
IsHome-IsSpared t a w v (blocked r) s n h = ap (λ (x : Task). x.waiting_cond) (s.others a n) ∙ h

-- A task moves to `j`, and nothing else happens.
pub move-IsTidy :
    (place : ℕ → Place) (run new : List ℕ) (w v : World) (t : ℕ) (j : Place)
    → IsTidy place run w
    → ((k : Place) → lists new v k ≡ joined t j k (without t (place t) k (lists run w k)))
    → IsSpared t w v
    → IsHome v t j
    → IsTidy (update place t j) new v
move-IsTidy place run new w v t j d e s h = record {
  placed = move-IsPlaced place (lists run w) d.placed t j (lists new v) e;
  homes = λ a. elim (Bool-cases (t == a)) [
    | inl y ↦ rw y (subst (λ b. IsHome v b j) (eq_of_== t a y) h)
    | inr n ↦ rw n (IsHome-IsSpared t a w v (place a) s n (d.homes a))
  ];
}

-- All tasks, and the numbers of partitions, are the same.
pub record IsSteady (w v : World) : Type 0 where
  pub tasks : v.tasks ≡ w.tasks
  pub sizes : (c : ℕ) → (v.contexts c).size ≡ (w.contexts c).size

pub IsSteady-trans : {u v w : World} → IsSteady u v → IsSteady v w → IsSteady u w
IsSteady-trans p q = record { tasks = q.tasks ∙ p.tasks; sizes = λ c. q.sizes c ∙ p.sizes c }

emit_to-IsSteady : (o : Option ℕ) (w : World) → IsSteady w (emit_to o w)
unfolding emit_to
emit_to-IsSteady none w = record { tasks = refl; sizes = λ c. refl }
emit_to-IsSteady (some s) w = record { tasks = refl; sizes = λ c. refl }

pub push-IsSteady : (c i t : ℕ) (w : World) → IsSteady w (push c i t w)
unfolding push
push-IsSteady c i t w =
    let q = (w.contexts c).schedulers i in
    let v = set_scheduler c i (record q { runnable = q.runnable ++ t ∷ [] }) w in
    let h : IsSteady w v = record { tasks = refl; sizes = λ d. ground arith } in
    IsSteady-trans h (emit_to-IsSteady q.signal v)

pub schedule_first-IsSteady : (s : ℕ) (b : List ℕ) (w : World) → IsSteady w (schedule_first s b w)
unfolding schedule_first
schedule_first-IsSteady s [] w = record { tasks = refl; sizes = λ c. refl }
schedule_first-IsSteady s (t ∷ rest) w =
    let x = w.tasks t in
    let v = set_cond s (record { blocked = rest; scheduled_ctx = some x.ctx }) w in
    let h : IsSteady w v = record { tasks = refl; sizes = λ c. refl } in
    IsSteady-trans h (push-IsSteady x.ctx (slot w x.ctx x.id) t v)

pub take_first-IsSteady : (c i : ℕ) (q : List ℕ) (w : World) → IsSteady w (take_first c i q w).1
unfolding take_first
take_first-IsSteady c i [] w = record { tasks = refl; sizes = λ d. refl }
take_first-IsSteady c i (t ∷ q) w = record { tasks = refl; sizes = λ d. ground arith }

pub unlink_task-IsSteady : (t s : ℕ) (w : World) → IsSteady w (unlink_task t s w)
unfolding unlink_task
unlink_task-IsSteady t s w = record { tasks = refl; sizes = λ d. ground arith }

pub IsSteady-IsSpared : (t : ℕ) {w v : World} → IsSteady w v → IsSpared t w v
IsSteady-IsSpared t s = record {
  others = λ a n. ap (λ (f : ℕ → Task). f a) s.tasks;
  sizes = s.sizes;
}

-- A task in its own run queue is at home.
pub home-IsHome : (t : ℕ) {w v : World} → IsSteady w v → IsHome v t (home w t)
home-IsHome t {w} {v} s =
    let e = ap (λ (f : ℕ → Task). f t) s.tasks in
    (ap (λ (x : Task). x.ctx) e, rw (e, s.sizes (w.tasks t).ctx) refl)

-- The worker that takes a task runs it, and the one that puts it away no longer does.
pub lists-run :
    (run : List ℕ) (w : World) (t : ℕ) (k : Place)
    → lists (run ++ t ∷ []) w k ≡ joined t running k (lists run w k)
unfolding joined
lists-run run w t nowhere = refl
lists-run run w t running = refl
lists-run run w t (queued c i) = refl
lists-run run w t (blocked s) = refl

pub lists-stop :
    (run : List ℕ) (w : World) (t : ℕ) (k : Place)
    → lists (unlink_from t run) w k ≡ without t running k (lists run w k)
unfolding without
lists-stop run w t nowhere = refl
lists-stop run w t running = refl
lists-stop run w t (queued c i) = refl
lists-stop run w t (blocked s) = refl
