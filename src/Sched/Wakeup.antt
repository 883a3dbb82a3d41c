-- ===== src/Sched/Wakeup.antt =====
-- Tasks that share one semaphore, as a step relation. A step is a critical section of `aquire` or
-- `release` together with the suspension that ends it. Ghost state: `woken` lists the tasks that a
-- release took from the blocked ones and put into their run queues, and that have not run again, `inside` counts permits taken and not yet given back, and
-- `granted` the initial permits with those released by signals.
use cgo.Base.{
  count, count-append, ℕ, zero, suc, ltb, ◌+◌, ◌-◌, ◌^◌, ◌≤◌, ◌<◌, ◌≡◌, refl, ap, ◌∙◌, ◌≢◌, ◌⊎◌,
  inl, inr, Bool, true, false, List, [], ◌∷◌, ◌++◌, arith, length, length-append, if◌then◌else◌,
}
use cgo.Sched.{World, SemState}
use cgo.Sched.Semaphore.{release}
use cgo.Sched.Places.{blocked, joined, without}
use cgo.Sched.Places.Moves.{lists, home}
use cgo.Sched.Places.Released.{lists-release}
use cgo.Sched.Permits.{enter, reenter, Entered, enter-Entered, reenter-Entered, first, release-sem}

pub record Sys : Type 0 where
  pub world : World
  pub woken : List ℕ
  pub inside : ℕ
  pub granted : ℕ

-- The ghost state after a round, given the tasks that are still woken.
abbrev pub entered : Sys → List ℕ → World × Bool → Sys
entered v rest (w, taken) = record {
  world = w;
  woken = rest;
  inside = if taken then v.inside + 1 else v.inside;
  granted = v.granted;
}

-- The task stands once more in its run queue in `v` than in `w`.
abbrev gained : World → World → ℕ → Bool
gained w v t = ltb (count t (lists [] w (home w t))) (count t (lists [] v (home w t)))

abbrev among : (ℕ → Bool) → List ℕ → List ℕ
among p [] = []
among p (t ∷ ts) = if p t then t ∷ among p ts else among p ts

-- The first `n` tasks.
abbrev front : ℕ → List ℕ → List ℕ
front zero ts = []
front (suc n) [] = []
front (suc n) (t ∷ ts) = t ∷ front n ts

-- Who has been woken between `w` and `v`: as many tasks as the semaphore blocks less, the longest
-- blocked ones, if they have come into their run queues.
abbrev pub notified : ℕ → World → World → List ℕ
notified s w v =
    let old = (w.sems s).cond.blocked in
    among (gained w v) (front (length old - length (v.sems s).cond.blocked) old)

abbrev pub freed : ℕ → Sys → Sys
freed s v = record v {
  world = release s v.world;
  woken = v.woken ++ notified s v.world (release s v.world);
}

count-last : (t : ℕ) (xs : List ℕ) → count t (xs ++ t ∷ []) ≡ suc (count t xs)
count-last t xs = ground (arith, count-append t xs (t ∷ []))

front-none : (n : ℕ) → front n [] ≡ []
front-none zero = refl
front-none (suc n) = refl

front-one : (t : ℕ) (b : List ℕ) → front (suc (length b) - length b) (t ∷ b) ≡ t ∷ []
front-one t b = rw (one (length b)) refl
  where
    one : (n : ℕ) → suc n - n ≡ 1
    one n = omega arith

last_at_home :
    (s t : ℕ) (w : World)
    → joined t (home w t) (home w t) (without t (blocked s) (home w t) (lists [] w (home w t)))
      ≡ lists [] w (home w t) ++ t ∷ []
unfolding joined without
last_at_home s t w = ground arith

-- A release wakes the longest blocked task.
notified-release : (s : ℕ) (w : World) → notified s w (release s w) ≡ first (w.sems s).cond.blocked
notified-release s w = go (w.sems s).cond.blocked refl
  where
    -- It is last in its run queue.
    arrived :
        (t : ℕ) (b : List ℕ) → (w.sems s).cond.blocked ≡ t ∷ b → gained w (release s w) t ≡ true
    arrived t b e =
        let l : List ℕ = lists [] w (home w t) in
        let f : lists [] (release s w) (home w t) ≡ l ++ t ∷ [] =
          lists-release s w (home w t) ∙ rw e (last_at_home s t w) in
        ap (λ xs. ltb (count t l) (count t xs)) f ∙ ground (arith, count-last t l)

    go :
        (b : List ℕ)
        → (w.sems s).cond.blocked ≡ b
        → among
            (gained w (release s w))
            (front (length b - length ((release s w).sems s).cond.blocked) b)
          ≡ first b
    go [] e = ap (among (gained w (release s w))) (front-none _)
    go (t ∷ b) e =
        let f : ((release s w).sems s).cond.blocked ≡ b = (release-sem s w).1 ∙ rw e refl in
        rw (f, front-one t b) (rw (arrived t b e) refl)

-- A task calls `aquire`; a woken task goes on in `aquire`; a holder releases; a signal is given.
pub data Step (s : ℕ) : Sys → Sys → Type 0 where
  enters : {v : Sys} (t : ℕ) → Step s v (entered v v.woken (enter t s v.world))
  reenters :
      {v : Sys} (t : ℕ) (xs ys : List ℕ)
      → v.woken ≡ xs ++ t ∷ ys
      → Step s v (entered v (xs ++ ys) (reenter t s v.world))
  gives_back : {v : Sys} → 0 < v.inside → Step s v (record (freed s v) { inside = v.inside - 1 })
  signals : {v : Sys} → Step s v (record (freed s v) { granted = v.granted + 1 })

pub data Reach (s : ℕ) (u : Sys) : Sys → Type 0 where
  here : Reach s u u
  next : {v w : Sys} → Reach s u v → Step s v w → Reach s u w

-- Whoever still waits has woken tasks ahead that will use up the free permits.
abbrev pub IsAwake : ℕ → Sys → Type 0
IsAwake s v = ((v.world.sems s).cond.blocked ≡ []) ⊎ ((v.world.sems s).vacant ≤ length v.woken)

abbrev Covered : SemState → ℕ → Type 0
Covered x n = (x.cond.blocked ≡ []) ⊎ (x.vacant ≤ n)

Entered-Covered :
    (x : SemState) (t n : ℕ) (r : SemState × Bool)
    → Entered x t r
    → Covered x (suc n)
    → Covered r.0 n
Entered-Covered x t n (y, true) h c = ground arith
Entered-Covered x t n (y, false) h c = inr (omega arith)

freed-Covered :
    (s n : ℕ) (w : World) (b : List ℕ)
    → (w.sems s).cond.blocked ≡ b
    → Covered (w.sems s) n
    → Covered ((release s w).sems s) (n + length (first b))
freed-Covered s n w [] e c = inl (ground (arith, release-sem s w))
freed-Covered s n w (x ∷ b) e c = inr (ground (arith, release-sem s w))

pub Step-IsAwake : {s : ℕ} {v w : Sys} → Step s v w → IsAwake s v → IsAwake s w
Step-IsAwake {s} {v} (enters t) a =
    let r = enter t s v.world in
    Entered-Covered (v.world.sems s) t (length v.woken) (r.0.sems s, r.1)
      (enter-Entered t s v.world) (ground arith)
Step-IsAwake {s} {v} (reenters t xs ys e) a =
    let r = reenter t s v.world in
    Entered-Covered (v.world.sems s) t (length (xs ++ ys)) (r.0.sems s, r.1)
      (reenter-Entered t s v.world)
      (ground (arith, ap length e, length-append xs (t ∷ ys), length-append xs ys))
Step-IsAwake {s} {v} (gives_back h) a =
    rw (length-append, notified-release s v.world)
      (freed-Covered s (length v.woken) v.world _ refl a)
Step-IsAwake {s} {v} signals a =
    rw (length-append, notified-release s v.world)
      (freed-Covered s (length v.woken) v.world _ refl a)

pub Reach-IsAwake : {s : ℕ} {u v : Sys} → Reach s u v → IsAwake s u → IsAwake s v
Reach-IsAwake here a = a
Reach-IsAwake (next r st) a = Step-IsAwake st (Reach-IsAwake r a)

-- No wakeup is lost. After any interleaving of aquires and releases that starts with nobody
-- waiting, while tasks wait there are at most as many free permits as woken tasks that have yet to
-- run: tasks that a release took from the blocked ones and put into their own run queues.
pub no_lost_wakeup :
    {s : ℕ} {u v : Sys}
    → (u.world.sems s).cond.blocked ≡ []
    → Reach s u v
    → (v.world.sems s).cond.blocked ≢ []
    → (v.world.sems s).vacant ≤ length v.woken
no_lost_wakeup {s} {u} {v} start r waiting = ground (arith, Reach-IsAwake r (inl start))

-- Permits: what is free and what is taken add up to what was granted.
abbrev pub IsBalanced : ℕ → Sys → Type 0
IsBalanced s v = (v.world.sems s).vacant + v.inside ≡ v.granted

abbrev Balanced : SemState → ℕ → ℕ → Type 0
Balanced x inside granted = x.vacant + inside ≡ granted

Entered-Balanced :
    (x : SemState) (t i g : ℕ) (r : SemState × Bool)
    → Entered x t r
    → Balanced x i g
    → Balanced r.0 (if r.1 then i + 1 else i) g
Entered-Balanced x t i g (y, true) h b = omega arith
Entered-Balanced x t i g (y, false) h b = omega arith

Step-le : {s : ℕ} {v w : Sys} → Step s v w → v.granted ≤ w.granted
Step-le (enters t) = omega arith
Step-le (reenters t xs ys e) = omega arith
Step-le (gives_back h) = omega arith
Step-le signals = omega arith

Step-IsBalanced :
    {s : ℕ} {v w : Sys} → Step s v w → w.granted < 2 ^ 64 → IsBalanced s v → IsBalanced s w
Step-IsBalanced {s} {v} (enters t) m b =
    let r = enter t s v.world in
    Entered-Balanced (v.world.sems s) t v.inside v.granted (r.0.sems s, r.1)
      (enter-Entered t s v.world) b
Step-IsBalanced {s} {v} (reenters t xs ys e) m b =
    let r = reenter t s v.world in
    Entered-Balanced (v.world.sems s) t v.inside v.granted (r.0.sems s, r.1)
      (reenter-Entered t s v.world) b
Step-IsBalanced {s} {v} (gives_back h) m b = ground (arith, release-sem s v.world)
Step-IsBalanced {s} {v} signals m b = ground (arith, release-sem s v.world)

-- No interleaving loses or makes up a permit, as long as fewer than 2 ^ 64 were ever granted: the
-- free permits and those taken add up to those granted, if they did at the start.
pub Reach-IsBalanced :
    {s : ℕ} {u v : Sys} → Reach s u v → v.granted < 2 ^ 64 → IsBalanced s u → IsBalanced s v
Reach-IsBalanced here m b = b
Reach-IsBalanced (next r st) m b =
    Step-IsBalanced st m (Reach-IsBalanced r (omega (arith, Step-le st)) b)

-- A `Mutex` is a semaphore with one permit: if only one was ever granted, and the permits added up
-- at the start, then after any interleaving at most one is taken.
pub mutex_exclusive :
    {s : ℕ} {u v : Sys} → IsBalanced s u → Reach s u v → v.granted ≡ 1 → v.inside ≤ 1
mutex_exclusive {s} {u} {v} b r one = omega (arith, Reach-IsBalanced r (omega arith) b)
