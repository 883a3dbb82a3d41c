-- ===== src/Timed/Sleep/Open.antt =====
-- Before a sleeping task waits: its semaphore has a permit for each callback that has run. It stays so
-- while other tasks wait for their semaphores.
use cgo.Base.{
  ℕ, ◌≡◌, refl, ◌≢◌, ◌+◌, ◌^◌, ◌<◌, ◌==◌, ltb, true, false, List, [], ◌∷◌, ◌++◌, arith, count,
  count-append, Bool-cases, inl, inr, ap, ◌∙◌, sym, subst, eq_of_==,
}
use cgo.Sched.{World, SemState, set_sem, incr}
use cgo.Sched.Condition.{wait, suspend_to_this, schedule_from_this, schedule_first}
use cgo.Sched.Permits.{enter, push-sems, release-sem}
use cgo.Sched.Semaphore.{aquire_round, release}
use cgo.Sched.Places.{blocked}
use cgo.Sched.Places.Moves.{lists, home}
use cgo.Sched.Places.Released.{lists-release}
use cgo.Timed.Sleep.{Sleepers, sleep_set, sleep_wait, run_callback}
use cgo.Timed.Sleep.Waking.{none-released}
use cgo.Timed.Sleep.Due.{
  Step, Reach, sets, waits, takes, calls, here, next, create_timeout-fired, take_timer-same, IsDue,
  Reach-IsDue, Step-le,
}

-- Another semaphore is released.
release-other :
    (r signal : ℕ) (w : World) → (r == signal) ≡ false → ((release r w).sems signal) ≡ w.sems signal
unfolding release schedule_from_this schedule_first
release-other r signal w n = go (w.sems r).cond.blocked refl
  where
    v : World
    v = set_sem r (record (w.sems r) { vacant = incr (w.sems r).vacant }) w

    go :
        (b : List ℕ)
        → (w.sems r).cond.blocked ≡ b
        → ((schedule_first r (v.sems r).cond.blocked v).sems signal) ≡ w.sems signal
    go [] e = let f : (v.sems r).cond.blocked ≡ [] = ground (arith, e) in rw f (ground (arith, n))
    go (t ∷ b) e =
        let f : (v.sems r).cond.blocked ≡ t ∷ b = ground (arith, e) in
        rw (f, push-sems) (ground (arith, n))

module _ (task signal : ℕ) where
  -- A task waits for another semaphore.
  pub enter-other :
      (a r : ℕ) (w : World) → r ≢ signal → ((enter a r w).0.sems signal) ≡ w.sems signal
  unfolding enter aquire_round suspend_to_this wait
  enter-other a r w n = elim (Bool-cases (ltb 0 (w.sems r).vacant)) [
    | inl y ↦ rw y (ground (arith, n))
    | inr o ↦ rw o (ground (arith, n))
  ]

  pub enter-queued :
      (a r : ℕ) (w : World)
      → a ≢ task
      → lists [] (enter a r w).0 (home (enter a r w).0 task) ≡ lists [] w (home w task)
  unfolding enter aquire_round suspend_to_this wait
  enter-queued a r w n = elim (Bool-cases (ltb 0 (w.sems r).vacant)) [
    | inl y ↦ rw y refl
    | inr o ↦ rw o (let e : (a == task) ≡ false = ground (arith, n) in rw e refl)
  ]

  -- Before the task waits: the semaphore blocks nobody, and has a permit for each callback that ran.
  pub record IsOpen (s : Sleepers) : Type 0 where
    pub clear : (s.world.sems signal).cond.blocked ≡ []
    pub permits : (s.world.sems signal).vacant ≡ count signal s.timers.fired

module _ (clock : ℕ → ℕ) (task signal : ℕ) where
  calls-IsOpen :
      (f : ℕ) (rest : List ℕ) (s : Sleepers)
      → ((signal == f) ≡ true → count signal s.timers.fired + 1 < 2 ^ 64)
      → IsOpen task signal s
      → IsOpen task signal (run_callback f rest s)
  unfolding run_callback
  calls-IsOpen f rest s m o = record {
    clear = lists-release f s.world (blocked signal) ∙ none-released task signal f s.world o.clear;
    permits = elim (Bool-cases (signal == f)) [
      | inl y ↦
          subst
            (λ g.
              ((release g s.world).sems signal).vacant ≡ count signal (s.timers.fired ++ g ∷ []))
            (eq_of_== signal f y) (own (m y))
      | inr n ↦
          ap (λ (x : SemState). x.vacant) (release-other f signal s.world (ground (arith, n)))
          ∙ ground (arith, n, o.permits, count-append signal s.timers.fired (f ∷ []))
    ];
  }
    where
      own :
          count signal s.timers.fired + 1 < 2 ^ 64
          → ((release signal s.world).sems signal).vacant
            ≡ count signal (s.timers.fired ++ signal ∷ [])
      own l =
          (release-sem signal s.world).0
          ∙ ground (arith, l, o.permits, count-append signal s.timers.fired (signal ∷ []))

  Step-IsOpen :
      {t : ℕ} {s u : Sleepers}
      → Step clock task signal s u
      → u.timers.readings < 2 ^ 64
      → IsDue clock signal t s
      → IsOpen task signal s
      → IsOpen task signal u
  unfolding sleep_set sleep_wait run_callback
  Step-IsOpen {s = s} (sets r timeout n) m p o = record {
    clear = ground (arith, n, o.clear);
    permits =
        ground (
          arith,
          n,
          o.permits,
          ap (count signal) (create_timeout-fired clock r timeout s.timers).0,
        );
  }
  Step-IsOpen {s = s} (waits a r n k) m p o =
      let e = enter-other task signal a r s.world k in
      record {
        clear = ap (λ (x : SemState). x.cond.blocked) e ∙ o.clear;
        permits = ap (λ (x : SemState). x.vacant) e ∙ o.permits;
      }
  Step-IsOpen {s = s} (takes i) m p o =
      let (e, f) = take_timer-same clock i s in
      record {
        clear = ap (λ (w : World). (w.sems signal).cond.blocked) e ∙ o.clear;
        permits =
            ap (λ (w : World). (w.sems signal).vacant) e ∙ o.permits ∙ ap (count signal) (sym f);
      }
  Step-IsOpen {s = s} (calls f xs ys e) m p o = calls-IsOpen f (xs ++ ys) s bound o
    where
      bound : (signal == f) ≡ true → count signal s.timers.fired + 1 < 2 ^ 64
      bound y = ground (arith, y, m, p.once, ap (count signal) e, count-append signal xs (f ∷ ys))

  pub Reach-IsOpen :
      {t : ℕ} {s u : Sleepers}
      → Reach clock task signal s u
      → u.timers.readings < 2 ^ 64
      → IsDue clock signal t s
      → IsOpen task signal s
      → IsOpen task signal u
  Reach-IsOpen here m p o = o
  Reach-IsOpen {t = t} (next r st) m p o =
      Step-IsOpen st m (Reach-IsDue clock task signal t r p)
        (Reach-IsOpen r (omega (arith, Step-le clock st, m)) p o)
