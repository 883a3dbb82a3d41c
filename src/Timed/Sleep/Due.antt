-- ===== src/Timed/Sleep/Due.antt =====
-- The steps of sleepers and workers, and the timer of one semaphore over them.
use cgo.Base.{
  ℕ, suc, ◌≡◌, refl, ◌≢◌, ◌+◌, ◌%◌, ◌^◌, ◌≤◌, ◌||◌, leb, Bool, true, false, Option, none, some,
  List, [], ◌∷◌, ◌++◌, arith, has, has-append, count, count-append, Bool-cases, inl, inr, ap, ◌∙◌,
}
use cgo.Timed.{Timer, TimedContext, create_timeout, push, pop, pop_due, read_if, emit_if, is_next}
use cgo.Timed.Sleep.{Sleepers, sleep_set, sleep_wait, in_hand, take_timer, run_callback}
use cgo.Timed.Sleep.Late.{IsPast, IsLate, Ready, pop-Ready, create_timeout-IsLate}

module _ (clock : ℕ → ℕ) where
  -- Other tasks set timers for semaphores of their own and wait for these; workers take timers from
  -- any partition and run their callbacks, in any order.
  pub data Step (task signal : ℕ) (s : Sleepers) : Sleepers → Type 0 where
    sets : (r timeout : ℕ) → r ≢ signal → Step task signal s (sleep_set clock r timeout s)
    waits : (a r : ℕ) → a ≢ task → r ≢ signal → Step task signal s (sleep_wait a r s).0
    takes : (i : ℕ) → Step task signal s (take_timer clock i s)
    calls :
        (f : ℕ) (xs ys : List ℕ)
        → s.hands ≡ xs ++ f ∷ ys
        → Step task signal s (run_callback f (xs ++ ys) s)

  pub data Reach (task signal : ℕ) (s : Sleepers) : Sleepers → Type 0 where
    here : Reach task signal s s
    next : {u v : Sleepers} → Reach task signal s u → Step task signal u v → Reach task signal s v

  pub create_timeout-fired :
      (fn timeout : ℕ) (w : TimedContext)
      → ((create_timeout clock fn timeout w).fired ≡ w.fired)
        × ((create_timeout clock fn timeout w).readings ≡ suc w.readings)
  unfolding create_timeout push emit_if
  create_timeout-fired fn timeout w =
      go
        (is_next (record { id = w.tid; fn = fn; ex = clock w.readings + timeout })
          (w.schedulers (w.tid % w.size)).pq_timer)
        (w.schedulers (w.tid % w.size)).signal
    where
      go :
          (b : Bool) (o : Option ℕ)
          → let v : TimedContext =
              emit_if b o (record w { tid = (w.tid + 1) % 2 ^ 64; readings = suc w.readings }) in
            (v.fired ≡ w.fired) × (v.readings ≡ suc w.readings)
      go true none = (refl, refl)
      go true (some r) = (refl, refl)
      go false o = (refl, refl)

  -- What `pop` does to the readings: it reads the clock for each timer that it takes.
  abbrev Read : TimedContext → Option Timer × TimedContext → Type 0
  Read w (none, v) = (v.fired ≡ w.fired) × (w.readings ≤ v.readings)
  Read w (some x, v) = (v.fired ≡ w.fired) × (v.readings ≡ w.readings + 1)

  pop-Read : (i : ℕ) (w : TimedContext) → Read w (pop clock i w)
  unfolding pop pop_due read_if
  pop-Read i w = go (w.schedulers i).pq_timer
    where
      go : (q : List Timer) → Read w (pop_due (clock w.readings) i q (read_if q w))
      go [] = (refl, omega arith)
      go (x ∷ q) = elim (Bool-cases (leb x.ex (clock w.readings))) [
        | inl y ↦ rw y (refl, omega arith)
        | inr n ↦ rw n (refl, omega arith)
      ]

  IsPast-le :
      {t : ℕ} (w v : TimedContext) → w.readings ≤ v.readings → IsPast clock t w → IsPast clock t v
  IsPast-le w v h (n, lt, le) = (n, omega (arith, lt), le)

  -- The timers of the semaphore expire at `t` or later; if a callback of it is in hand or has run, that
  -- time is past; and for each of them the clock was read.
  pub record IsDue (signal t : ℕ) (s : Sleepers) : Type 0 where
    pub late : IsLate clock signal t s.timers
    pub held : has signal s.hands ≡ true → IsPast clock t s.timers
    pub once : count signal s.timers.fired + count signal s.hands ≤ s.timers.readings

  module _ (task signal t : ℕ) where
    pub sets-IsDue :
        (r timeout : ℕ) (s : Sleepers)
        → (r ≡ signal → t ≤ clock s.timers.readings + timeout)
        → IsDue signal t s
        → IsDue signal t (sleep_set clock r timeout s)
    unfolding sleep_set
    sets-IsDue r timeout s h p =
        let (f, e) = create_timeout-fired r timeout s.timers in
        record {
          late = create_timeout-IsLate clock signal t r timeout s.timers h p.late;
          held = λ y.
              IsPast-le s.timers (create_timeout clock r timeout s.timers) (omega (arith, e))
                (p.held y);
          once = omega (arith, ap (count signal) f, e, p.once);
        }

    takes-IsDue : (i : ℕ) (s : Sleepers) → IsDue signal t s → IsDue signal t (take_timer clock i s)
    unfolding take_timer in_hand
    takes-IsDue i s p =
        go (pop clock i s.timers) (pop-Ready clock signal t i s.timers p.late) (pop-Read i s.timers)
      where
        go :
            (r : Option Timer × TimedContext)
            → Ready clock signal t r
            → Read s.timers r
            → IsDue signal t (in_hand r s)
        go (none, v) l (f, e) = record {
          late = l;
          held = λ y. IsPast-le s.timers v e (p.held y);
          once = omega (arith, ap (count signal) f, e, p.once);
        }
        go (some x, v) (l, past) (f, e) = record {
          late = l;
          held = λ y. elim (Bool-cases (has signal s.hands)) [
            | inl o ↦ IsPast-le s.timers v (omega (arith, e)) (p.held o)
            | inr n ↦ past (ground (arith, y, n, has-append signal s.hands (x.fn ∷ [])))
          ];
          once =
              ground
                (arith, ap (count signal) f, e, p.once, count-append signal s.hands (x.fn ∷ []));
        }

    calls-IsDue :
        (f : ℕ) (xs ys : List ℕ) (s : Sleepers)
        → s.hands ≡ xs ++ f ∷ ys
        → IsDue signal t s
        → IsDue signal t (run_callback f (xs ++ ys) s)
    unfolding run_callback
    calls-IsDue f xs ys s e p = record {
      late = record {
        waits = p.late.waits;
        fires = λ y. elim (Bool-cases (has signal s.timers.fired)) [
          | inl o ↦ p.late.fires o
          | inr n ↦
              p.held (ground (arith, y, n, has-append signal s.timers.fired (f ∷ []), in_hands))
        ];
      };
      held = λ y. p.held (ground (arith, y, has-append signal xs ys, in_hands));
      once = ground (
        arith,
        p.once,
        ap (count signal) e,
        count-append signal s.timers.fired (f ∷ []),
        count-append signal xs ys,
        count-append signal xs (f ∷ ys),
      );
    }
      where
        in_hands : has signal s.hands ≡ (has signal xs || has signal (f ∷ ys))
        in_hands = ap (has signal) e ∙ has-append signal xs (f ∷ ys)

    pub Step-IsDue : {s u : Sleepers} → Step task signal s u → IsDue signal t s → IsDue signal t u
    unfolding sleep_wait
    Step-IsDue {s} (sets r timeout n) p = sets-IsDue r timeout s (λ e. absurd (n e)) p
    Step-IsDue {s} (waits a r n m) p = record { late = p.late; held = p.held; once = p.once }
    Step-IsDue {s} (takes i) p = takes-IsDue i s p
    Step-IsDue {s} (calls f xs ys e) p = calls-IsDue f xs ys s e p

    pub Reach-IsDue : {s u : Sleepers} → Reach task signal s u → IsDue signal t s → IsDue signal t u
    Reach-IsDue here p = p
    Reach-IsDue (next r st) p = Step-IsDue st (Reach-IsDue r p)

  pub Step-le :
      {task signal : ℕ} {s u : Sleepers}
      → Step task signal s u
      → s.timers.readings ≤ u.timers.readings
  unfolding sleep_set sleep_wait run_callback take_timer in_hand
  Step-le {s = s} (sets r timeout n) = omega (arith, create_timeout-fired r timeout s.timers)
  Step-le (waits a r n m) = omega arith
  Step-le {s = s} (takes i) = go (pop clock i s.timers) (pop-Read i s.timers)
    where
      go :
          (r : Option Timer × TimedContext)
          → Read s.timers r
          → s.timers.readings ≤ (in_hand r s).timers.readings
      go (none, v) (f, e) = e
      go (some x, v) (f, e) = omega (arith, e)
  Step-le (calls f xs ys e) = omega arith

  -- To take a timer wakes no task and runs no callback.
  pub take_timer-same :
      (i : ℕ) (s : Sleepers)
      → ((take_timer clock i s).world ≡ s.world)
        × ((take_timer clock i s).timers.fired ≡ s.timers.fired)
  unfolding take_timer in_hand
  take_timer-same i s = go (pop clock i s.timers) (pop-Read i s.timers)
    where
      go :
          (r : Option Timer × TimedContext)
          → Read s.timers r
          → ((in_hand r s).world ≡ s.world) × ((in_hand r s).timers.fired ≡ s.timers.fired)
      go (none, v) (f, e) = (refl, f)
      go (some x, v) (f, e) = (refl, f)
