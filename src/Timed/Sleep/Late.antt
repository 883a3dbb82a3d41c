-- ===== src/Timed/Sleep/Late.antt =====
-- A timer does not fire before its time.
use cgo.Base.{
  ℕ, suc, ◌≡◌, ◌+◌, ◌%◌, ◌^◌, ◌≤◌, ◌<◌, ◌==◌, leb, ltb, Bool, true, false, Option, none, some, List,
  [], ◌∷◌, arith, has, All, Bool-cases, inl, inr,
}
use cgo.Timed.{
  Timer, TimedContext, insert, is_next, push, pop_due, read_if, pop, create_timeout, set_queue,
  emit_if,
}

-- The timer, if it is one of `f`, expires at `t` or later.
abbrev pub Expires : ℕ → ℕ → Timer → Type 0
Expires f t x = x.fn ≡ f → t ≤ x.ex

module _ (clock : ℕ → ℕ) where
  -- The clock was read at time `t` or later.
  abbrev pub IsPast : ℕ → TimedContext → Type 0
  IsPast t w = (n : ℕ) × (n < w.readings) × (t ≤ clock n)

  -- All timers of `f` expire at `t` or later, and if `f` has fired, the time `t` is past.
  pub record IsLate (f t : ℕ) (w : TimedContext) : Type 0 where
    pub waits : (i : ℕ) → All (Expires f t) (w.schedulers i).pq_timer
    pub fires : has f w.fired ≡ true → IsPast t w

module _ (f t : ℕ) where
  insert-All :
      (x : Timer) (q : List Timer)
      → Expires f t x
      → All (Expires f t) q
      → All (Expires f t) (insert x q)
  unfolding insert
  insert-All x [] h a = (h, tt)
  insert-All x (y ∷ q) h a = elim (Bool-cases (ltb x.ex y.ex)) [
    | inl e ↦ rw e (h, a)
    | inr n ↦ rw n (a.0, insert-All x q h a.1)
  ]

  set_queue-All :
      (i : ℕ) (q : List Timer) (w : TimedContext)
      → All (Expires f t) q
      → ((j : ℕ) → All (Expires f t) (w.schedulers j).pq_timer)
      → (j : ℕ) → All (Expires f t) ((set_queue i q w).schedulers j).pq_timer
  set_queue-All i q w a h j = elim (Bool-cases (i == j)) [ inl e ↦ rw e a | inr n ↦ rw n (h j) ]

module _ (clock : ℕ → ℕ) (f t : ℕ) where
  push-IsLate :
      (i : ℕ) (x : Timer) (w : TimedContext)
      → Expires f t x
      → IsLate clock f t w
      → IsLate clock f t (push i x w)
  unfolding push emit_if
  push-IsLate i x w h l = go (is_next x q) (w.schedulers i).signal
    where
      q : List Timer
      q = (w.schedulers i).pq_timer

      in_queue : All (Expires f t) (insert x q)
      in_queue = insert-All f t x q h (l.waits i)

      go : (b : Bool) (o : Option ℕ) → IsLate clock f t (set_queue i (insert x q) (emit_if b o w))
      go true (some s) = record {
        waits = set_queue-All f t i (insert x q) (emit_if true (some s) w) in_queue l.waits;
        fires = l.fires;
      }
      go true none = record {
        waits = set_queue-All f t i (insert x q) w in_queue l.waits;
        fires = l.fires;
      }
      go false o = record {
        waits = set_queue-All f t i (insert x q) w in_queue l.waits;
        fires = l.fires;
      }

  -- What `pop` found, if anything, may fire.
  abbrev pub Ready : Option Timer × TimedContext → Type 0
  Ready (none, w) = IsLate clock f t w
  Ready (some x, w) = IsLate clock f t w × (x.fn ≡ f → IsPast clock t w)

  pub pop-Ready : (i : ℕ) (w : TimedContext) → IsLate clock f t w → Ready (pop clock i w)
  unfolding pop pop_due read_if
  pop-Ready i w l = go (w.schedulers i).pq_timer (l.waits i)
    where
      later : (q : List Timer) → IsLate clock f t (read_if q w)
      later [] = l
      later (x ∷ q) = record {
        waits = l.waits;
        fires = λ h. let (n, lt, le) = l.fires h in (n, omega (arith, lt), le);
      }

      go :
          (q : List Timer)
          → All (Expires f t) q
          → Ready (pop_due (clock w.readings) i q (read_if q w))
      go [] a = l
      go (x ∷ q) a = elim (Bool-cases (leb x.ex (clock w.readings))) [
        | inl y ↦ rw y (
          record {
            waits = set_queue-All f t i q (read_if (x ∷ q) w) a.1 l.waits;
            fires = (later (x ∷ q)).fires;
          },
          λ e. (w.readings, omega arith, ground (arith, y, a.0 e)),
        )
        | inr n ↦ rw n (later (x ∷ q))
      ]

  pub create_timeout-IsLate :
      (fn timeout : ℕ) (w : TimedContext)
      → (fn ≡ f → t ≤ clock w.readings + timeout)
      → IsLate clock f t w
      → IsLate clock f t (create_timeout clock fn timeout w)
  unfolding create_timeout
  create_timeout-IsLate fn timeout w h l =
      let x : Timer = record { id = w.tid; fn = fn; ex = clock w.readings + timeout } in
      let v : TimedContext = record w { tid = (w.tid + 1) % 2 ^ 64; readings = suc w.readings } in
      push-IsLate (w.tid % w.size) x v h (record {
        waits = l.waits;
        fires = λ y. let (n, lt, le) = l.fires y in (n, omega (arith, lt), le);
      })
