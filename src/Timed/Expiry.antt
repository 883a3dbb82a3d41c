-- ===== src/Timed/Expiry.antt =====
-- `run_timeout`: how many callbacks it runs, and which.
use cgo.Base.{
  ℕ, zero, suc, ◌+◌, ◌-◌, ◌%◌, ◌≤◌, ◌<◌, ◌≡◌, refl, if◌then◌else◌, ◌==◌, none, some, Option, List,
  [], ◌∷◌, arith, length, length-append, Bool-cases, inl, inr,
}
use cgo.Timed.{Timer, TimedContext, pop_due, read_if, pop, fire, run_own, run_others, run_timeout}

read_if-fired : (q : List Timer) (w : TimedContext) → (read_if q w).fired ≡ w.fired
unfolding read_if
read_if-fired [] w = refl
read_if-fired (t ∷ ts) w = refl

pop_due-fired :
    (now i : ℕ) (q : List Timer) (w : TimedContext) → (pop_due now i q w).1.fired ≡ w.fired
unfolding pop_due
pop_due-fired now i [] w = refl
pop_due-fired now i (t ∷ ts) w = ground arith

-- What a loop with at most `left` callbacks to run returned from `w`.
abbrev pub Ran : ℕ → TimedContext → ℕ × TimedContext → Type 0
Ran left w (n, f) = (n ≤ left) × (length f.fired ≡ length w.fired + n)

module _ (clock : ℕ → ℕ) where
  pop-fired : (i : ℕ) (w : TimedContext) → (pop clock i w).1.fired ≡ w.fired
  unfolding pop
  pop-fired i w =
      let q = (w.schedulers i).pq_timer in
      ground (arith, pop_due-fired (clock w.readings) i q (read_if q w), read_if-fired q w)

  run_own-Ran : (left i : ℕ) (w : TimedContext) → Ran left w (run_own clock left i w)
  unfolding run_own
  run_own-Ran zero i w = (omega arith, omega arith)
  run_own-Ran (suc left) i w =
      go (pop clock i w).0 (λ t. run_own-Ran left i (fire t (pop clock i w).1))
    where
      f : TimedContext
      f = (pop clock i w).1

      go :
          (o : Option Timer)
          → ((t : Timer) → Ran left (fire t f) (run_own clock left i (fire t f)))
          → Ran (suc left) w (elim o [
            | none ↦ (0, f)
            | some t ↦ (let more = run_own clock left i (fire t f) in (suc more.0, more.1))
          ])
      go none ih = (omega arith, ground (arith, pop-fired i w))
      go (some t) ih = (
        ground (arith, ih t),
        ground (arith, ih t, pop-fired i w, length-append f.fired (t.fn ∷ [])),
      )

  run_others-Ran :
      (rounds pindex i left : ℕ) (w : TimedContext)
      → 0 < left
      → Ran left w (run_others clock rounds pindex i left w)
  unfolding run_others
  run_others-Ran zero pindex i left w h = (omega arith, omega arith)
  run_others-Ran (suc rounds) pindex i left w h =
      go (pop clock ((pindex + i) % w.size) w).0 (run_others-Ran rounds pindex (suc i) left f h)
        (λ t. run_others-Ran rounds pindex (suc i) (left - 1) (fire t f))
    where
      f : TimedContext
      f = (pop clock ((pindex + i) % w.size) w).1

      go :
          (o : Option Timer)
          → Ran left f (run_others clock rounds pindex (suc i) left f)
          → ((t : Timer)
              → 0 < left - 1
              → Ran
                  (left - 1)
                  (fire t f)
                  (run_others clock rounds pindex (suc i) (left - 1) (fire t f)))
          → Ran left w (elim o [
            | none ↦ run_others clock rounds pindex (suc i) left f
            | some t ↦
                (let more = run_others clock rounds pindex (suc i) (left - 1) (fire t f) in
                  if left == 1 then (1, fire t f) else (suc more.0, more.1))
          ])
      go none ih jh = ground (arith, ih, pop-fired ((pindex + i) % w.size) w)
      go (some t) ih jh = elim (Bool-cases (left == 1)) [
        | inl y ↦ rw y (
          ground arith,
          ground (arith, pop-fired ((pindex + i) % w.size) w, length-append f.fired (t.fn ∷ [])),
        )
        | inr n ↦ rw n (
          ground (arith, jh t),
          ground
              (arith, jh t, pop-fired ((pindex + i) % w.size) w, length-append f.fired (t.fn ∷ [])),
        )
      ]

  -- `run_timeout` runs at most `batch_size` callbacks, and the number that it returns is how many
  -- it ran.
  pub run_timeout-Ran :
      (pindex batch_size : ℕ) (w : TimedContext)
      → Ran batch_size w (run_timeout clock pindex batch_size w)
  unfolding run_timeout
  run_timeout-Ran pindex batch_size w =
      let r = run_own clock batch_size (pindex % w.size) w in
      let a = run_own-Ran batch_size (pindex % w.size) w in
      elim (Bool-cases (r.0 == batch_size)) [
        | inl y ↦ rw y a
        | inr n ↦ rw n (
          ground (arith, run_others-Ran w.size pindex 0 (batch_size - r.0) r.1 (ground arith)),
          ground (arith, run_others-Ran w.size pindex 0 (batch_size - r.0) r.1 (ground arith)),
        )
      ]
