-- ===== src/Timed/Loops.antt =====
-- What every round of the loops of `run_timeout` keeps, `run_timeout` keeps.
use cgo.Base.{
  ℕ, zero, suc, ◌+◌, ◌-◌, ◌%◌, ◌==◌, if◌then◌else◌, Option, none, some, Bool-cases, inl, inr,
}
use cgo.Timed.{Timer, TimedContext, pop, fire, run_own, run_others, run_timeout}

-- After `pop`, and the callback of the timer that it found.
abbrev pub Popped : (TimedContext → Type 0) → Option Timer × TimedContext → Type 0
Popped P (none, w) = P w
Popped P (some x, w) = P (fire x w)

module _ (clock : ℕ → ℕ) (P : TimedContext → Type 0)
    (h : (i : ℕ) (w : TimedContext) → P w → Popped P (pop clock i w)) where
  abbrev After : ℕ × TimedContext → Type 0
  After (n, w) = P w

  run_own-All : (left i : ℕ) (w : TimedContext) → P w → P (run_own clock left i w).1
  unfolding run_own
  run_own-All zero i w p = p
  run_own-All (suc left) i w p = go (pop clock i w) (h i w p) (run_own-All left i)
    where
      go :
          (r : Option Timer × TimedContext)
          → Popped P r
          → ((v : TimedContext) → P v → P (run_own clock left i v).1)
          → After (elim r.0 [
            | none ↦ (0, r.1)
            | some x ↦ (let more = run_own clock left i (fire x r.1) in (suc more.0, more.1))
          ])
      go (none, v) q ih = q
      go (some x, v) q ih = ih (fire x v) q

  run_others-All :
      (rounds pindex i left : ℕ) (w : TimedContext)
      → P w
      → P (run_others clock rounds pindex i left w).1
  unfolding run_others
  run_others-All zero pindex i left w p = p
  run_others-All (suc rounds) pindex i left w p =
      go (pop clock ((pindex + i) % w.size) w) (h ((pindex + i) % w.size) w p)
        (run_others-All rounds pindex (suc i))
    where
      go :
          (r : Option Timer × TimedContext)
          → Popped P r
          → ((m : ℕ) (v : TimedContext) → P v → P (run_others clock rounds pindex (suc i) m v).1)
          → After (elim r.0 [
            | none ↦ run_others clock rounds pindex (suc i) left r.1
            | some x ↦
                (let w1 = fire x r.1 in
                  let more = run_others clock rounds pindex (suc i) (left - 1) w1 in
                  if left == 1 then (1, w1) else (suc more.0, more.1))
          ])
      go (none, v) q ih = ih left v q
      go (some x, v) q ih = elim (Bool-cases (left == 1)) [
        | inl y ↦ rw y q
        | inr n ↦ rw n (ih (left - 1) (fire x v) q)
      ]

  pub run_timeout-All :
      (pindex batch_size : ℕ) (w : TimedContext) → P w → P (run_timeout clock pindex batch_size w).1
  unfolding run_timeout
  run_timeout-All pindex batch_size w p =
      let r = run_own clock batch_size (pindex % w.size) w in
      let own = run_own-All batch_size (pindex % w.size) w p in
      elim (Bool-cases (r.0 == batch_size)) [
        | inl y ↦ rw y own
        | inr n ↦ rw n (run_others-All w.size pindex 0 (batch_size - r.0) r.1 own)
      ]
