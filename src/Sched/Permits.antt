-- ===== src/Sched/Permits.antt =====
-- What a round of `Semaphore::aquire` and a `release` do to the permits and the blocked tasks.
use cgo.Base.{
  ℕ, ◌+◌, ◌-◌, ◌%◌, ◌^◌, ◌<◌, ◌≡◌, refl, inl, inr, Bool, true, false, Option, none, some, List, [],
  ◌∷◌, ◌++◌, arith, if◌then◌else◌, ltb, Bool-cases,
}
use cgo.Sched.{World, SemState, push, emit_to, set_sem, incr}
use cgo.Sched.Condition.{schedule_from_this, schedule_first, wait_resumed, suspend_to_this}
use cgo.Sched.Semaphore.{aquire_round, release}

emit_to-sems : (o : Option ℕ) (w : World) → (emit_to o w).sems ≡ w.sems
unfolding emit_to
emit_to-sems none w = refl
emit_to-sems (some s) w = refl

pub push-sems : (c i t : ℕ) (w : World) → (push c i t w).sems ≡ w.sems
unfolding push
push-sems c i t w = emit_to-sems _ _

abbrev tail : List ℕ → List ℕ
tail [] = []
tail (x ∷ xs) = xs

abbrev pub first : List ℕ → List ℕ
first [] = []
first (x ∷ xs) = x ∷ []

schedule_first-sem :
    (s : ℕ) (b : List ℕ) (w : World)
    → (w.sems s).cond.blocked ≡ b
    → (((schedule_first s b w).sems s).vacant ≡ (w.sems s).vacant)
      × (((schedule_first s b w).sems s).cond.blocked ≡ tail b)
unfolding schedule_first
schedule_first-sem s [] w e = (refl, e)
schedule_first-sem s (t ∷ rest) w e = rw push-sems (ground arith, ground arith)

pub release-sem :
    (s : ℕ) (w : World)
    → (((release s w).sems s).vacant ≡ ((w.sems s).vacant + 1) % 2 ^ 64)
      × (((release s w).sems s).cond.blocked ≡ tail (w.sems s).cond.blocked)
unfolding release schedule_from_this
release-sem s w =
    let r =
      schedule_first-sem s (w.sems s).cond.blocked
        (set_sem s (record (w.sems s) { vacant = incr (w.sems s).vacant }) w) (ground arith) in
    ground (arith, r)

-- A round of `aquire` and, if it does not succeed, the suspension by `_execute`.
unfoldable pub enter : ℕ → ℕ → World → World × Bool
enter t s w =
    let (w1, taken) = aquire_round t s w in (if taken then w1 else suspend_to_this t s w1, taken)

unfoldable pub reenter : ℕ → ℕ → World → World × Bool
unfolding enter
reenter t s w = enter t s (wait_resumed s w)

-- What a round does to the semaphore.
abbrev pub Entered : SemState → ℕ → SemState × Bool → Type 0
Entered x t (y, true) =
    (0 < x.vacant) × (y.vacant ≡ x.vacant - 1) × (y.cond.blocked ≡ x.cond.blocked)
Entered x t (y, false) =
    (x.vacant ≡ 0) × (y.vacant ≡ 0) × (y.cond.blocked ≡ x.cond.blocked ++ t ∷ [])

pub enter-Entered :
    (t s : ℕ) (w : World) → Entered (w.sems s) t (((enter t s w).0.sems s), (enter t s w).1)
unfolding enter aquire_round suspend_to_this
enter-Entered t s w = elim (Bool-cases (ltb 0 (w.sems s).vacant)) [
  | inl e ↦ rw e (ground arith, ground arith, ground arith)
  | inr e ↦ rw e (ground arith, ground arith, ground arith)
]

Entered-ext :
    (x y : SemState) (t : ℕ) (r : SemState × Bool)
    → x.vacant ≡ y.vacant
    → x.cond.blocked ≡ y.cond.blocked
    → Entered x t r
    → Entered y t r
Entered-ext x y t (z, true) e f h = (ground arith, ground arith, ground arith)
Entered-ext x y t (z, false) e f h = (ground arith, ground arith, ground arith)

pub reenter-Entered :
    (t s : ℕ) (w : World) → Entered (w.sems s) t (((reenter t s w).0.sems s), (reenter t s w).1)
unfolding reenter wait_resumed
reenter-Entered t s w =
    let w1 : World = wait_resumed s w in
    Entered-ext (w1.sems s) (w.sems s) t ((reenter t s w).0.sems s, (reenter t s w).1)
      (ground arith) (ground arith) (enter-Entered t s w1)
