-- ===== src/Sched/Spinlock.antt =====
-- `Spinlock` of src/include/core/schedule.h and src/core/schedule.cpp, and threads that use one.
use cgo.Base.{
  ℕ, ◌≡◌, Bool, true, false, ◌||◌, if◌then◌else◌, List, ◌∷◌, ◌++◌, arith, length, length-append, ap,
  Bool-cases, inl, inr,
}

pub record Spinlock : Type 0 where
  pub locked : Bool

-- A round of the loop in `lock`: the lock, and whether the caller has it. A weak exchange may fail
-- although the lock is free.
unfoldable pub lock_round : Bool → Spinlock → Spinlock × Bool
lock_round spurious l =
    if spurious || l.locked then (l, false) else (record { locked = true }, true)

unfoldable pub unlock : Spinlock → Spinlock
unlock l = record { locked = false }

-- Threads that share a lock; `inside` are those between `lock` and `unlock`.
pub record Threads : Type 0 where
  pub lock : Spinlock
  pub inside : List ℕ

abbrev pub tried : ℕ → List ℕ → Spinlock × Bool → Threads
tried t inside (l, taken) = record { lock = l; inside = if taken then t ∷ inside else inside }

-- A thread runs a round of `lock`; a thread that is inside calls `unlock`.
pub data Step : Threads → Threads → Type 0 where
  tries :
      {v : Threads} (t : ℕ) (spurious : Bool)
      → Step v (tried t v.inside (lock_round spurious v.lock))
  unlocks :
      {v : Threads} (t : ℕ) (xs ys : List ℕ)
      → v.inside ≡ xs ++ t ∷ ys
      → Step v (record { lock = unlock v.lock; inside = xs ++ ys })

pub data Reach (u : Threads) : Threads → Type 0 where
  here : Reach u u
  next : {v w : Threads} → Reach u v → Step v w → Reach u w

-- One thread is inside while the lock is taken, and none otherwise.
abbrev pub IsExclusive : Threads → Type 0
IsExclusive v = length v.inside ≡ (if v.lock.locked then 1 else 0)

Step-IsExclusive : {v w : Threads} → Step v w → IsExclusive v → IsExclusive w
unfolding lock_round unlock
Step-IsExclusive {v} (tries t spurious) h = elim (Bool-cases (spurious || v.lock.locked)) [
  | inl y ↦ rw y h
  | inr n ↦ rw n (ground arith)
]
Step-IsExclusive {v} (unlocks t xs ys e) h =
    ground (arith, ap length e, length-append xs (t ∷ ys), length-append xs ys)

-- However threads interleave: if at the start one of them was inside while the lock was taken, and
-- none while it was free, this holds ever after, so no two threads are inside at once.
pub spinlock-IsExclusive : {u v : Threads} → IsExclusive u → Reach u v → IsExclusive v
spinlock-IsExclusive h here = h
spinlock-IsExclusive h (next r st) = Step-IsExclusive st (spinlock-IsExclusive h r)
