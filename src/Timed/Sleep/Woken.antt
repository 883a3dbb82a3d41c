-- ===== src/Timed/Sleep/Woken.antt =====
-- A task that sleeps goes on at once if its timer has fired before it waits, or else is blocked until it
-- fires, and then is runnable; the timer does not fire before its time.
use cgo.Base.{ℕ, ◌≡◌, ◌≢◌, Bool, true, false, has, All, ◌⊎◌}
use cgo.Timed.Sleep.{Sleepers, sleep_wait}
use cgo.Timed.Sleep.Waking.{IsAsleep, IsAwake}
use cgo.Timed.Sleep.Late.{IsPast}

module _ (task signal : ℕ) where
  -- Afterwards: it is asleep until a callback ran, and then awake.
  abbrev Slept : Sleepers → Type 0
  Slept s =
      ((has signal s.timers.fired ≡ false) × IsAsleep task signal s.world)
      ⊎ ((has signal s.timers.fired ≡ true) × IsAwake task signal s.world)

module _ (clock : ℕ → ℕ) (task signal : ℕ) where
  -- What becomes of a task that waits: it goes on at once if a callback has run, or else it falls asleep.
  Waited : Sleepers → Sleepers × Bool → Type 0
  Waited s (v, true) = has signal s.timers.fired ≡ true
  Waited s (v, false) = (has signal s.timers.fired ≡ false) × Slept task signal v

  -- No timer of the semaphore is set, in hand, or has fired.
  abbrev pub IsUnset : Sleepers → Type 0
  IsUnset s =
      ((i : ℕ) → All (λ x. x.fn ≢ signal) (s.timers.schedulers i).pq_timer)
      × (has signal s.hands ≡ false)
      × (has signal s.timers.fired ≡ false)

  -- How a sleep may end, where the timer expires at `t`, the task began to wait at `u`, and the state
  -- is `v` now: it goes on at once; it is blocked by the semaphore alone; or it is in its run queue.
  pub data Slumber (t : ℕ) (u v : Sleepers) : Type 0 where
    passes :
        (sleep_wait task signal u).1 ≡ true
        → has signal u.timers.fired ≡ true
        → IsPast clock t u.timers
        → Slumber t u v
    sleeps :
        (sleep_wait task signal u).1 ≡ false
        → has signal v.timers.fired ≡ false
        → IsAsleep task signal v.world
        → Slumber t u v
    wakes :
        (sleep_wait task signal u).1 ≡ false
        → has signal u.timers.fired ≡ false
        → has signal v.timers.fired ≡ true
        → IsAwake task signal v.world
        → IsPast clock t v.timers
        → Slumber t u v
