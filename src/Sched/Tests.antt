-- ===== src/Sched/Tests.antt =====
-- The theorems about semaphores and signals at concrete states.
use cgo.Base.{true, some, ◌≡◌, ℕ, ◌≤◌, refl, false, none, [], ◌∷◌, length}
use cgo.Sched.{World, push, emit_to}
use cgo.Sched.Fresh.{fresh}
use cgo.Sched.Signal.{LazySignal}
use cgo.Sched.Condition.{notify, schedule_from_this, wait, suspend_to_this}
use cgo.Sched.Semaphore.{aquire_round, release}
use cgo.Sched.Wakeup.{
  Sys, Reach, here, next, enters, signals, entered, freed, no_lost_wakeup, mutex_exclusive,
}
use cgo.Sched.Permits.{enter}
use cgo.Sched.Run.{Bodies, create, destroy, settle}
use cgo.Sched.Run.Accounts.{Place, destroy-create, settle_places}
use cgo.Sched.Spinlock.{
  Threads, IsExclusive, tries, unlocks, spinlock-IsExclusive, lock_round, unlock,
}
use cgo.Sched.Spinlock
use cgo.Sched.Latch.{emits, begins, ends, acts, notified_once}

abbrev start : ℕ → Sys
start n = record { world = fresh n; woken = []; inside = 0; granted = n }

-- Two tasks wait on an empty semaphore, which is signalled once.
abbrev one_waits : Sys
one_waits = entered (start 0) [] (enter 1 0 (fresh 0))

abbrev two_wait : Sys
two_wait = entered one_waits [] (enter 2 0 one_waits.world)

abbrev signalled : Sys
signalled = record (freed 0 two_wait) { granted = 1 }

signalled-Reach : Reach 0 (start 0) signalled
unfolding enter aquire_round suspend_to_this
signalled-Reach = next (next (next here (enters 1)) (enters 2)) signals

no_lost_wakeup_example : (signalled.world.sems 0).vacant ≤ length signalled.woken
unfolding release notify schedule_from_this push emit_to enter aquire_round suspend_to_this wait
no_lost_wakeup_example = no_lost_wakeup refl signalled-Reach (λ e. cc)

-- A mutex: one task takes it, a second one waits.
abbrev locked : Sys
locked = entered (start 1) [] (enter 1 0 (fresh 1))

abbrev contended : Sys
contended = entered locked [] (enter 2 0 locked.world)

contended-Reach : Reach 0 (start 1) contended
contended-Reach = next (next here (enters 1)) (enters 2)

mutex_exclusive_example : contended.inside ≤ 1
mutex_exclusive_example = mutex_exclusive refl contended-Reach refl

abbrev quiet : LazySignal
quiet = record { emitted = false; waited = false; notified = 0 }

notified_once_example : (acts (begins ∷ emits ∷ ends ∷ begins ∷ emits ∷ []) quiet).notified ≤ 1
notified_once_example =
    (notified_once (begins ∷ emits ∷ ends ∷ begins ∷ emits ∷ []) quiet refl refl).0

destroy-create_example :
    (v : World) × (destroy 5 0 0 (create 5 0 0 3 (fresh 0)) ≡ some v)
    × (((v.contexts 0).allocators 0).pool ≡ [])
    × (((v.contexts 0).allocators 0).index 3 ≡ none)
destroy-create_example = destroy-create 5 0 0 3 (fresh 0) refl

-- Coroutines that end at once.
abbrev brief : Bodies
brief = record { resume = λ t w. w; done = λ t w. true }

settle_places_example :
    (v : World) × (settle brief 5 (create 5 0 0 3 (fresh 0)) ≡ some v)
    × Place true false none 5 (create 5 0 0 3 (fresh 0)) v
unfolding create
settle_places_example = settle_places brief 5 (create 5 0 0 3 (fresh 0)) refl

-- Thread 1 takes the lock, thread 2 fails, thread 1 leaves, thread 2 takes it.
abbrev free : Threads
free = record { lock = record { locked = false }; inside = [] }

abbrev taken : Threads
taken = record { lock = record { locked = true }; inside = 2 ∷ [] }

taken-Reach : Spinlock.Reach free taken
unfolding lock_round unlock
taken-Reach =
    Spinlock.Reach.next
      (Spinlock.Reach.next
        (Spinlock.Reach.next (Spinlock.Reach.next Spinlock.Reach.here (tries 1 false))
          (tries 2 false))
        (unlocks 1 [] [] refl))
      (tries 2 false)

spinlock-IsExclusive_example : IsExclusive taken
spinlock-IsExclusive_example = spinlock-IsExclusive refl taken-Reach
