-- ===== src/Sched/Places/Tests.antt =====
-- The theorems about the places of tasks at concrete states.
use cgo.Base.{count, List, ℕ, ◌≡◌, refl, false, some, [], ◌∷◌, has, All, Distinct}
use cgo.Linked.{unlink_from}
use cgo.Sched.{World, push, pop, take_first, emit_to}
use cgo.Sched.Condition.{wait, suspend_to_this}
use cgo.Sched.Semaphore.{aquire_round, release}
use cgo.Sched.Run.{
  Bodies, create, create_scheduled, start_task, settle, block, is_waiting, final_schedule,
}
use cgo.Sched.Places.{Place, nowhere, running, queued, blocked, same}
use cgo.Sched.Places.Moves.{lists, IsTidy}
use cgo.Sched.Places.Steps.{
  creates, takes, aquires, settles, releases, Reach, here, next, Reach-Tidy,
}
use cgo.Sched.Places.Shift.{Roster, Tidy}
use cgo.Sched.Run.Held.{held_by, Gained}
use cgo.Sched.Places.Destroyed.{final_schedule-Rid}
use cgo.Sched.Fresh.{fresh}

-- Coroutines that do not end.
abbrev endless : Bodies
endless = record { resume = λ t w. w; done = λ t w. false }

-- The roster after each step: task 5 is created, taken, tries to take semaphore 0, which has no permits, is put
-- away, and is woken.
abbrev idle : Roster
idle = record { run = []; world = fresh 0 }

abbrev made : Roster
made = record idle { world = create_scheduled 5 0 idle.world }

abbrev busy : Roster
busy = record { run = 5 ∷ []; world = start_task endless 5 (pop 0 0 made.world).1 }

abbrev tried : Roster
tried = record busy { world = (aquire_round 5 0 busy.world).0 }

abbrev away : Roster
away = record { run = []; world = block endless 5 (some 0) tried.world }

abbrev woken : Roster
woken = record away { world = release 0 away.world }

idle-Tidy : Tidy idle
idle-Tidy = (
  λ t. nowhere,
  record { placed = record { holds = holds; distinct = distinct }; homes = λ t. tt },
)
  where
    holds : (k : Place) (a : ℕ) → has a (lists [] (fresh 0) k) ≡ same k nowhere
    holds nowhere a = refl
    holds running a = refl
    holds (queued c i) a = refl
    holds (blocked s) a = refl

    distinct : (k : Place) → Distinct (lists [] (fresh 0) k)
    distinct nowhere = tt
    distinct running = tt
    distinct (queued c i) = tt
    distinct (blocked s) = tt

away_is : settle endless 5 tried.world ≡ some away.world
unfolding settle block aquire_round wait start_task pop take_first create_scheduled create push
    emit_to is_waiting suspend_to_this
away_is = refl

away-Reach : Reach idle away
unfolding settle block aquire_round wait start_task pop take_first create_scheduled create push
    emit_to is_waiting suspend_to_this unlink_from
away-Reach =
    next (next (next (next here (creates 5 0 free)) (takes endless 5 0 0 refl)) (aquires 5 0 refl))
      (settles endless 5 away.world refl refl away_is)
  where
    free : (k : Place) → has 5 (lists [] (fresh 0) k) ≡ false
    free nowhere = refl
    free running = refl
    free (queued c i) = refl
    free (blocked s) = refl

Reach-Tidy_example : Tidy woken
Reach-Tidy_example = Reach-Tidy idle-Tidy (next away-Reach (releases 0))

away-Tidy : Tidy away
away-Tidy = Reach-Tidy idle-Tidy away-Reach

-- Every coroutine holds a permit of semaphore 1 and gives it back.
abbrev one_held : ℕ → List ℕ
one_held t = 1 ∷ []

abbrev giving_back : ℕ → World → World
giving_back t w = release 1 w

final_schedule-Rid_example :
    let r = final_schedule giving_back 0 0 away.world in
    (r.1 ≡ 5 ∷ [])
    × ((s : ℕ) → Gained s (count s (held_by one_held r.1)) away.world r.0)
    × ((new : ℕ → Place) × IsTidy new [] r.0)
    × All (λ t. (k : Place) → has t (lists [] r.0 k) ≡ false) r.1
unfolding settle block aquire_round wait start_task pop take_first create_scheduled create push
    emit_to is_waiting suspend_to_this
final_schedule-Rid_example =
    final_schedule-Rid one_held giving_back (λ t w. refl) away-Tidy.0 away.world 0 0 away-Tidy.1
