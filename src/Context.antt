-- ===== src/Context.antt =====
-- `Context` of src/include/core/context.h and src/core/context.cpp: starting and stopping the
-- workers, and how far each is in `_run`. What a round of `_run` does is in Worker.
pub mod Phases
pub mod Joining
pub mod Worker
mod Tests
use cgo.Base.{
  ℕ, zero, suc, ◌==◌, ◌&&◌, not, ltb, leb, Bool, true, false, if◌then◌else◌, Option, none, some,
  List, [], ◌∷◌, ◌++◌,
}

-- How far a worker is: it registers its signal, has arrived at the barrier before the loop, is in
-- the loop, has arrived at the barrier behind it, closes its signal and finishes its tasks, and ends.
pub data Phase : Type 0 where
  registering at_start looping at_end closing ended : Phase

abbrev pub rank : Phase → ℕ
rank registering = 0
rank at_start = 1
rank looping = 2
rank at_end = 3
rank closing = 4
rank ended = 5

pub record Context : Type 0 where
  pub finished : Bool
  pub workers : List Phase

abbrev pub new_context : Context
new_context = record { finished = false; workers = [] }

-- The threads that start.
abbrev pub fresh : ℕ → List Phase
fresh zero = []
fresh (suc n) = registering ∷ fresh n

-- `startup`; `none` if it throws.
unfoldable pub startup : ℕ → Context → Option Context
startup n c = if c.finished then none else some (record c { workers = c.workers ++ fresh n })

-- All workers have come as far as the rank `k`.
abbrev pub all_reached : ℕ → List Phase → Bool
all_reached k [] = true
all_reached k (p ∷ ps) = leb k (rank p) && all_reached k ps

-- `shutdown` up to where it joins; afterwards, whether the joins are over.
unfoldable pub shutdown : Context → Context
shutdown c = record c { finished = true }

abbrev pub joined : Context → Bool
joined c = all_reached 5 c.workers

-- A step of a worker in `_run`; `none` if it blocks. A barrier lets a worker go on once all have
-- arrived.
unfoldable pub step_worker : Context → Phase → Option Phase
step_worker c registering = some at_start
step_worker c at_start = if all_reached 1 c.workers then some looping else none
step_worker c looping = some (if c.finished then at_end else looping)
step_worker c at_end = if all_reached 3 c.workers then some closing else none
step_worker c closing = some ended
step_worker c ended = none

abbrev pub nth : ℕ → List Phase → Option Phase
nth i [] = none
nth zero (p ∷ ps) = some p
nth (suc i) (p ∷ ps) = nth i ps

abbrev pub set_nth : ℕ → Phase → List Phase → List Phase
set_nth i q [] = []
set_nth zero q (p ∷ ps) = q ∷ ps
set_nth (suc i) q (p ∷ ps) = p ∷ set_nth i q ps

-- The worker `i` goes on, if there is one and it is not blocked.
unfoldable pub step_at : ℕ → Context → Context
unfolding step_worker
step_at i c = elim (nth i c.workers) [
  | none ↦ c
  | some p ↦ elim (step_worker c p) [
    | none ↦ c
    | some q ↦ record c { workers = set_nth i q c.workers }
  ]
]

-- Workers go on in any order, and some thread may shut the context down.
pub data Turn : Type 0 where
  shuts : Turn
  steps : ℕ → Turn

unfoldable pub take_turns : List Turn → Context → Context
unfolding shutdown step_at
take_turns [] c = c
take_turns (shuts ∷ ts) c = take_turns ts (shutdown c)
take_turns (steps i ∷ ts) c = take_turns ts (step_at i c)
