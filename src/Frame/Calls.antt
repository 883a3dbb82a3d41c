-- ===== src/Frame/Calls.antt =====
-- What `_call_stack_execute` promises: a stack of coroutines as a list, innermost first, without
-- links, owners or entries.
use cgo.Base.{
  ℕ, zero, suc, ◌≡◌, ◌≢◌, ◌==◌, Bool, true, false, if◌then◌else◌, Option, none, some, List, [], ◌∷◌,
  ◌++◌, length, update, has,
}
use cgo.Linked.{Ptr, null}
use cgo.Frame.{Action, suspends, returns, awaits, raises, Ran, stopped, rethrown}

pub record Calls : Type 0 where
  pub stack : List Ptr
  pub error : Ptr → Option ℕ
  pub finished : Ptr → Bool
  pub resumed : List Ptr

abbrev pub rest_of : List Ptr → List Ptr
rest_of [] = []
rest_of (x ∷ xs) = xs

abbrev pub pop_call : Calls → Calls
pop_call a = record a { stack = rest_of a.stack }

-- The coroutine that goes on is the top of the stack, unless that is the one that just ran.
abbrev pub onward : Ptr → List Ptr → Option Ran
onward x [] = some stopped
onward x (y ∷ ys) = if y == x then some stopped else none

-- An exception goes to the top of the stack, or out of it.
unfoldable pub throw_to : Ptr → ℕ → List Ptr → Calls → Option Ran × Calls
throw_to x v [] a = (some (rethrown v), a)
throw_to x v (y ∷ ys) a = (onward x (y ∷ ys), record a { error = update a.error y (some v) })

-- After the coroutine `x` ran: it has an exception, has ended, or is suspended.
unfoldable pub conclude : Ptr → Calls → Option Ran × Calls
unfolding throw_to
conclude x a = elim (a.error x) [
  | some v ↦ throw_to x v (rest_of a.stack) (pop_call a)
  | none ↦ if a.finished x then (onward x (rest_of a.stack), pop_call a) else (onward x a.stack, a)
]

-- Awaits name frames by the promise of their coroutine.
module _ (promise : Ptr → Ptr) where
  unfoldable pub acted : Action → Ptr → Calls → Calls
  acted suspends x a = a
  acted returns x a = record a { finished = update a.finished x true }
  acted (awaits f) x a = record a { stack = promise f ∷ a.stack }
  acted (raises v) x a = record a {
    error = update a.error x (some v);
    finished = update a.finished x true;
  }

  module _ (act : ℕ → Ptr → Action) where
    unfoldable pub advance_top : List Ptr → Calls → Option Ran × Calls
    unfolding acted conclude
    advance_top [] a = (some stopped, a)
    advance_top (x ∷ ys) a =
        conclude x (acted (act (length a.resumed) x) x (record a { resumed = a.resumed ++ x ∷ [] }))

    unfoldable pub advance : Calls → Option Ran × Calls
    unfolding advance_top
    advance a = advance_top a.stack a

    unfoldable pub run : ℕ → Calls → Option (Ran × Calls)
    unfolding advance
    run zero a = none
    run (suc fuel) a =
        let r = advance a in elim r.0 [ some ran ↦ some (ran, r.1) | none ↦ run fuel r.1 ]

    module _ (handler : Ptr → Ptr) where
      -- A coroutine that is awaited is held by its frame, and waits for nothing itself.
      abbrev pub IsFresh : Action → List Ptr → Type 0
      IsFresh (awaits f) xs =
          (has (promise f) xs ≡ false) × (promise f ≢ null) × (handler f ≡ promise f)
      IsFresh _ xs = Unit {0}

      abbrev pub FreshTop : List Ptr → Calls → Type 0
      FreshTop [] a = Unit {0}
      FreshTop (x ∷ ys) a = IsFresh (act (length a.resumed) x) (x ∷ ys)

      -- This holds for the next `fuel` resumptions, as far as the loop goes.
      abbrev pub IsOrderly : ℕ → Calls → Type 0
      IsOrderly zero a = Unit {0}
      IsOrderly (suc fuel) a =
          FreshTop a.stack a
          × (elim (advance a).0 [ some ran ↦ Unit {0} | none ↦ IsOrderly fuel (advance a).1 ])
