-- ===== src/Frame/Tests.antt =====
-- The theorems on coroutine frames at concrete machines.
use cgo.Base.{
  ℕ, zero, suc, ◌≡◌, refl, ◌≢◌, ◌==◌, ◌+◌, false, if◌then◌else◌, none, some, [], ◌∷◌, arith, All,
  inr,
}
use cgo.Linked.{Ptr, null, Heap}
use cgo.Frame.{
  Action, returns, awaits, raises, Ran, rethrown, Machine, turn, call_stack_create,
  call_stack_execute, call_stack_destroy, move_frame, destroy_frame,
}
use cgo.Frame.Calls.{Calls, run, IsOrderly, advance, advance_top, acted, conclude, throw_to}
use cgo.Frame.Refine.{Holds}
use cgo.Frame.Execute.{SameRun, call_stack_execute-SameRun}
use cgo.Frame.Unwind.{call_stack_execute-Unwinds}
use cgo.Frame.Caught.{turn-caught}
use cgo.Frame.Destroy.{call_stack_destroy-Gone}
use cgo.Frame.Ends.{IsBounded, call_stack_execute-ends}
use cgo.Frame.Moving.{call_stack_create-Holds, move_frame-Holds}

-- The frames 11 and 12 hold the coroutines 1 and 2.
abbrev held_by : Ptr → Ptr
held_by f = if f == 11 then 1 else if f == 12 then 2 else null

abbrev no_links : Heap
no_links p = record { prev = null; next = null }

-- The coroutine 1 before it runs.
abbrev idle : Machine
idle = record {
  links = no_links;
  owner = λ p. p + 10;
  error = λ p. none;
  entry = λ p. null;
  current = λ p. null;
  handler = held_by;
  promise = held_by;
  finished = λ p. false;
  resumed = [];
  destroyed = [];
}

-- Alone on its stack, it first awaits the coroutine 2; from then on, coroutines return.
abbrev started : Machine
unfolding call_stack_create
started = call_stack_create 11 idle

abbrev one_call : Calls
one_call = record { stack = 1 ∷ []; error = λ p. none; finished = λ p. false; resumed = [] }

abbrev awaits_once : ℕ → Ptr → Action
awaits_once zero c = awaits 12
awaits_once (suc n) c = returns

awaits_once-IsBounded : IsBounded awaits_once 1
awaits_once-IsBounded zero c f l e = ground (arith, l)
awaits_once-IsBounded (suc n) c f l e = ground (arith, e)

started-Holds : Holds 1 started one_call
unfolding started call_stack_create
started-Holds =
    (call_stack_create-Holds 11 1 idle refl (λ e. ground (arith, e)) (refl, refl) refl).1

orderly : IsOrderly held_by awaits_once held_by 3 one_call
unfolding advance advance_top acted conclude throw_to
orderly = ((refl, (λ e. ground (arith, e)), refl), (tt, (tt, tt)))

call_stack_execute-SameRun_example :
    SameRun awaits_once 1
      (call_stack_execute awaits_once 3 11 started)
      (run held_by awaits_once 3 one_call)
unfolding started call_stack_create
call_stack_execute-SameRun_example =
    call_stack_execute-SameRun awaits_once 3 11 started one_call (λ e. ground (arith, e))
      started-Holds orderly

call_stack_execute-ends_example :
    (w : Ran) × (n : Machine) × (call_stack_execute awaits_once 3 11 started ≡ some (w, n))
unfolding started call_stack_create
call_stack_execute-ends_example =
    call_stack_execute-ends awaits_once 1 1 11 started one_call awaits_once-IsBounded
      (λ e. ground (arith, e)) started-Holds orderly (ground arith)

-- The coroutine 1 awaits the coroutine 2, which has ended with the exception 7 of its own callee.
abbrev two_links : Heap
two_links p =
    if p == 1
    then record { prev = null; next = 2 }
    else if p == 2
    then record { prev = 1; next = null }
    else record { prev = null; next = null }

abbrev two : Machine
two = record idle {
  links = two_links;
  error = λ p. if p == 2 then some 7 else none;
  entry = λ p. 1;
  current = λ p. 2;
}

abbrev two_calls : Calls
two_calls = record { stack = 2 ∷ 1 ∷ []; error = two.error; finished = two.finished; resumed = [] }

two-Holds : Holds 1 two two_calls
two-Holds = record {
  error = refl;
  finished = refl;
  resumed = refl;
  shaped = (
    refl,
    record { top = refl; below = (refl, refl, refl); distinct = (refl, (refl, tt)); real = refl },
  );
  entries = (refl, (refl, tt));
  owned = (refl, (refl, tt));
}

some_calls : two_calls.stack ≢ []
some_calls e = ground (arith, e)

call_stack_execute-Unwinds_example :
    (n : Machine) × (call_stack_execute (λ n c. raises 7) 2 11 two ≡ some (rethrown 7, n))
    × (n.resumed ≡ 2 ∷ 1 ∷ [])
    × (n.current 1 ≡ null)
call_stack_execute-Unwinds_example =
    call_stack_execute-Unwinds (λ n c. raises 7) 7 (λ n c. refl) 11 two two_calls some_calls
      two-Holds

turn-caught_example :
    ((turn (λ n c. returns) 1 2 two).0 ≡ none)
    × ((turn (λ n c. returns) 1 2 two).1 ≡ 1)
    × ((turn (λ n c. returns) 1 2 two).2.error 1 ≡ some 7)
    × ((turn (λ n c. returns) 1 2 two).2.current 1 ≡ 1)
turn-caught_example =
    turn-caught (λ n c. returns) 1 2 1 [] two two_calls 7 refl two-Holds refl (inr refl)

call_stack_destroy-Gone_example :
    (n : Machine) × (call_stack_destroy 3 11 two ≡ some n)
    × (n.destroyed ≡ 2 ∷ 1 ∷ [])
    × All (λ x. n.handler (two.owner x) ≡ null) (2 ∷ 1 ∷ [])
call_stack_destroy-Gone_example = call_stack_destroy-Gone 11 two two_calls some_calls two-Holds

move_frame-Holds_example :
    Holds 1 (move_frame 13 12 two) two_calls
    × (destroy_frame 12 (move_frame 13 12 two) ≡ move_frame 13 12 two)
move_frame-Holds_example =
    move_frame-Holds 1 13 12 two two_calls (λ e. ground (arith, e)) refl refl refl two-Holds
