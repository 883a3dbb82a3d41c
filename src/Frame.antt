-- ===== src/Frame.antt =====
-- `BaseFrame`, `FrameOperator` and `Coroutine` of src/include/core/coroutine.h and
-- src/core/coroutine.cpp: the stack of the coroutines that wait for one another. Frames and promises
-- are addresses, and a coroutine is known by its promise. What a coroutine does when it is resumed
-- is the environment `act`, by the count of resumptions.
pub mod Stack
pub mod Calls
pub mod Refine
pub mod Agree
pub mod Execute
pub mod Unwind
pub mod Caught
pub mod Destroy
pub mod Ends
pub mod Moving
pub mod Values
mod Tests
use cgo.Base.{
  ℕ, zero, suc, ◌+◌, ◌==◌, ◌||◌, Bool, true, false, if◌then◌else◌, Option, none, some, List, [],
  ◌∷◌, ◌++◌, length, update,
}
use cgo.Linked.{Ptr, null, Heap, front, link_back, unlink_back}

-- Until it is suspended, a coroutine awaits the coroutine of a frame, returns, lets an exception
-- out, or just suspends.
pub data Action : Type 0 where
  suspends returns : Action
  awaits : Ptr → Action
  raises : ℕ → Action

-- How `resume` ends: it returns, or lets an exception out.
pub data Ran : Type 0 where
  stopped : Ran
  rethrown : ℕ → Ran

-- The fields of promises (`links`, `owner`, `error`, `entry`, `current`) and of frames (`handler`,
-- `promise`), and which coroutines are `done()`. `resumed` and `destroyed` list the coroutines that
-- were resumed and destroyed.
pub record Machine : Type 0 where
  pub links : Heap
  pub owner : Ptr → Ptr
  pub error : Ptr → Option ℕ
  pub entry : Ptr → Ptr
  pub current : Ptr → Ptr
  pub handler : Ptr → Ptr
  pub promise : Ptr → Ptr
  pub finished : Ptr → Bool
  pub resumed : List Ptr
  pub destroyed : List Ptr

-- `_call_stack_push` of the promise `this`.
unfoldable pub call_stack_push : Ptr → Ptr → Machine → Machine
call_stack_push this callee m =
    let e = m.entry this in
    record m {
      links = link_back (m.current e) callee m.links;
      entry = update m.entry callee e;
      current = update m.current e callee;
    }

-- `_call_stack_pop` of a promise with the entry `e`.
unfoldable pub call_stack_pop : Ptr → Machine → Ptr × Machine
call_stack_pop e m =
    let next = front (m.current e) m.links in
    let unlinked = (unlink_back next m.links).1 in
    (
      next,
      record m {
        links = if next == null then m.links else unlinked;
        current = update m.current e next;
      },
    )

-- `await_suspend` of the frame `f`, by the coroutine `caller`.
unfoldable pub await_suspend : Ptr → Ptr → Machine → Machine
unfolding call_stack_push
await_suspend f caller m =
    let callee = m.promise f in
    call_stack_push caller callee (record m { owner = update m.owner callee f })

-- What the coroutine `c` does.
unfoldable pub perform : Action → Ptr → Machine → Machine
unfolding await_suspend
perform suspends c m = m
perform returns c m = record m { finished = update m.finished c true }
perform (awaits f) c m = await_suspend f c m
perform (raises x) c m = record m {
  error = update m.error c (some x);
  finished = update m.finished c true;
}

-- The coroutine that a promise's owner holds.
abbrev pub coroutine : Ptr → Machine → Ptr
coroutine p m = m.handler (m.owner p)

-- `_call_stack_create` for the frame `f`.
unfoldable pub call_stack_create : Ptr → Machine → Machine
call_stack_create f m =
    let p = m.promise f in record m { entry = update m.entry p p; current = update m.current p p }

-- After a coroutine let the exception `x` out: how the loop ends, or where it goes on.
unfoldable pub on_error : Ptr → ℕ → Ptr × Machine → Option Ran × Ptr × Machine
on_error e x (next, m) = if next == null then (some (rethrown x), next, m) else (
  none,
  next,
  record m { error = update m.error next (some x); current = update m.current e next },
)

-- `while (next && current != next)`.
unfoldable pub go_on : Ptr → Option Ran × Ptr × Machine → Option Ran × Ptr × Machine
go_on p (some r, next, m) = (some r, next, m)
go_on p (none, next, m) = (if next == null || next == p then some stopped else none, next, m)

unfoldable pub after_resume : Ptr → Ptr → Machine → Option Ran × Ptr × Machine
unfolding call_stack_pop on_error
after_resume e p m =
    let popped = call_stack_pop e m in
    elim (m.error p) [
      | some x ↦ on_error e x popped
      | none ↦
          if m.finished (coroutine p m) then (none, popped.0, popped.1) else (none, m.current e, m)
    ]

module _ (act : ℕ → Ptr → Action) where
  unfoldable pub resume : Ptr → Machine → Machine
  unfolding perform
  resume p m =
      let c = coroutine p m in
      perform (act (length m.resumed) c) c (record m { resumed = m.resumed ++ c ∷ [] })

  -- A round of `_call_stack_execute` for the promise `p`, under the entry `e`.
  unfoldable pub turn : Ptr → Ptr → Machine → Option Ran × Ptr × Machine
  unfolding resume after_resume go_on
  turn e p m = go_on p (after_resume e p (resume p m))

  -- The loop; `none` if the fuel runs out.
  unfoldable pub rounds : ℕ → Ptr → Ptr → Machine → Option (Ran × Machine)
  unfolding turn
  rounds zero e p m = none
  rounds (suc fuel) e p m =
      let r = turn e p m in elim r.0 [ some ran ↦ some (ran, r.2) | none ↦ rounds fuel e r.1 r.2 ]

  -- `_call_stack_execute`.
  unfoldable pub call_stack_execute : ℕ → Ptr → Machine → Option (Ran × Machine)
  unfolding rounds
  call_stack_execute fuel f m = let e = m.entry (m.promise f) in rounds fuel e (m.current e) m

-- The loop of `_call_stack_destroy` from the promise `p`; `none` if the fuel runs out. Links are
-- read before the coroutine, and with it its promise, is destroyed.
unfoldable pub destroy_from : ℕ → Ptr → Machine → Option Machine
destroy_from zero p m = none
destroy_from (suc fuel) p m =
    let c = coroutine p m in
    let m1 = record m {
      handler = update m.handler (m.owner p) null;
      destroyed = m.destroyed ++ c ∷ [];
    } in
    let more = destroy_from fuel (front p m.links) m1 in if p == null then some m else more

-- `_call_stack_destroy`.
unfoldable pub call_stack_destroy : ℕ → Ptr → Machine → Option Machine
unfolding destroy_from
call_stack_destroy fuel f m = destroy_from fuel (m.current (m.entry (m.promise f))) m

-- The constructor of the frame `this` for the new coroutine `h`.
unfoldable pub make_frame : Ptr → Ptr → Machine → Machine
make_frame this h m = record m {
  handler = update m.handler this h;
  promise = update m.promise this h;
  owner = update m.owner h this;
}

-- `_destroy`, which is also the destructor.
unfoldable pub destroy_frame : Ptr → Machine → Machine
destroy_frame this m =
    let c = m.handler this in
    if c == null
    then m
    else record m { handler = update m.handler this null; destroyed = m.destroyed ++ c ∷ [] }

-- The swaps of the move constructor, for a frame `this` without a coroutine.
unfoldable pub take_over : Ptr → Ptr → Machine → Machine
take_over this rhs m = record m {
  handler = update (update m.handler this (m.handler rhs)) rhs null;
  promise = update (update m.promise this (m.promise rhs)) rhs null;
  owner = update m.owner (m.promise rhs) this;
}

-- The move constructor: `this` takes the coroutine of `rhs`.
unfoldable pub move_frame : Ptr → Ptr → Machine → Machine
unfolding take_over destroy_frame
move_frame this rhs m = take_over this rhs (destroy_frame this m)
