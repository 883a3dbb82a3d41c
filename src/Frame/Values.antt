-- ===== src/Frame/Values.antt =====
-- The values that coroutines return and yield: `VoidPromise` and `ValuePromise` of src/include/core/coroutine.h, and
-- `await_ready` and `await_resume` of `Coroutine`. For a coroutine that returns a reference a value is an
-- address. A value that is moved from stays.
pub mod Delivered
mod Tests
use cgo.Base.{ℕ, Bool, Option, none, some, length, update}
use cgo.Linked.{Ptr}
use cgo.Frame.{Action, suspends, returns, Ran, Machine, coroutine, resume, turn}

-- What a coroutine does until it is suspended: it returns or yields a value, or does what the
-- machine knows of.
pub data Deed (V : Type 0) : Type 0 where
  returns_value yields_value : V → Deed V
  acts : Action → Deed V

-- The field `_value` of the promises beside the machine.
pub record Valued (V : Type 0) : Type 0 where
  pub machine : Machine
  pub value : Ptr → V

-- What `co_await` gives: a value, or an exception.
pub data Awaited (V : Type 0) : Type 0 where
  got : V → Awaited V
  threw : ℕ → Awaited V

-- `FrameOperator::done`.
unfoldable pub done : Ptr → Machine → Bool
done entry m = m.finished (m.handler entry)

unfoldable pub await_ready : Ptr → Machine → Bool
await_ready f m = m.finished (m.handler f)

module _ {V : Type 0} where
  -- A returned value ends the coroutine; a yielded one suspends it.
  unfoldable pub action_of : Deed V → Action
  action_of (returns_value v) = returns
  action_of (yields_value v) = suspends
  action_of (acts a) = a

  -- `return_value` and `yield_value` of the promise `c`.
  unfoldable pub store_value : Deed V → Ptr → (Ptr → V) → Ptr → V
  store_value (returns_value v) c values = update values c v
  store_value (yields_value v) c values = update values c v
  store_value (acts a) c values = values

  -- A round of `_call_stack_execute` with values.
  unfoldable pub turn_valued :
      (ℕ → Ptr → Deed V) → Ptr → Ptr → Valued V → Option Ran × Ptr × Valued V
  unfolding action_of store_value
  turn_valued act e p s =
      let m = s.machine in
      let c = coroutine p m in
      let r = turn (λ n x. action_of (act n x)) e p m in
      (r.0, r.1, record { machine = r.2; value = store_value (act (length m.resumed) c) c s.value })

  -- `await_resume` of the frame `f`.
  unfoldable pub await_resume : Ptr → Valued V → Awaited V
  await_resume f s =
      let p = s.machine.promise f in
      elim (s.machine.error p) [ some x ↦ threw x | none ↦ got (s.value p) ]
