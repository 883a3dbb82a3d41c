-- ===== src/Channel/Collect.antt =====
-- `collect` of src/include/core/channel.h: a new channel, and a task that awaits a coroutine and sends what it
-- returned.
use cgo.Base.{ℕ, Bool, true, []}
use cgo.Sched.Run.{spawn}
use cgo.Channel.{Env, set_chan}
use cgo.Channel.Ops.{send_moved}
use cgo.Frame.Values.{Awaited, got, threw}

module _ {V : Type 0} where
  -- The call, in context `c`.
  unfoldable pub collect : ℕ → ℕ → ℕ → Env V → Env V
  unfolding spawn
  collect c task chan e =
      let e1 = set_chan chan (record { capacity = 0; buffer = []; senders = []; recvers = [] }) e in
      record e1 { sched = spawn c task e1.sched }

  -- The task after `co_await fn`, up to its suspension: the state, and whether it goes on at once. An exception
  -- ends it.
  unfoldable pub send_collected : V → Awaited V → ℕ → ℕ → ℕ → ℕ → ℕ → Env V → Env V × Bool
  unfolding send_moved
  send_collected blank (got res) task chan cell msg signal e =
      send_moved blank res task chan cell msg signal e
  send_collected blank (threw x) task chan cell msg signal e = (e, true)
