-- ===== src/Channel/Ops.antt =====
-- The coroutines of `Channel` in src/include/core/channel.h. The local objects of a call, its
-- message and its semaphore, are given by fresh addresses. A call has two halves: up to the
-- suspension in `signal.aquire()`, and the guard that drops the message at the end.
use cgo.Base.{ℕ, Bool, true, false, none, [], update}
use cgo.Sched.{set_sem}
use cgo.Sched.Permits.{enter}
use cgo.Channel.{Env, Msg, simplex, drop, Target, store}
use cgo.Channel.Transfer.{is_ok, send_to, recv_from}

module _ {V : Type 0} where
  -- `Semaphore signal(n);`
  unfoldable pub make_semaphore : ℕ → ℕ → Env V → Env V
  make_semaphore signal n e = record e {
    sched =
        set_sem signal (record { vacant = n; cond = record { blocked = []; scheduled_ctx = none } })
          e.sched;
  }

  abbrev pub set_msg : ℕ → Msg → Env V → Env V
  set_msg m x e = record e { msgs = update e.msgs m x }

  abbrev pub local_objects : ℕ → ℕ → ℕ → Env V → Env V
  local_objects cell msg signal e = set_msg msg (simplex cell signal) (make_semaphore signal 0 e)

  -- `signal.aquire()` by a task: the state, and whether it goes on at once.
  unfoldable pub await_signal : ℕ → ℕ → Env V → Env V × Bool
  await_signal task signal e = let r = enter task signal e.sched in (record e { sched = r.0 }, r.1)

  -- `operator<<(T&)`.
  unfoldable pub send_begin : V → ℕ → ℕ → ℕ → ℕ → ℕ → Env V → Env V × Bool
  unfolding make_semaphore await_signal
  send_begin blank task chan cell msg signal e =
      await_signal task signal (recv_from blank chan msg false (local_objects cell msg signal e)).1

  -- `operator>>(T&)`; with cell 0 it is `operator>>(Dropout)`.
  unfoldable pub recv_begin : V → ℕ → ℕ → ℕ → ℕ → ℕ → Env V → Env V × Bool
  unfolding make_semaphore await_signal
  recv_begin blank task chan cell msg signal e =
      await_signal task signal (send_to blank chan msg false (local_objects cell msg signal e)).1

  -- The guard of both.
  unfoldable pub finish : ℕ → Env V → Env V
  finish msg e = drop msg e

  -- `Nowait::operator<<(T&)`: whether the value was taken.
  unfoldable pub nowait_send : V → ℕ → ℕ → ℕ → Env V → Bool × Env V
  nowait_send blank chan cell msg e =
      let r = recv_from blank chan msg true (set_msg msg (simplex cell 0) e) in (is_ok r.0, r.1)

  -- `operator<<(T&&)` of both, through the local object `data`, the object of the cell.
  unfoldable pub send_moved : V → V → ℕ → ℕ → ℕ → ℕ → ℕ → Env V → Env V × Bool
  unfolding send_begin
  send_moved blank x task chan cell msg signal e =
      send_begin blank task chan cell msg signal (store (Target.cell cell) x e)

  unfoldable pub nowait_send_moved : V → V → ℕ → ℕ → ℕ → Env V → Bool × Env V
  unfolding nowait_send
  nowait_send_moved blank x chan cell msg e =
      nowait_send blank chan cell msg (store (Target.cell cell) x e)
