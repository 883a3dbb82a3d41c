-- ===== src/Select.antt =====
-- `Select` of src/include/core/channel.h and src/core/channel.cpp. The order in which the listeners
-- are tried is an argument, since `std::shuffle` chooses it. An exception is `none`.
pub mod Dropped
pub mod Keeping
pub mod Runs
pub mod Offered
pub mod Waiting
mod Tests
use cgo.Base.{ℕ, false, if◌then◌else◌, ◌==◌, Option, none, some, List, [], ◌∷◌, ◌++◌}
use cgo.Channel.{
  Env, multiplex, Status, ok, raised, Listener, invalid_select_key, set_select, is_decided, drop,
}
use cgo.Channel.Transfer.{send_to, recv_from}
use cgo.Channel.Ops.{set_msg, make_semaphore}

module _ {V : Type 0} where
  -- `Select sel;` whose signal is the semaphore `signal`.
  unfoldable pub make_select : ℕ → ℕ → Env V → Env V
  make_select s signal e =
      set_select s
        (record {
          signal = signal;
          key = invalid_select_key;
          default_key = invalid_select_key;
          msgs = [];
          listeners = [];
        })
        (make_semaphore signal 0 e)

  -- `on(key, chan)` and the operator on the case that it returns. `cell` is the target, the source,
  -- or the object that the listener owns.
  unfoldable pub on_case : ℕ → Listener → Env V → Option (Env V)
  on_case s l e =
      if l.case_key == invalid_select_key
      then none
      else some
          (set_select s (record (e.selects s) { listeners = (e.selects s).listeners ++ l ∷ [] }) e)

  -- `on(key, Default{})`.
  unfoldable pub on_default : ℕ → ℕ → Env V → Option (Env V)
  on_default s key e =
      if (e.selects s).default_key == invalid_select_key
      then (if key == invalid_select_key
          then none
          else some (set_select s (record (e.selects s) { default_key = key }) e))
      else none

  -- What a listener does: it makes its message, notes it, and offers it to its channel.
  unfoldable pub listen : V → ℕ → Listener → Env V → Status × Env V
  listen blank s l e =
      let e1 = set_msg l.msg (multiplex l.cell s l.case_key) e in
      let e2 =
        set_select s (record (e1.selects s) { msgs = (e1.selects s).msgs ++ l.msg ∷ [] }) e1 in
      if l.sends then recv_from blank l.chan l.msg false e2 else send_to blank l.chan l.msg false e2

  -- The loop of `operator()`: it ends with the first listener after which the select is decided, or
  -- with an exception of a listener.
  unfoldable pub listen_all : V → ℕ → List Listener → Env V → Status × Env V
  listen_all blank s [] e = (ok, e)
  listen_all blank s (l ∷ ls) e =
      let r = listen blank s l e in
      let more = listen_all blank s ls r.1 in
      elim r.0 [ raised ↦ (raised, r.1) | _ ↦ if is_decided s r.1 then (ok, r.1) else more ]

  drop_all : List ℕ → Env V → Env V
  drop_all [] e = e
  drop_all (m ∷ ms) e = drop_all ms (drop m e)

  -- `_drop`.
  unfoldable pub drop_select : ℕ → Env V → Env V
  unfolding drop_all
  drop_select s e =
      let e1 = drop_all (e.selects s).msgs e in
      set_select s (record (e1.selects s) { msgs = []; listeners = [] }) e1

  -- The end of `operator()` with a default case, under the guard that drops the messages.
  unfoldable pub poll : ℕ → Env V → ℕ × Env V
  poll s e =
      let e1 = set_select s (record (e.selects s) { key = (e.selects s).default_key }) e in
      let e2 = if is_decided s e then e else e1 in ((e2.selects s).key, drop_select s e2)

  -- The end of `operator()` without one, after `_signal.aquire()`.
  unfoldable pub collect_key : ℕ → Env V → ℕ × Env V
  collect_key s e = ((e.selects s).key, drop_select s e)
