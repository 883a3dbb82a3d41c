-- ===== src/Channel.antt =====
-- The data of src/include/core/channel.h and the messages of src/core/channel.cpp. Objects of the
-- channel's type are cells of a memory, 0 is the null pointer, and a moved-from object keeps its
-- value. The intrusive queues are lists of message addresses, front first (see Linked). The locks
-- are held for a whole operation, so an operation is one step. The constructor `raised` of Status
-- stands for the exception that `BaseMsg::send_to` throws.
pub mod Transfer
pub mod Kept
pub mod Narrow
pub mod Linked
pub mod Buffer
pub mod Invariant
pub mod Receiving
pub mod Drain
pub mod Sending
pub mod Simplex
pub mod Fifo
pub mod Offer
pub mod Ops
pub mod Collect
pub mod Stale
mod Tests
use cgo.Base.{
  ℕ, zero, suc, ◌^◌, Bool, true, false, not, if◌then◌else◌, ◌==◌, Option, none, some, List, [], ◌∷◌,
  ◌++◌, update,
}
use cgo.Linked.{unlink_from}
use cgo.Sched.{World}
use cgo.Sched.Semaphore.{release}

-- The bit pattern of INT_MIN.
abbrev pub invalid_select_key : ℕ
invalid_select_key = 2 ^ 31

-- `Simplex` and `Multiplex`: a cell and a semaphore, or a cell, a select and its case's key.
pub data Msg : Type 0 where
  simplex : ℕ → ℕ → Msg
  multiplex : ℕ → ℕ → ℕ → Msg

pub data Status : Type 0 where
  ok invalid_src invalid_dst invalid_oneshot inprocess raised : Status

-- A listener of a select: the cell, the channel, the case's key, the message that it will use, and
-- whether it sends.
pub record Listener : Type 0 where
  pub cell : ℕ
  pub chan : ℕ
  pub case_key : ℕ
  pub msg : ℕ
  pub sends : Bool

pub record Select : Type 0 where
  pub signal : ℕ
  pub key : ℕ
  pub default_key : ℕ
  pub msgs : List ℕ
  pub listeners : List Listener

pub record Chan (V : Type 0) : Type 0 where
  pub capacity : ℕ
  pub buffer : List V
  pub senders : List ℕ
  pub recvers : List ℕ

-- `local` is the variable `x` of `_buffer_recv_from`; `chan_of` is the field `_chan` of a message.
pub record Env (V : Type 0) : Type 0 where
  pub sched : World
  pub mem : ℕ → V
  pub local : V
  pub msgs : ℕ → Msg
  pub chan_of : ℕ → Option ℕ
  pub selects : ℕ → Select
  pub chans : ℕ → Chan V

-- The pointers that `_move` is given.
pub data Source : Type 0 where
  cell : ℕ → Source
  front : ℕ → Source

pub data Target : Type 0 where
  cell : ℕ → Target
  local : Target

module _ {V : Type 0} where
  abbrev pub set_chan : ℕ → Chan V → Env V → Env V
  set_chan c x e = record e { chans = update e.chans c x }

  abbrev pub set_select : ℕ → Select → Env V → Env V
  set_select s x e = record e { selects = update e.selects s x }

  abbrev pub first_item : List V → Option V
  first_item [] = none
  first_item (v ∷ vs) = some v

  abbrev pub load : Source → Env V → Option V
  load (cell zero) e = none
  load (cell (suc p)) e = some (e.mem (suc p))
  load (front c) e = first_item (e.chans c).buffer

  abbrev pub store : Target → V → Env V → Env V
  store (cell zero) v e = e
  store (cell (suc p)) v e = record e { mem = update e.mem (suc p) v }
  store local v e = record e { local = v }

  unfoldable pub put : Option V → Target → Env V → Env V
  put none dst e = e
  put (some v) dst e = store dst v e

  -- `TypeMsg::_move`.
  unfoldable pub move : Source → Target → Env V → Env V
  unfolding put
  move src dst e = put (load src e) dst e

  unfoldable pub raise_signal : ℕ → Env V → Env V
  raise_signal zero e = e
  raise_signal (suc s) e = record e { sched = release (suc s) e.sched }

  -- `Simplex::commit` and `Multiplex::commit`.
  unfoldable pub commit : Msg → Env V → Env V
  unfolding raise_signal
  commit (simplex d signal) e = raise_signal signal e
  commit (multiplex d s k) e =
      let e1 = set_select s (record (e.selects s) { key = k }) e in
      record e1 { sched = release (e.selects s).signal e1.sched }

  -- Whether a select has already been decided.
  abbrev pub is_decided : ℕ → Env V → Bool
  is_decided s e = not ((e.selects s).key == invalid_select_key)

  unfoldable pub recv_to : Source → Msg → Env V → Status × Env V
  unfolding move commit
  recv_to src (multiplex d s k) e =
      if is_decided s e
      then (invalid_src, e)
      else (ok, commit (multiplex d s k) (move src (cell d) e))
  recv_to src (simplex d signal) e = (ok, commit (simplex d signal) (move src (cell d) e))

  -- `BaseMsg::recv_from(void*)`.
  unfoldable pub recv_from_ptr : Source → ℕ → Env V → Status × Env V
  unfolding recv_to
  recv_from_ptr src this e = recv_to src (e.msgs this) e

  unfoldable pub send_from : Msg → Target → Env V → Status × Env V
  unfolding move commit
  send_from (multiplex d s k) dst e =
      if is_decided s e
      then (invalid_src, e)
      else (ok, commit (multiplex d s k) (move (cell d) dst e))
  send_from (simplex d signal) dst e = (ok, commit (simplex d signal) (move (cell d) dst e))

  -- `BaseMsg::send_to(void*)`.
  unfoldable pub send_to_ptr : ℕ → Target → Env V → Status × Env V
  unfolding send_from
  send_to_ptr this dst e = send_from (e.msgs this) dst e

  -- The tail of the mixed cases: the simplex side commits if the other side did.
  unfoldable pub commit_if_ok : Msg → Status × Env V → Status × Env V
  unfolding commit
  commit_if_ok m (ok, e) = (ok, commit m e)
  commit_if_ok m (st, e) = (st, e)

  unfoldable pub transfer : Msg → Msg → Env V → Status × Env V
  unfolding move commit recv_to send_from commit_if_ok
  transfer (multiplex d s k) (multiplex d' s' k') e =
      if s == s'
      then (raised, e)
      else if is_decided s e
      then (invalid_src, e)
      else if is_decided s' e
      then (invalid_dst, e)
      else (ok, commit (multiplex d' s' k') (commit (multiplex d s k) (move (cell d) (cell d') e)))
  transfer (multiplex d s k) (simplex d' signal') e =
      commit_if_ok (simplex d' signal') (send_from (multiplex d s k) (cell d') e)
  transfer (simplex d signal) dst e = commit_if_ok (simplex d signal) (recv_to (cell d) dst e)

  -- `BaseMsg::send_to(BaseMsg*)`.
  unfoldable pub send_to_msg : ℕ → ℕ → Env V → Status × Env V
  unfolding transfer
  send_to_msg this dst e = transfer (e.msgs this) (e.msgs dst) e

  -- `BaseMsg::recv_from(BaseMsg*)`.
  unfoldable pub recv_from_msg : ℕ → ℕ → Env V → Status × Env V
  unfolding send_to_msg
  recv_from_msg this src e = send_to_msg src this e

  unfoldable pub drop_from : Option ℕ → ℕ → Env V → Env V
  unfolding unlink_from
  drop_from none this e = e
  drop_from (some c) this e =
      set_chan c
        (record (e.chans c) {
          senders = unlink_from this (e.chans c).senders;
          recvers = unlink_from this (e.chans c).recvers;
        })
        e

  -- `BaseMsg::drop`. The message is linked in at most one of the two queues of its channel.
  unfoldable pub drop : ℕ → Env V → Env V
  unfolding drop_from
  drop this e = drop_from (e.chan_of this) this e
