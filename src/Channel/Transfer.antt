-- ===== src/Channel/Transfer.antt =====
-- `TypeChannel` and `BaseChannel` of src/include/core/channel.h and src/core/channel.cpp.
use cgo.Base.{
  ℕ, Bool, true, false, if◌then◌else◌, ◌==◌, Option, none, some, List, [], ◌∷◌, ◌++◌, length,
  update,
}
use cgo.Channel.{
  Env, Status, ok, invalid_src, invalid_dst, invalid_oneshot, inprocess, raised, Source, Target,
  set_chan, recv_from_ptr, send_to_ptr, send_to_msg, recv_from_msg,
}

abbrev pub is_ok : Status → Bool
is_ok ok = true
is_ok _ = false

module _ {V : Type 0} where
  abbrev pub rest : List V → List V
  rest [] = []
  rest (v ∷ vs) = vs

  unfoldable pub pop_buffer : ℕ → Env V → Env V
  pop_buffer c e = set_chan c (record (e.chans c) { buffer = rest (e.chans c).buffer }) e

  unfoldable pub buffer_give : ℕ → ℕ → List V → Env V → Bool × Env V
  unfolding pop_buffer
  buffer_give c dst [] e = (false, e)
  buffer_give c dst (v ∷ vs) e =
      let (st, e1) = recv_from_ptr (Source.front c) dst e in
      if is_ok st then (true, pop_buffer c e1) else (false, e1)

  -- `_buffer_send_to`.
  unfoldable pub buffer_send_to : ℕ → ℕ → Env V → Bool × Env V
  unfolding buffer_give
  buffer_send_to c dst e = buffer_give c dst (e.chans c).buffer e

  unfoldable pub push_buffer : ℕ → Env V → Env V
  push_buffer c e =
      set_chan c (record (e.chans c) { buffer = (e.chans c).buffer ++ e.local ∷ [] }) e

  -- `_buffer_recv_from`; `blank` is the value of `T x;`.
  unfoldable pub buffer_recv_from : V → ℕ → ℕ → Env V → Bool × Env V
  unfolding push_buffer
  buffer_recv_from blank c src e =
      let (st, e1) = send_to_ptr src Target.local (record e { local = blank }) in
      if length (e.chans c).buffer == (e.chans c).capacity
      then (false, e)
      else if is_ok st
      then (true, push_buffer c e1)
      else (false, e1)

  abbrev pub set_senders : ℕ → List ℕ → Env V → Env V
  set_senders c ms e = set_chan c (record (e.chans c) { senders = ms }) e

  abbrev pub set_recvers : ℕ → List ℕ → Env V → Env V
  set_recvers c ms e = set_chan c (record (e.chans c) { recvers = ms }) e

  -- The loop of `send_to` that refills the buffer from the waiting senders `ms`.
  unfoldable pub refill : V → ℕ → List ℕ → Env V → Env V
  refill blank c [] e = e
  refill blank c (m ∷ ms) e =
      let r = buffer_recv_from blank c m (set_senders c ms e) in
      let more = refill blank c ms r.1 in if r.0 then r.1 else more

  -- The loop of `send_to` that looks for a waiting sender; `none` if it finds an empty queue.
  unfoldable pub pull : ℕ → ℕ → List ℕ → Env V → Option Status × Env V
  pull c dst [] e = (none, e)
  pull c dst (m ∷ ms) e =
      let r = send_to_msg m dst e in
      let more = pull c dst ms (set_senders c ms r.1) in
      elim r.0 [
        | ok ↦ (some ok, set_senders c ms r.1)
        | invalid_src ↦ more
        | raised ↦ (some raised, r.1)
        | _ ↦ (some invalid_dst, r.1)
      ]

  unfoldable pub wait_as_recver : ℕ → ℕ → Bool → Env V → Status × Env V
  wait_as_recver c dst true e = (invalid_oneshot, e)
  wait_as_recver c dst false e = (inprocess, set_recvers c ((e.chans c).recvers ++ dst ∷ []) e)

  unfoldable pub or_wait_as_recver : ℕ → ℕ → Bool → Option Status × Env V → Status × Env V
  unfolding wait_as_recver
  or_wait_as_recver c dst oneshot (some st, e) = (st, e)
  or_wait_as_recver c dst oneshot (none, e) = wait_as_recver c dst oneshot e

  -- `BaseChannel::send_to`.
  unfoldable pub send_to : V → ℕ → ℕ → Bool → Env V → Status × Env V
  unfolding or_wait_as_recver
  send_to blank c dst oneshot e =
      let b = buffer_send_to c dst (record e { chan_of = update e.chan_of dst (some c) }) in
      let filled = refill blank c (b.1.chans c).senders b.1 in
      let r = pull c dst (b.1.chans c).senders b.1 in
      if b.0 then (ok, filled) else or_wait_as_recver c dst oneshot r

  -- The loop of `recv_from` that drains the buffer to the waiting receivers `ms`.
  unfoldable pub drain : ℕ → List ℕ → Env V → Env V
  drain c [] e = e
  drain c (m ∷ ms) e =
      let r = buffer_send_to c m (set_recvers c ms e) in
      let more = drain c ms r.1 in if r.0 then r.1 else more

  -- The loop of `recv_from` that looks for a waiting receiver.
  unfoldable pub hand : ℕ → ℕ → List ℕ → Env V → Option Status × Env V
  hand c src [] e = (none, e)
  hand c src (m ∷ ms) e =
      let r = recv_from_msg m src e in
      let more = hand c src ms (set_recvers c ms r.1) in
      elim r.0 [
        | ok ↦ (some ok, set_recvers c ms r.1)
        | invalid_dst ↦ more
        | raised ↦ (some raised, r.1)
        | _ ↦ (some invalid_src, r.1)
      ]

  unfoldable pub wait_as_sender : ℕ → ℕ → Bool → Env V → Status × Env V
  wait_as_sender c src true e = (invalid_oneshot, e)
  wait_as_sender c src false e = (inprocess, set_senders c ((e.chans c).senders ++ src ∷ []) e)

  unfoldable pub or_wait_as_sender : ℕ → ℕ → Bool → Option Status × Env V → Status × Env V
  unfolding wait_as_sender
  or_wait_as_sender c src oneshot (some st, e) = (st, e)
  or_wait_as_sender c src oneshot (none, e) = wait_as_sender c src oneshot e

  -- `BaseChannel::recv_from`.
  unfoldable pub recv_from : V → ℕ → ℕ → Bool → Env V → Status × Env V
  unfolding or_wait_as_sender
  recv_from blank c src oneshot e =
      let b = buffer_recv_from blank c src (record e { chan_of = update e.chan_of src (some c) }) in
      let drained = drain c (b.1.chans c).recvers b.1 in
      let r = hand c src (b.1.chans c).recvers b.1 in
      if b.0 then (ok, drained) else or_wait_as_sender c src oneshot r
