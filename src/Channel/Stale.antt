-- ===== src/Channel/Stale.antt =====
-- A select that has already fired may still stand in the queues of its other channels, until its
-- coroutine runs again and drops its messages. What a simplex message meets there.
use cgo.Base.{
  ℕ, ◌≡◌, refl, Bool, true, false, ◌==◌, Option, none, some, List, [], ◌∷◌, arith, update, length,
  All, subst, sym,
}
use cgo.Channel.{
  Env, Msg, simplex, multiplex, Status, invalid_src, Source, is_decided, recv_to, recv_from_ptr,
  commit_if_ok, transfer, send_to_msg, recv_from_msg,
}
use cgo.Channel.Transfer.{
  buffer_give, buffer_send_to, buffer_recv_from, set_senders, hand, recv_from, or_wait_as_sender,
  pull, send_to, or_wait_as_recver, wait_as_recver,
}

abbrev pub IsSimplex : (ℕ → Msg) → ℕ → Type 0
IsSimplex msgs m = (d : ℕ) × (t : ℕ) × (msgs m ≡ simplex d t)

module _ {V : Type 0} where
  -- A decided select takes nothing from a simplex message, and the status blames the source.
  send_to_msg-stale :
      (m n d t p s k : ℕ) (e : Env V)
      → e.msgs m ≡ simplex d t
      → e.msgs n ≡ multiplex p s k
      → is_decided s e ≡ true
      → send_to_msg m n e ≡ (invalid_src, e)
  unfolding send_to_msg transfer recv_to commit_if_ok
  send_to_msg-stale m n d t p s k e em en o = rw (em, en, o, commit_if_ok)

  module _ (blank : V) (c src : ℕ) (oneshot : Bool) (e : Env V) where
    abbrev bound : Env V
    bound = record e { chan_of = update e.chan_of src (some c) }

    pub buffer_recv_from-full :
        length (e.chans c).buffer ≡ (e.chans c).capacity
        → buffer_recv_from blank c src bound ≡ (false, bound)
    unfolding buffer_recv_from
    buffer_recv_from-full h =
        let full : (length (e.chans c).buffer == (e.chans c).capacity) ≡ true = ground arith in
        rw full

    -- A simplex message sent to a channel whose buffer is full, and whose first waiting receiver is a
    -- select that has already fired, is neither delivered nor queued: the call returns `invalid_src`
    -- and changes only the channel noted in the message, whoever waits behind that select.
    pub recv_from-lost :
        (m d t p s k : ℕ) (ms : List ℕ)
        → length (e.chans c).buffer ≡ (e.chans c).capacity
        → (e.chans c).recvers ≡ m ∷ ms
        → e.msgs src ≡ simplex d t
        → e.msgs m ≡ multiplex p s k
        → is_decided s e ≡ true
        → recv_from blank c src oneshot e ≡ (invalid_src, bound)
    unfolding recv_from recv_from_msg or_wait_as_sender hand
    recv_from-lost m d t p s k ms full w es em o =
        let r = send_to_msg-stale src m d t p s k bound es em o in
        rw (buffer_recv_from-full full, w, hand, r, or_wait_as_sender) (λ i. (invalid_src, (r i).1))

  pull-drop :
      (c dst m d t p s k : ℕ) (ms : List ℕ) (e : Env V)
      → e.msgs m ≡ simplex d t
      → e.msgs dst ≡ multiplex p s k
      → is_decided s e ≡ true
      → pull c dst (m ∷ ms) e ≡ pull c dst ms (set_senders c ms e)
  unfolding pull
  pull-drop c dst m d t p s k ms e em ed o =
      let r = send_to_msg-stale m dst d t p s k e em ed o in
      rw (r, pull) (λ i. pull c dst ms (set_senders c ms (r i).1))

  -- A search by a decided select: what it leaves.
  record IsEmptied (c : ℕ) (e : Env V) (r : Option Status × Env V) : Type 0 where
    exhausted : r.0 ≡ none
    senders : (r.1.chans c).senders ≡ []
    sched : r.1.sched ≡ e.sched
    mem : r.1.mem ≡ e.mem

  pull-IsEmptied :
      (c dst p s k : ℕ) (ms : List ℕ) (e : Env V)
      → (e.chans c).senders ≡ ms
      → e.msgs dst ≡ multiplex p s k
      → is_decided s e ≡ true
      → All (IsSimplex e.msgs) ms
      → IsEmptied c e (pull c dst ms e)
  unfolding pull
  pull-IsEmptied c dst p s k [] e w ed o a = record {
    exhausted = refl;
    senders = w;
    sched = refl;
    mem = refl;
  }
  pull-IsEmptied c dst p s k (m ∷ ms) e w ed o ((d, t, em), a) =
      let i = pull-IsEmptied c dst p s k ms (set_senders c ms e) (ground arith) ed o a in
      subst (IsEmptied c e) (sym (pull-drop c dst m d t p s k ms e em ed o))
        (record { exhausted = i.exhausted; senders = i.senders; sched = i.sched; mem = i.mem })

  recv_to_decided :
      (src : Source) (p s k : ℕ) (e : Env V)
      → is_decided s e ≡ true
      → recv_to src (multiplex p s k) e ≡ (invalid_src, e)
  unfolding recv_to
  recv_to_decided src p s k e o = rw o

  buffer_give_decided :
      (c dst p s k : ℕ) (vs : List V) (e : Env V)
      → e.msgs dst ≡ multiplex p s k
      → is_decided s e ≡ true
      → buffer_give c dst vs e ≡ (false, e)
  unfolding buffer_give recv_from_ptr
  buffer_give_decided c dst p s k [] e em o = refl
  buffer_give_decided c dst p s k (v ∷ vs) e em o =
      let r = recv_to_decided (Source.front c) p s k e o in rw (em, r)

  or_wait-senders :
      (c dst : ℕ) (oneshot : Bool) (e : Env V) (r : Option Status × Env V)
      → IsEmptied c e r
      → let g = (or_wait_as_recver c dst oneshot r).1 in
        ((g.chans c).senders ≡ []) × (g.sched ≡ e.sched) × (g.mem ≡ e.mem)
  unfolding or_wait_as_recver wait_as_recver
  or_wait-senders c dst oneshot e (some st, f) i = absurd (cc i.exhausted)
  or_wait-senders c dst true e (none, f) i = (i.senders, i.sched, i.mem)
  or_wait-senders c dst false e (none, f) i = (ground (arith, i.senders), i.sched, i.mem)

  -- When a select that has already fired still tries to receive from a channel whose waiting
  -- senders are simplex messages, all of them are taken off the queue, though nothing is taken
  -- from them: the memory and the scheduler's state are the same, so no sender is woken.
  pub send_to-drops :
      (blank : V) (c dst p s k : ℕ) (oneshot : Bool) (e : Env V)
      → e.msgs dst ≡ multiplex p s k
      → is_decided s e ≡ true
      → All (IsSimplex e.msgs) (e.chans c).senders
      → let f = (send_to blank c dst oneshot e).1 in
        ((f.chans c).senders ≡ []) × (f.sched ≡ e.sched) × (f.mem ≡ e.mem)
  unfolding send_to buffer_send_to
  send_to-drops blank c dst p s k oneshot e ed o a =
      let e0 : Env V = record e { chan_of = update e.chan_of dst (some c) } in
      let i = pull-IsEmptied c dst p s k (e.chans c).senders e0 refl ed o a in
      rw (buffer_give_decided c dst p s k (e.chans c).buffer e0 ed o) (
        or_wait-senders c dst oneshot e _
          (record { exhausted = i.exhausted; senders = i.senders; sched = i.sched; mem = i.mem }))
