-- ===== src/Select/Runs.antt =====
-- Channels and selects over any sequence of the operations of tasks, each on its own objects.
use cgo.Base.{ℕ, refl, ◌≢◌, true, false}
use cgo.Channel.{Env, simplex, Listener, invalid_select_key, drop}
use cgo.Channel.Ops.{make_semaphore, await_signal, send_begin, recv_begin, finish, nowait_send}
use cgo.Select.{make_select, listen, poll, collect_key}
use cgo.Select.Keeping.{
  IsFree, IsUnused, AllSound, stable-AllSound, local_objects-AllSound, recv_from-AllSound,
  send_to-AllSound, set_msg-AllSound, drop_from-AllSound, make_select-AllSound, listen-AllSound,
  poll-AllSound, drop_select-AllSound,
}

module _ {V : Type 0} where
  -- A task sends, receives or tries to send, up to its suspension; its message is dropped at the end;
  -- a select is made, a listener offers its message, and the select ends, with or without a default case.
  pub data Step (e : Env V) : Env V → Type 0 where
    sends :
        (blank : V) (task c cell m signal : ℕ)
        → IsFree m e
        → Step e (send_begin blank task c cell m signal e).0
    receives :
        (blank : V) (task c cell m signal : ℕ)
        → IsFree m e
        → Step e (recv_begin blank task c cell m signal e).0
    tries : (blank : V) (c cell m : ℕ) → IsFree m e → Step e (nowait_send blank c cell m e).1
    finishes : (m : ℕ) → Step e (finish m e)
    makes : (s signal : ℕ) → IsUnused s e → Step e (make_select s signal e)
    listens :
        (blank : V) (s : ℕ) (l : Listener)
        → IsFree l.msg e
        → l.case_key ≢ invalid_select_key
        → Step e (listen blank s l e).1
    polls : (s : ℕ) → Step e (poll s e).1
    collects : (s : ℕ) → Step e (collect_key s e).1

  pub data Reach (e : Env V) : Env V → Type 0 where
    here : Reach e e
    next : {f g : Env V} → Reach e f → Step f g → Reach e g

  Step-AllSound : {e f : Env V} → Step e f → AllSound e → AllSound f
  unfolding send_begin recv_begin await_signal nowait_send finish drop make_semaphore collect_key
  Step-AllSound {e} (sends blank task c cell m signal free) a =
      stable-AllSound _ _ refl refl (λ r d. refl)
        (recv_from-AllSound blank c m false _ (local_objects-AllSound cell m signal e a free))
  Step-AllSound {e} (receives blank task c cell m signal free) a =
      stable-AllSound _ _ refl refl (λ r d. refl)
        (send_to-AllSound blank c m false _ (local_objects-AllSound cell m signal e a free))
  Step-AllSound {e} (tries blank c cell m free) a =
      recv_from-AllSound blank c m true _ (set_msg-AllSound m (simplex cell 0) e a free tt)
  Step-AllSound {e} (finishes m) a = drop_from-AllSound (e.chan_of m) m e a
  Step-AllSound {e} (makes s signal unused) a = make_select-AllSound s signal e unused a
  Step-AllSound {e} (listens blank s l free k) a = listen-AllSound blank s l e a free k
  Step-AllSound {e} (polls s) a = poll-AllSound s e a
  Step-AllSound {e} (collects s) a = drop_select-AllSound s e a

  -- Over any interleaving of tasks that send, receive, try to send and go on, and of selects that are
  -- made, offer the messages of their listeners one by one and end, each message and select being made at an address that
  -- no waiting message uses and each key being allowed: if every channel had its invariant, it has it ever after. The
  -- buffer is within its capacity; senders and receivers do not wait at once; and while a receiver that can still
  -- be served waits, the buffer is empty, and while such a sender waits, it is full.
  pub Reach-AllSound : {e f : Env V} → AllSound e → Reach e f → AllSound f
  Reach-AllSound a here = a
  Reach-AllSound a (next r s) = Step-AllSound s (Reach-AllSound a r)
