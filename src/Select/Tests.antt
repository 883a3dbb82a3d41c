-- ===== src/Select/Tests.antt =====
-- The theorems about selects at concrete states.
use cgo.Base.{
  ℕ, ◌≡◌, refl, ◌==◌, true, false, none, ◌⊎◌, has, Distinct, [], ◌∷◌, arith, Bool-cases, inl, inr,
}
use cgo.Sched.Fresh.{fresh}
use cgo.Sched.Condition.{wait, suspend_to_this}
use cgo.Sched.Semaphore.{aquire_round}
use cgo.Sched.Permits.{enter}
use cgo.Channel.{
  Env, Listener, simplex, invalid_select_key, transfer, recv_from_msg, send_to_msg, commit,
  send_from, send_to_ptr, recv_from_ptr,
}
use cgo.Channel.Transfer.{
  send_to, wait_as_recver, or_wait_as_recver, buffer_send_to, buffer_give, pull, recv_from, hand,
  buffer_recv_from, drain,
}
use cgo.Channel.Ops.{recv_begin, make_semaphore, await_signal, finish}
use cgo.Select.{collect_key, poll, make_select, listen}
use cgo.Select.Keeping.{AllSound}
use cgo.Select.Runs.{Reach, here, next, receives, makes, listens, finishes, Reach-AllSound}
use cgo.Select.Dropped.{IsAbsent, IsLinked}
use cgo.Select.Offered.{offered}
use cgo.Select.Waiting.{Reach-IsAbsent}

-- Channels of one item, all empty; no message belongs to a select.
abbrev quiet : Env ℕ
quiet = record {
  sched = fresh 0;
  mem = λ p. p;
  local = 0;
  msgs = λ m. simplex m m;
  chan_of = λ m. none;
  selects = λ s. record {
    signal = 50;
    key = invalid_select_key;
    default_key = invalid_select_key;
    msgs = [];
    listeners = [];
  };
  chans = λ c. record { capacity = 1; buffer = []; senders = []; recvers = [] };
}

quiet-AllSound : AllSound quiet
quiet-AllSound = record {
  keyed = λ m. tt;
  sound = λ c. record { bounded = omega arith; one_side = inl refl; fed = inl refl; full = inr tt };
}

-- A task receives from channel 0 with message 1, then select 3 offers message 7 there, and the task goes on.
abbrev waits : Env ℕ
waits = (recv_begin 0 9 0 1 1 1 quiet).0

abbrev made : Env ℕ
made = make_select 3 60 waits

abbrev case_sends : Listener
case_sends = record { cell = 7; chan = 0; case_key = 4; msg = 7; sends = true }

abbrev fired : Env ℕ
fired = (listen 0 3 case_sends made).1

fired-Reach : Reach quiet fired
unfolding recv_begin make_semaphore await_signal enter aquire_round wait send_to wait_as_recver
    or_wait_as_recver buffer_send_to buffer_give pull make_select suspend_to_this
fired-Reach =
    next
      (next (next here (receives 0 9 0 1 1 1 (λ c. refl))) (
        makes 3 60 (λ c m q. elim (Bool-cases (1 == m)) [ inl y ↦ rw y refl | inr n ↦ rw n refl ])))
      (listens 0 3 case_sends
        (λ c. elim (Bool-cases (0 == c)) [ inl y ↦ rw y refl | inr n ↦ rw n refl ])
        (λ e. omega (arith, e)))

-- The select is decided with the key of its case.
fired_key : (fired.selects 3).key ≡ 4
unfolding recv_begin make_semaphore await_signal enter aquire_round wait send_to wait_as_recver
    or_wait_as_recver buffer_send_to buffer_give pull make_select suspend_to_this listen recv_from
    hand transfer recv_from_msg send_to_msg commit buffer_recv_from drain send_from send_to_ptr
    recv_from_ptr
fired_key = refl

Reach-AllSound_example : AllSound (finish 1 fired)
Reach-AllSound_example = Reach-AllSound quiet-AllSound (next fired-Reach (finishes 1))

quiet-IsLinked : IsLinked quiet
quiet-IsLinked = record { senders = λ c. tt; recvers = λ c. tt; homed = λ m c h. (refl, refl) }

-- Message 7 was offered by a listener of the select.
fired-offered : offered fired-Reach 3 ≡ 7 ∷ []
unfolding recv_begin make_semaphore await_signal enter aquire_round wait send_to wait_as_recver
    or_wait_as_recver buffer_send_to buffer_give pull make_select suspend_to_this fired-Reach
fired-offered = refl

Reach-IsAbsent_example :
    Distinct (fired.chans 0).senders
    × Distinct (fired.chans 0).recvers
    × IsAbsent 7 0 (finish 7 fired)
    × ((has 7 (offered fired-Reach 3) ≡ false)
        ⊎ (IsAbsent 7 0 (collect_key 3 fired).1 × IsAbsent 7 0 (poll 3 fired).1))
Reach-IsAbsent_example = Reach-IsAbsent 7 0 3 quiet-AllSound quiet-IsLinked fired-Reach
