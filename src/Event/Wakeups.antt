-- ===== src/Event/Wakeups.antt =====
-- `EventLazySignal` of src/include/core/event.h and src/core/event.cpp: a lazy signal that wakes
-- its waiter by an eventfd. The eventfd is a parameter: what a write of `n` bytes with the value
-- `v` leaves of it, what a read of `n` bytes gives, and whether epoll finds it readable.
use Prim.Native.Nat.{bit_or}
use cgo.Base.{
  ℕ, suc, ◌≡◌, refl, ◌<◌, ◌∙◌, ◌&&◌, not, Bool, true, false, if◌then◌else◌, Option, none, some,
  List, [], ◌∷◌, arith, Bool-cases, inl, inr, ap,
}
use cgo.Sched.Signal.{LazySignal, emit, wait_begin, wait_end}
use cgo.Event.{event_in, event_oneshot, add, mod_event, del}
use cgo.Event.Contexts.{EventContext, handler_of, set_handler}

-- `woken` counts the calls of `notify_one`, and `eventfd` is the kernel's object behind `fd`.
pub record EventLazySignal (K : Type 0) : Type 0 where
  pub lazy : LazySignal
  pub events : EventContext
  pub pindex : ℕ
  pub nowait : Bool
  pub fd : ℕ
  pub sig_data : ℕ
  pub eventfd : K
  pub woken : ℕ

-- The size of an `int`, and the events that a signal is interested in.
abbrev size_of_int : ℕ
size_of_int = 4

abbrev interest : ℕ
interest = bit_or event_in event_oneshot

-- What can happen to a signal: calls, and an event of epoll, which comes only for a readable
-- descriptor.
pub data Move : Type 0 where
  emits waits comes : Move
  resumes : Bool → Move

module _ {K : Type 0} (write : ℕ → ℕ → K → K) (read : ℕ → K → Option ℕ × K) (is_readable : K → Bool)
    (fn : ℕ) where
  -- The constructor; `fd` is the new descriptor of `eventfd`, and `done` says whether epoll accepts
  -- it. `none` if it throws.
  unfoldable pub make_signal : EventContext → ℕ → Bool → ℕ → K → Bool → Option (EventLazySignal K)
  make_signal events pindex nowait fd eventfd done =
      let r = add done fd interest fn (handler_of pindex events) in
      if r.1
      then some (record {
        lazy = record { emitted = false; waited = false; notified = 0 };
        events = set_handler pindex r.0 events;
        pindex = pindex;
        nowait = nowait;
        fd = fd;
        sig_data = 0;
        eventfd = eventfd;
        woken = 0;
      })
      else none

  -- `close`.
  unfoldable pub close : EventLazySignal K → EventLazySignal K
  close s = record s {
    events = set_handler s.pindex (del s.fd (handler_of s.pindex s.events)) s.events;
  }

  -- `emit`, with `_emit`.
  unfoldable pub emit_event : EventLazySignal K → EventLazySignal K
  emit_event s =
      if s.lazy.waited && not s.lazy.emitted
      then record s { lazy = emit s.lazy; eventfd = write size_of_int s.sig_data s.eventfd }
      else s

  -- `wait` up to the suspension in `_wait`, and whether the caller waits.
  unfoldable pub wait_first : EventLazySignal K → EventLazySignal K × Bool
  wait_first s = let r = wait_begin s.lazy in (record s { lazy = r.0 }, r.1)

  -- `_wait` after its suspension, and the rest of `wait`; the flag says whether it returns, or
  -- `mod` throws.
  unfoldable pub wait_last : Bool → EventLazySignal K → EventLazySignal K × Bool
  wait_last done s =
      let r = mod_event done s.fd interest fn (handler_of s.pindex s.events) in
      if s.nowait then (record s { lazy = wait_end s.lazy }, true) else (
        record s {
          events = set_handler s.pindex r.0 s.events;
          lazy = if r.1 then wait_end s.lazy else s.lazy;
        },
        r.1,
      )

  abbrev pub value_or : ℕ → Option ℕ → ℕ
  value_or v none = v
  value_or v (some u) = u

  -- `_callback`.
  unfoldable pub callback : EventLazySignal K → EventLazySignal K
  callback s =
      let r = read size_of_int s.eventfd in
      record s {
        sig_data = value_or s.sig_data r.0;
        eventfd = r.1;
        woken = if s.nowait then s.woken else suc s.woken;
      }

  unfoldable pub move : Move → EventLazySignal K → EventLazySignal K
  unfolding emit_event wait_first wait_last callback
  move emits s = emit_event s
  move waits s = (wait_first s).0
  move (resumes done) s = (wait_last done s).0
  move comes s = if is_readable s.eventfd then callback s else s

  unfoldable pub moves : List Move → EventLazySignal K → EventLazySignal K
  unfolding move
  moves [] s = s
  moves (a ∷ rest) s = moves rest (move a s)

module _ {K : Type 0} (write : ℕ → ℕ → K → K) (read : ℕ → K → Option ℕ × K) (is_readable : K → Bool)
    (fn : ℕ) (short : (n v : ℕ) (k : K) → n < 8 → write n v k ≡ k) where
  -- One move leaves an unreadable eventfd as it is, and wakes nobody.
  move-silent :
      (a : Move) (s : EventLazySignal K)
      → is_readable s.eventfd ≡ false
      → let t = move write read is_readable fn a s in (t.eventfd ≡ s.eventfd) × (t.woken ≡ s.woken)
  unfolding move emit_event wait_first wait_last
  move-silent emits s r = elim (Bool-cases (s.lazy.waited && not s.lazy.emitted)) [
    | inl y ↦ rw y (short size_of_int s.sig_data s.eventfd (ground arith), refl)
    | inr n ↦ rw n (refl, refl)
  ]
  move-silent waits s r = (refl, refl)
  move-silent (resumes done) s r = elim (Bool-cases s.nowait) [
    | inl y ↦ rw y (refl, refl)
    | inr n ↦ rw n (refl, refl)
  ]
  move-silent comes s r = rw r (refl, refl)

  -- If writes of fewer than eight bytes leave an eventfd as it is, as its manual says, then whatever
  -- calls of `emit` and `wait` are made on a signal whose eventfd is not readable, as that of a new
  -- one, the eventfd never becomes readable, and no waiter is ever notified.
  pub moves-silent :
      (made : List Move) (s : EventLazySignal K)
      → is_readable s.eventfd ≡ false
      → let t = moves write read is_readable fn made s in
        (is_readable t.eventfd ≡ false) × (t.woken ≡ s.woken)
  unfolding moves
  moves-silent [] s r = (r, refl)
  moves-silent (a ∷ rest) s r =
      let t = move write read is_readable fn a s in
      let h = move-silent a s r in
      let more = moves-silent rest t (ap is_readable h.0 ∙ r) in (more.0, more.1 ∙ h.1)
