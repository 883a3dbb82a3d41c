-- ===== src/Sched/Latch.antt =====
-- A lazy signal is a latch: nothing resets `_emitted`.
use cgo.Base.{◌==◌, ◌≤◌, ◌≡◌, false, if◌then◌else◌, List, [], ◌∷◌, arith}
use cgo.Sched.Signal.{LazySignal, emit, wait_begin, wait_end}

-- What threads do to a signal.
pub data Act : Type 0 where
  emits begins ends : Act

unfoldable pub act : Act → LazySignal → LazySignal
act emits s = emit s
act begins s = (wait_begin s).0
act ends s = wait_end s

unfoldable pub acts : List Act → LazySignal → LazySignal
unfolding act
acts [] s = s
acts (a ∷ as') s = acts as' (act a s)

-- An emission is counted when it happens, and never again.
abbrev IsLatched : LazySignal → Type 0
IsLatched s = s.notified ≡ (if s.emitted then 1 else 0)

act-IsLatched : (a : Act) (s : LazySignal) → IsLatched s → IsLatched (act a s)
unfolding act emit wait_begin wait_end
act-IsLatched emits s h = ground arith
act-IsLatched begins s h = ground arith
act-IsLatched ends s h = h

acts-IsLatched : (as' : List Act) (s : LazySignal) → IsLatched s → IsLatched (acts as' s)
unfolding acts
acts-IsLatched [] s h = h
acts-IsLatched (a ∷ as') s h = acts-IsLatched as' (act a s) (act-IsLatched a s h)

-- However a fresh signal is used, it notifies at most once; and a later caller of `wait` waits
-- exactly if it has not notified.
pub notified_once :
    (as' : List Act) (s : LazySignal)
    → s.emitted ≡ false
    → s.notified ≡ 0
    → ((acts as' s).notified ≤ 1) × ((wait_begin (acts as' s)).1 ≡ ((acts as' s).notified == 0))
unfolding wait_begin
notified_once as' s e z =
    let l = acts-IsLatched as' s (ground arith) in (ground arith, ground arith)
