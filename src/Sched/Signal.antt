-- ===== src/Sched/Signal.antt =====
-- `BaseLazySignal` of src/include/core/schedule.h and src/core/schedule.cpp. `notified` counts the
-- calls of `_emit`.
use cgo.Base.{ℕ, suc, Bool, true, false, not, ◌&&◌, if◌then◌else◌}

pub record LazySignal : Type 0 where
  pub emitted : Bool
  pub waited : Bool
  pub notified : ℕ

unfoldable pub emit : LazySignal → LazySignal
emit s =
    if s.waited && not s.emitted then record s { notified = suc s.notified; emitted = true } else s

-- `wait` up to the suspension in `_wait`: the state, and whether the caller waits.
unfoldable pub wait_begin : LazySignal → LazySignal × Bool
wait_begin s = if s.emitted then (s, false) else (record s { emitted = false; waited = true }, true)

-- `wait` after `_wait` returns.
unfoldable pub wait_end : LazySignal → LazySignal
wait_end s = record s { waited = false }
