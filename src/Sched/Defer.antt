-- ===== src/Sched/Defer.antt =====
-- `DeferGuard` of src/include/core/schedule.h and src/core/schedule.cpp. A guard holds a function or
-- none; `call` is what running a function does.
pub mod Once
mod Tests
use cgo.Base.{Option, none, some}

-- The field `_defer`.
abbrev pub DeferGuard : Type 0 → Type 0
DeferGuard F = Option F

-- `defer(fn)`.
unfoldable pub defer : {F : Type 0} → F → DeferGuard F
defer fn = some fn

unfoldable pub drop_guard : {F : Type 0} → DeferGuard F → DeferGuard F
drop_guard g = none

-- The move constructor: the new guard, which starts empty, and the old one.
unfoldable pub move_guard : {F : Type 0} → DeferGuard F → DeferGuard F × DeferGuard F
unfolding drop_guard
move_guard rhs = (rhs, drop_guard rhs)

-- The destructor.
unfoldable pub end_guard : {F W : Type 0} → (F → W → W) → DeferGuard F → W → DeferGuard F × W
end_guard call none w = (none, w)
end_guard call (some fn) w = (none, call fn w)
