-- ===== src/Sched/Defer/Tests.antt =====
-- Deferred functions at concrete states.
use cgo.Base.{ℕ, ◌≡◌, ◌≢◌, ◌≤◌, ◌+◌, refl, some, [], ◌∷◌, ◌⊎◌}
use cgo.Sched.Defer.{defer, move_guard, drop_guard, end_guard}
use cgo.Sched.Defer.Once.{
  count, Scope, Reach, here, next, given, moved, ended, no_guards, defers, moves, ends,
  Reach-RunsOnce,
}

-- Function 7 is given to guard 1, which is moved to guard 2; then both end.
abbrev both_ended : Scope
both_ended = ends 2 (ends 1 (moves 1 2 (defers 1 7 no_guards)))

both_ended-ran : both_ended.ran ≡ 7 ∷ []
unfolding defer move_guard drop_guard end_guard
both_ended-ran = refl

both_ended-Reach : Reach no_guards both_ended
unfolding defer move_guard drop_guard end_guard
both_ended-Reach =
    next (next (next (next here (given 1 7 refl refl)) (moved 1 2 refl)) (ended 1)) (ended 2)

Reach-RunsOnce_example :
    (count 7 both_ended.made ≤ 1)
    × (((g : ℕ) × (both_ended.guards g ≡ some 7)
          × (count 7 both_ended.ran + count 7 both_ended.dropped ≡ 0))
        ⊎ (((g : ℕ) → both_ended.guards g ≢ some 7)
            × (count 7 both_ended.ran + count 7 both_ended.dropped ≡ count 7 both_ended.made)))
Reach-RunsOnce_example = Reach-RunsOnce 7 both_ended-Reach
