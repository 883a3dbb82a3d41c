-- ===== src/Socket/Decision.antt =====
-- The `Signal` of `Socket::_wait_sock_event` in src/core/socket.cpp: an event and a timer race to
-- wake the coroutine.
use cgo.Base.{◌||◌, ℕ, ◌+◌, ◌≡◌, refl, Bool, true, false, not, if◌then◌else◌, List, [], ◌∷◌, arith}

-- The field `timeout`: 0, 1 or -1.
pub data Verdict : Type 0 where
  pending activated expired : Verdict

-- `permits` are those of the field `signal`.
pub record Race : Type 0 where
  pub verdict : Verdict
  pub permits : ℕ

abbrev pub new_race : Race
new_race = record { verdict = pending; permits = 0 }

-- A callback of the race. Its weak exchange may fail though the race is pending.
pub data Callback : Type 0 where
  on_event on_timer : Bool → Callback

unfoldable pub exchange : Verdict → Bool → Verdict → Race → Race
exchange v false pending r = record { verdict = v; permits = r.permits + 1 }
exchange v _ _ r = r

-- The two callbacks. There is a timer only if `timed`.
unfoldable pub call_back : Bool → Callback → Race → Race
unfolding exchange
call_back timed (on_event spurious) r = exchange activated spurious r.verdict r
call_back timed (on_timer spurious) r = if timed then exchange expired spurious r.verdict r else r

unfoldable pub race : Bool → List Callback → Race → Race
unfolding call_back
race timed [] r = r
race timed (c ∷ cs) r = race timed cs (call_back timed c r)

-- The side that a callback speaks for, if it counts at all.
abbrev pub vote : Bool → Callback → Verdict
vote timed (on_event spurious) = if spurious then pending else activated
vote timed (on_timer spurious) = if not timed || spurious then pending else expired

abbrev pub or_else : Verdict → Verdict → Verdict
or_else pending w = w
or_else v w = v

-- The first callback that counts.
abbrev pub winner : Bool → List Callback → Verdict
winner timed [] = pending
winner timed (c ∷ cs) = or_else (vote timed c) (winner timed cs)

abbrev pub permits_of : Verdict → ℕ
permits_of pending = 0
permits_of _ = 1

race-decided :
    (timed : Bool) (cs : List Callback) (v : Verdict)
    → permits_of v ≡ 1
    → race timed cs (record { verdict = v; permits = 1 }) ≡ record { verdict = v; permits = 1 }
unfolding race call_back exchange
race-decided timed [] v h = refl
race-decided timed (c ∷ cs) pending h = absurd (omega (arith, h))
race-decided timed (on_event true ∷ cs) activated h = race-decided timed cs activated h
race-decided timed (on_event false ∷ cs) activated h = race-decided timed cs activated h
race-decided true (on_timer true ∷ cs) activated h = race-decided true cs activated h
race-decided true (on_timer false ∷ cs) activated h = race-decided true cs activated h
race-decided false (on_timer b ∷ cs) activated h = race-decided false cs activated h
race-decided timed (on_event true ∷ cs) expired h = race-decided timed cs expired h
race-decided timed (on_event false ∷ cs) expired h = race-decided timed cs expired h
race-decided true (on_timer true ∷ cs) expired h = race-decided true cs expired h
race-decided true (on_timer false ∷ cs) expired h = race-decided true cs expired h
race-decided false (on_timer b ∷ cs) expired h = race-decided false cs expired h

-- Whatever callbacks run, and in whatever order: the first one that counts decides the race, the
-- coroutine is released once for it, and not at all if none counts. A callback counts unless its
-- exchange fails spuriously, and a timer only if there is one.
pub race-eq-winner :
    (timed : Bool) (cs : List Callback)
    → race timed cs new_race
      ≡ record { verdict = winner timed cs; permits = permits_of (winner timed cs) }
unfolding race call_back exchange
race-eq-winner timed [] = refl
race-eq-winner timed (on_event true ∷ cs) = race-eq-winner timed cs
race-eq-winner timed (on_event false ∷ cs) = race-decided timed cs activated refl
race-eq-winner true (on_timer true ∷ cs) = race-eq-winner true cs
race-eq-winner true (on_timer false ∷ cs) = race-decided true cs expired refl
race-eq-winner false (on_timer b ∷ cs) = race-eq-winner false cs
