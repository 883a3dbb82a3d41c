-- ===== src/Frame/Values/Tests.antt =====
-- A coroutine that returns a value, at a concrete state.
use cgo.Base.{ℕ, ◌≡◌, refl, ◌==◌, true, false, if◌then◌else◌, none, [], ◌∷◌}
use cgo.Linked.{Ptr, null, Heap}
use cgo.Frame.{Machine}
use cgo.Frame.Calls.{Calls}
use cgo.Frame.Refine.{Holds}
use cgo.Frame.Values.{Deed, returns_value, Valued, got, turn_valued, await_ready, await_resume}
use cgo.Frame.Values.Delivered.{await_resume-deed}

-- The coroutine 1 of the frame 11 awaits the coroutine 2 of the frame 12.
abbrev links : Heap
links p =
    if p == 1
    then record { prev = null; next = 2 }
    else if p == 2
    then record { prev = 1; next = null }
    else record { prev = null; next = null }

abbrev awaiting : Machine
awaiting = record {
  links = links;
  owner = λ p. if p == 1 then 11 else if p == 2 then 12 else null;
  error = λ p. none;
  entry = λ p. 1;
  current = λ p. 2;
  handler = λ f. if f == 11 then 1 else if f == 12 then 2 else null;
  promise = λ f. if f == 11 then 1 else if f == 12 then 2 else null;
  finished = λ p. false;
  resumed = [];
  destroyed = [];
}

abbrev two_calls : Calls
two_calls = record { stack = 2 ∷ 1 ∷ []; error = λ p. none; finished = λ p. false; resumed = [] }

awaiting-Holds : Holds 1 awaiting two_calls
awaiting-Holds = record {
  error = refl;
  finished = refl;
  resumed = refl;
  shaped = (
    refl,
    record { top = refl; below = (refl, refl, refl); distinct = (refl, (refl, tt)); real = refl },
  );
  entries = (refl, (refl, tt));
  owned = (refl, (refl, tt));
}

-- Values are numbers, 0 at first, and every coroutine returns 42.
abbrev valued : Valued ℕ
valued = record { machine = awaiting; value = λ p. 0 }

abbrev returns_42 : ℕ → Ptr → Deed ℕ
returns_42 n c = returns_value 42

await_resume-deed_example :
    let t = turn_valued returns_42 1 2 valued in
    (t.0 ≡ none) × (t.1 ≡ 1) × (await_ready 12 t.2.machine ≡ true) × (await_resume 12 t.2 ≡ got 42)
await_resume-deed_example =
    await_resume-deed returns_42 1 2 1 [] valued two_calls 12 (got 42) refl awaiting-Holds refl refl
      refl refl
