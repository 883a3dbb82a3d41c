-- ===== src/Context/Tests.antt =====
-- The theorems on contexts at two workers, and at one worker with a timer.
use cgo.Base.{ℕ, suc, ◌≡◌, refl, ◌==◌, ◌*◌, ◌⊎◌, true, false, none, some, List, [], ◌∷◌}
use cgo.Context.{
  Context, looping, at_end, fresh, startup, shutdown, joined, Turn, shuts, steps, take_turns,
}
use cgo.Context.Phases.{IsOrdered, take_turns-IsOrdered}
use cgo.Context.Joining.{take_passes, shutdown-joins}
use cgo.Context.Worker.{Services, WorkerState, Parts, parts_services, loop, begin, turn}
use cgo.Context.Worker.Polls.{IsPolite, after_turns, loop-IsPolite}
use cgo.Event.{make_handler, handle}
use cgo.Event.Contexts.{run_handler}
use cgo.Timed
use cgo.Timed.{Timer, TimedContext}

abbrev some_turns : List Turn
some_turns =
    steps 0
    ∷ steps 0
    ∷ steps 1
    ∷ steps 0
    ∷ shuts
    ∷ steps 0
    ∷ steps 0
    ∷ steps 1
    ∷ steps 1
    ∷ steps 0
    ∷ []

abbrev two_started : Context
two_started = record { finished = false; workers = fresh 2 }

take_turns-IsOrdered_example : IsOrdered (take_turns some_turns two_started)
unfolding startup
take_turns-IsOrdered_example = take_turns-IsOrdered 2 two_started some_turns refl

abbrev apart : Context
apart = record { finished = false; workers = looping ∷ at_end ∷ [] }

shutdown-joins_example : joined (take_passes 5 2 (shutdown apart)) ≡ true
shutdown-joins_example = shutdown-joins apart

-- One timer, due at the second reading of the clock; the context is shut down once that has run.
abbrev parts : Parts ℕ
parts = record {
  rest = 0;
  timed = record {
    tid = 1;
    size = 1;
    schedulers =
        λ i. record { pq_timer = record { id = 0; fn = 7; ex = 1500000 } ∷ []; signal = none };
    signals = λ s. record { emitted = false; waited = false; notified = 0 };
    readings = 0;
    fired = [];
  };
  events = record { size = 1; handlers = λ i. make_handler };
  shut = false;
}

abbrev clock : ℕ → ℕ
clock n = n * 1000000

-- Tasks shut the context down in the second round.
abbrev services : Services (Parts ℕ)
unfolding parts_services
services =
    parts_services
      (record {
        epoll_in = 1;
        epoll_out = 4;
        epoll_err = 8;
        epoll_hup = 16;
        epoll_oneshot = 0x4000_0000;
      })
      clock (λ timeout p. []) (λ i n p. (0, record p { shut = p.rest == 1; rest = suc p.rest }))
      (λ i p. p) (λ i p. p)

loop-IsPolite_example :
    IsPolite services clock 0 (after_turns services clock 0 3 (begin services clock 0 parts))
    × ((services.finished (after_turns services clock 0 2 (begin services clock 0 parts)).parts
          ≡ false)
        ⊎ ((z : WorkerState (Parts ℕ)) × (loop services clock 0 3 (begin services clock 0 parts)
              ≡ some z)
            × (services.finished z.parts ≡ true)))
unfolding turn services Timed.run_timeout Timed.next_schedule_time run_handler handle parts_services
    Timed.pop
loop-IsPolite_example = loop-IsPolite services clock 0 2 3 parts
