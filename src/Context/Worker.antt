-- ===== src/Context/Worker.antt =====
-- `Context::_run` of src/core/context.cpp for one worker. The scheduler, timers and events of its
-- context are an interface; `clock n` is the n-th reading of the steady clock, in nanoseconds.
pub mod Polls
use cgo.Base.{
  ℕ, zero, suc, ◌+◌, ◌-◌, ◌*◌, ◌/◌, ◌==◌, ◌||◌, not, ltb, leb, Bool, true, false, if◌then◌else◌,
  Option, none, some, List, [], ◌∷◌, ◌++◌,
}
use cgo.Timed
use cgo.Timed.{TimedContext}
use cgo.Event.{EpollFlags}
use cgo.Event.Contexts.{EventContext, run_handler}

-- What a worker uses of its context: `start` creates and registers its signal, and `finish` closes
-- it and runs `final_schedule`.
pub record Services (S : Type 0) : Type 0 where
  pub start : ℕ → S → S
  pub run_scheduled : ℕ → ℕ → S → ℕ × S
  pub run_timeout : ℕ → ℕ → S → ℕ × S
  pub next_schedule_time : ℕ → S → Option ℕ
  pub run_handler : ℕ → ℕ → ℕ → S → S
  pub finished : S → Bool
  pub finish : ℕ → S → S

-- A call of `run_handler`: the time before it, when the next timer is due, and its timeout.
pub record Poll : Type 0 where
  pub now : ℕ
  pub due : Option ℕ
  pub timeout : ℕ

pub record WorkerState (S : Type 0) : Type 0 where
  pub parts : S
  pub last_handle_time : ℕ
  pub readings : ℕ
  pub polls : List Poll

-- A millisecond.
abbrev pub ms : ℕ
ms = 1000000

abbrev pub smaller : ℕ → ℕ → ℕ
smaller a b = if ltb b a then b else a

unfoldable pub is_due : Option ℕ → ℕ → Bool
is_due none now = false
is_due (some t) now = leb t now

-- How long to wait for events at most. The last time point is far off.
unfoldable pub wait_until : Option ℕ → ℕ → ℕ
wait_until none now = 50
wait_until (some t) now = smaller ((t - now) / ms) 50

module _ {S : Type 0} (services : Services S) (clock : ℕ → ℕ) (pindex : ℕ) where
  unfoldable pub poll : ℕ → Option ℕ → ℕ → WorkerState S → WorkerState S
  poll now due timeout w = record {
    parts = services.run_handler pindex 128 timeout w.parts;
    last_handle_time = clock w.readings;
    readings = suc w.readings;
    polls = w.polls ++ record { now = now; due = due; timeout = timeout } ∷ [];
  }

  -- The end of a round: after work, events are handled if that is a millisecond ago; otherwise the
  -- worker waits for them.
  unfoldable pub handle_events : Bool → ℕ → Option ℕ → WorkerState S → WorkerState S
  unfolding poll wait_until
  handle_events true now due w = if ltb (now - w.last_handle_time) ms then w else poll now due 0 w
  handle_events false now due w = poll now due (wait_until due now) w

  unfoldable pub turn : WorkerState S → WorkerState S
  unfolding handle_events is_due
  turn w =
      let r = services.run_scheduled pindex 128 w.parts in
      let t = services.run_timeout pindex 128 r.1 in
      let now = clock w.readings in
      let due = services.next_schedule_time pindex t.1 in
      handle_events (not (r.0 == 0) || not (t.0 == 0) || is_due due now) now due
        (record w { parts = t.1; readings = suc w.readings })

  -- `while (!_finished)`.
  unfoldable pub loop : ℕ → WorkerState S → Option (WorkerState S)
  unfolding turn
  loop zero w = none
  loop (suc fuel) w =
      let rest = loop fuel (turn w) in if services.finished w.parts then some w else rest

  abbrev pub begin : S → WorkerState S
  begin s = record {
    parts = services.start pindex s;
    last_handle_time = clock 0;
    readings = 1;
    polls = [];
  }

  -- `_run`, between its two barriers and after them.
  unfoldable pub run : ℕ → S → Option S
  unfolding loop
  run fuel s = elim (loop fuel (begin s)) [
    | none ↦ none
    | some w ↦ some (services.finish pindex w.parts)
  ]

-- The timers and events of a context, with its tasks in `rest`.
pub record Parts (R : Type 0) : Type 0 where
  pub rest : R
  pub timed : TimedContext
  pub events : EventContext
  pub shut : Bool

-- A worker on the timers and events of a context. `run` runs tasks, `arrive` and `leave` are the
-- two ends of `_run`, and `epoll` is what `epoll_wait` returns for a timeout.
unfoldable pub parts_services :
    {R : Type 0} (k : EpollFlags) (clock : ℕ → ℕ) (epoll : ℕ → Parts R → List (ℕ × ℕ))
    (run : ℕ → ℕ → Parts R → ℕ × Parts R) (arrive leave : ℕ → Parts R → Parts R)
    → Services (Parts R)
parts_services k clock epoll run arrive leave = record {
  start = arrive;
  run_scheduled = run;
  run_timeout =
      λ i n p. let r = Timed.run_timeout clock i n p.timed in (r.0, record p { timed = r.1 });
  next_schedule_time = λ i p. Timed.next_schedule_time i p.timed;
  run_handler = λ i n timeout p. record p { events = run_handler k i (epoll timeout p) p.events };
  finished = λ p. p.shut;
  finish = leave;
}
