-- ===== src/Context/Worker/Polls.antt =====
-- How often a worker looks for events, and how long it waits for them.
use cgo.Base.{
  ℕ, zero, suc, ◌≡◌, refl, ◌≤◌, ◌<◌, ◌+◌, ◌-◌, ◌*◌, ◌/◌, ltb, Bool, true, false, if◌then◌else◌,
  Option, none, some, arith, All, All-append, Bool-cases, inl, inr, ◌⊎◌, ◌==◌, not, ◌||◌,
}
use cgo.Context.Worker.{
  Services, Poll, WorkerState, ms, smaller, is_due, wait_until, poll, handle_events, turn, loop,
  begin,
}

-- A poll waits no longer than 50 milliseconds, and not past the next timer.
abbrev pub IsTimely : Poll → Type 0
IsTimely p =
    (p.timeout ≤ 50)
    × (elim p.due [ none ↦ Unit {0} | some t ↦ (p.timeout ≡ 0) ⊎ (p.now + p.timeout * ms ≤ t) ])

smaller-le : (a b : ℕ) → (smaller a b ≤ a) × (smaller a b ≤ b)
smaller-le a b = elim (Bool-cases (ltb b a)) [
  | inl y ↦ (ground (arith, y), ground (arith, y))
  | inr n ↦ (ground (arith, n), ground (arith, n))
]

wait_until-IsTimely :
    (due : Option ℕ) (now : ℕ)
    → is_due due now ≡ false
    → IsTimely (record { now = now; due = due; timeout = wait_until due now })
unfolding is_due wait_until
wait_until-IsTimely none now n = (ground arith, tt)
wait_until-IsTimely (some t) now n =
    let early : now < t = ground (arith, n) in
    let l = smaller-le ((t - now) / ms) 50 in (l.1, inr (omega (arith, early, l.0)))

zero-IsTimely : (due : Option ℕ) (now : ℕ) → IsTimely (record { now = now; due = due; timeout = 0 })
zero-IsTimely none now = (ground arith, tt)
zero-IsTimely (some t) now = (ground arith, inl refl)

module _ {S : Type 0} (services : Services S) (clock : ℕ → ℕ) (pindex : ℕ) where
  -- All polls so far were timely, and the last one was started less than a millisecond before the
  -- clock was last read.
  pub record IsPolite (w : WorkerState S) : Type 0 where
    pub timely : All IsTimely w.polls
    pub recent : clock (w.readings - 1) < w.last_handle_time + ms

  poll-IsPolite :
      (now timeout : ℕ) (due : Option ℕ) (w : WorkerState S)
      → All IsTimely w.polls
      → IsTimely (record { now = now; due = due; timeout = timeout })
      → IsPolite (poll services clock pindex now due timeout w)
  unfolding poll
  poll-IsPolite now timeout due w a t = record {
    timely = All-append IsTimely w.polls _ a (t, tt);
    recent = ground arith;
  }

  turn-IsPolite :
      (w : WorkerState S) → All IsTimely w.polls → IsPolite (turn services clock pindex w)
  unfolding turn handle_events
  turn-IsPolite w a = by_busy (not (r.0 == 0) || not (t.0 == 0)) (is_due due now) refl
    where
      r : ℕ × S
      r = services.run_scheduled pindex 128 w.parts

      t : ℕ × S
      t = services.run_timeout pindex 128 r.1

      now : ℕ
      now = clock w.readings

      due : Option ℕ
      due = services.next_schedule_time pindex t.1

      v : WorkerState S
      v = record w { parts = t.1; readings = suc w.readings }

      busy :
          IsPolite (
            if ltb (now - w.last_handle_time) ms then v else poll services clock pindex now due 0 v)
      busy = elim (Bool-cases (ltb (now - w.last_handle_time) ms)) [
        | inl y ↦ rw y (record { timely = a; recent = ground (arith, y) })
        | inr n ↦ rw n (poll-IsPolite now 0 due v a (zero-IsTimely due now))
      ]

      by_busy :
          (b d : Bool)
          → is_due due now ≡ d
          → IsPolite (handle_events services clock pindex (b || d) now due v)
      by_busy true d e = busy
      by_busy false true e = busy
      by_busy false false e =
          poll-IsPolite now (wait_until due now) due v a (wait_until-IsTimely due now e)

  -- The state after so many rounds.
  abbrev pub after_turns : ℕ → WorkerState S → WorkerState S
  after_turns zero w = w
  after_turns (suc n) w = after_turns n (turn services clock pindex w)

  -- If the context is finished by the end of `n` rounds, the loop ends.
  loop-ends :
      (n : ℕ) (w : WorkerState S)
      → services.finished (after_turns n w).parts ≡ true
      → (z : WorkerState S) × (loop services clock pindex (suc n) w ≡ some z)
        × (services.finished z.parts ≡ true)
  unfolding loop
  loop-ends zero w f = (w, rw f refl, f)
  loop-ends (suc n) w f = elim (Bool-cases (services.finished w.parts)) [
    | inl y ↦ (w, rw y refl, y)
    | inr go ↦ (let k = loop-ends n (turn services clock pindex w) f in (k.0, rw go k.1, k.2))
  ]

  after_turns-IsPolite : (k : ℕ) (w : WorkerState S) → IsPolite w → IsPolite (after_turns k w)
  after_turns-IsPolite zero w p = p
  after_turns-IsPolite (suc k) w p =
      after_turns-IsPolite k (turn services clock pindex w) (turn-IsPolite w p.timely)

  -- Whatever tasks, timers and events do, after any number `k` of rounds of `_run` no call of
  -- `run_handler` was made to wait for more than 50 milliseconds or beyond the next timer, and the
  -- last one was less than a millisecond before the last reading of the clock. For any number `n` of rounds,
  -- either the context is not finished after them, or the loop ends within them, and where the context is
  -- finished.
  pub loop-IsPolite :
      (n k : ℕ) (s : S)
      → IsPolite (after_turns k (begin services clock pindex s))
        × ((services.finished (after_turns n (begin services clock pindex s)).parts ≡ false)
            ⊎ ((z : WorkerState S) × (loop services clock pindex
                    (suc n)
                    (begin services clock pindex s)
                  ≡ some z)
                × (services.finished z.parts ≡ true)))
  loop-IsPolite n k s =
      let w : WorkerState S = begin services clock pindex s in
      let b : IsPolite w = record { timely = tt; recent = ground arith } in
      (
        after_turns-IsPolite k w b,
        elim (Bool-cases (services.finished (after_turns n w).parts)) [
          | inl y ↦ inr (loop-ends n w y)
          | inr o ↦ inl o
        ],
      )
