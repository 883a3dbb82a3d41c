-- ===== src/Timed/Announce.antt =====
-- `Scheduler::push` of src/core/timed.cpp: where the timer goes, and when the signal of the partition is emitted.
use cgo.Base.{
  ℕ, ◌%◌, ◌≤◌, ◌<◌, ◌≡◌, refl, ap, ◌∙◌, sym, subst, ◌==◌, Bool, true, false, ltb, Option, none,
  some, List, [], ◌∷◌, ◌++◌, arith, if◌then◌else◌, inl, inr, ◌⊎◌, Bool-cases, update,
}
use cgo.Sched.Signal.{LazySignal, emit}
use cgo.Timed.{Timer, TimedContext, insert, is_next, emit_if, push, next_schedule_time}
use cgo.Timed.Order.{emit_if-schedulers}

-- `new` is `old` with `t` in it.
abbrev pub Inserted : Timer → List Timer → List Timer → Type 0
Inserted t old new = (xs ys : List Timer) × (old ≡ xs ++ ys) × (new ≡ xs ++ t ∷ ys)

insert-Inserted : (t : Timer) (q : List Timer) → Inserted t q (insert t q)
unfolding insert
insert-Inserted t [] = ([], [], refl, refl)
insert-Inserted t (u ∷ us) = elim (Bool-cases (ltb t.ex u.ex)) [
  | inl y ↦ rw y ([], u ∷ us, refl, refl)
  | inr n ↦
      (let (xs, ys, d, e) = insert-Inserted t us in
        rw n (u ∷ xs, ys, ap (λ q. u ∷ q) d, ap (λ q. u ∷ q) e))
]

abbrev pub Later : ℕ → Option ℕ → Type 0
Later x none = Unit
Later x (some y) = x < y

abbrev pub announced : Option ℕ → (ℕ → LazySignal) → ℕ → LazySignal
announced none g = g
announced (some s) g = update g s (emit (g s))

emit_if-announced :
    (o : Option ℕ) (w : TimedContext) → (emit_if true o w).signals ≡ announced o w.signals
unfolding emit_if
emit_if-announced none w = refl
emit_if-announced (some s) w = refl

emit_if_quiet : (o : Option ℕ) (w : TimedContext) → (emit_if false o w).signals ≡ w.signals
unfolding emit_if
emit_if_quiet o w = refl

-- What the worker of partition `i` sees of a push: the next time of the partition is the new one, and
-- its signal, if it has one, is emitted; or neither changes.
abbrev pub Announced : ℕ → Timer → TimedContext → TimedContext → Type 0
Announced i t w v =
    ((next_schedule_time i v ≡ some t.ex)
      × Later t.ex (next_schedule_time i w)
      × (v.signals ≡ announced (w.schedulers (i % w.size)).signal w.signals))
    ⊎ ((u : ℕ) × (next_schedule_time i w ≡ some u)
        × (next_schedule_time i v ≡ some u)
        × (u ≤ t.ex)
        × (v.signals ≡ w.signals))

emit_if-size : (b : Bool) (o : Option ℕ) (w : TimedContext) → (emit_if b o w).size ≡ w.size
unfolding emit_if
emit_if-size true (some s) w = refl
emit_if-size true none w = refl
emit_if-size false o w = refl

-- The time of the first timer of a queue.
abbrev first_time : List Timer → Option ℕ
first_time [] = none
first_time (u ∷ us) = some u.ex

next_schedule_time-first :
    (i : ℕ) (w : TimedContext)
    → next_schedule_time i w ≡ first_time (w.schedulers (i % w.size)).pq_timer
unfolding next_schedule_time
next_schedule_time-first i w = go (w.schedulers (i % w.size)).pq_timer
  where
    go : (q : List Timer) → elim q [ [] ↦ none | t ∷ ts ↦ some t.ex ] ≡ first_time q
    go [] = refl
    go (u ∷ us) = refl

head-empty : (t : Timer) → first_time (insert t []) ≡ some t.ex
unfolding insert
head-empty t = refl

head-early :
    (t u : Timer) (us : List Timer)
    → ltb t.ex u.ex ≡ true
    → first_time (insert t (u ∷ us)) ≡ some t.ex
unfolding insert
head-early t u us y = rw y refl

head-late :
    (t u : Timer) (us : List Timer)
    → ltb t.ex u.ex ≡ false
    → first_time (insert t (u ∷ us)) ≡ some u.ex
unfolding insert
head-late t u us n = rw n refl

next-empty : (t : Timer) → is_next t [] ≡ true
unfolding is_next
next-empty t = refl

next-full : (t u : Timer) (us : List Timer) → is_next t (u ∷ us) ≡ ltb t.ex u.ex
unfolding is_next
next-full t u us = refl

push-size : (j : ℕ) (t : Timer) (w : TimedContext) → (push j t w).size ≡ w.size
unfolding push
push-size j t w = emit_if-size (is_next t (w.schedulers j).pq_timer) (w.schedulers j).signal w

push-queue :
    (j k : ℕ) (t : Timer) (w : TimedContext)
    → ((push j t w).schedulers k).pq_timer
      ≡ (if j == k then insert t (w.schedulers j).pq_timer else (w.schedulers k).pq_timer)
unfolding push
push-queue j k t w =
    let q = (w.schedulers j).pq_timer in
    rw (emit_if-schedulers (is_next t q) (w.schedulers j).signal w) (ground arith)

push-signals :
    (j : ℕ) (t : Timer) (w : TimedContext)
    → (push j t w).signals ≡ (
        if is_next t (w.schedulers j).pq_timer
        then announced (w.schedulers j).signal w.signals
        else w.signals)
unfolding push
push-signals j t w = elim (Bool-cases (is_next t (w.schedulers j).pq_timer)) [
  | inl y ↦ rw y (emit_if-announced (w.schedulers j).signal w)
  | inr n ↦ rw n (emit_if_quiet (w.schedulers j).signal w)
]

next-push :
    (i : ℕ) (t : Timer) (w : TimedContext)
    → next_schedule_time i (push (i % w.size) t w)
      ≡ first_time (insert t (w.schedulers (i % w.size)).pq_timer)
next-push i t w =
    let j = i % w.size in
    next_schedule_time-first i (push j t w)
    ∙ ap (λ n. first_time ((push j t w).schedulers (i % n)).pq_timer) (push-size j t w)
    ∙ ap first_time (push-queue j j t w ∙ ground arith)

-- `push` of a timer on a partition puts it at one place of the queue and leaves the rest of that queue, and
-- the other queues, as they are. Either the next time of the partition becomes the one of the timer, there
-- was none or a later one before, and the signal of the partition, if it has one, is emitted; or the next
-- time is as before, no later than the timer, and no signal is emitted.
pub push-Announced :
    (i : ℕ) (t : Timer) (w : TimedContext)
    → let j = i % w.size in
      Inserted t (w.schedulers j).pq_timer ((push j t w).schedulers j).pq_timer
      × ((k : ℕ)
          → (j == k) ≡ false
          → ((push j t w).schedulers k).pq_timer ≡ (w.schedulers k).pq_timer)
      × Announced i t w (push j t w)
push-Announced i t w =
    let j = i % w.size in
    let q = (w.schedulers j).pq_timer in
    (
      subst (Inserted t q) (sym (push-queue j j t w ∙ ground arith)) (insert-Inserted t q),
      (λ k n. push-queue j k t w ∙ ground (arith, n)),
      announce q refl,
    )
  where
    slot : ℕ
    slot = i % w.size

    announce : (q : List Timer) → (w.schedulers slot).pq_timer ≡ q → Announced i t w (push slot t w)
    announce [] e = inl (
      next-push i t w ∙ rw e (head-empty t),
      subst (Later t.ex) (sym (next_schedule_time-first i w ∙ ap first_time e)) tt,
      push-signals slot t w ∙ rw (e, next-empty t) refl,
    )
    announce (u ∷ us) e = elim (Bool-cases (ltb t.ex u.ex)) [
      | inl y ↦ inl (
        next-push i t w ∙ rw e (head-early t u us y),
        subst (Later t.ex) (sym (next_schedule_time-first i w ∙ ap first_time e))
            (ground (arith, y)),
        push-signals slot t w ∙ rw (e, next-full t u us, y) refl,
      )
      | inr n ↦ inr (
        u.ex,
        next_schedule_time-first i w ∙ ap first_time e,
        next-push i t w ∙ rw e (head-late t u us n),
        ground (arith, n),
        push-signals slot t w ∙ rw (e, next-full t u us, n) refl,
      )
    ]
