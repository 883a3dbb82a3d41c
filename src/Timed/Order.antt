-- ===== src/Timed/Order.antt =====
-- The timers of a partition stay in order of expiry.
use cgo.Base.{
  ℕ, ◌+◌, ◌≤◌, ◌<◌, ◌≡◌, refl, Bool, true, false, ltb, leb, none, some, Option, List, [], ◌∷◌,
  arith, All, inl, inr, Bool-cases, ◌==◌,
}
use cgo.Timed.{
  Timer, TimedContext, insert, is_next, emit_if, set_queue, push, pop_due, read_if, pop,
}

abbrev pub After : ℕ → List Timer → Type 0
After x = All (λ t. x ≤ t.ex)

abbrev pub IsSorted : List Timer → Type 0
IsSorted [] = Unit {0}
IsSorted (t ∷ ts) = After t.ex ts × IsSorted ts

After-le : {x y : ℕ} (ts : List Timer) → x ≤ y → After y ts → After x ts
After-le [] h a = tt
After-le (t ∷ ts) h a = (omega arith, After-le ts h a.1)

After-insert : (x : ℕ) (t : Timer) (ts : List Timer) → x ≤ t.ex → After x ts → After x (insert t ts)
unfolding insert
After-insert x t [] h a = (h, tt)
After-insert x t (u ∷ us) h a = ground (arith, After-insert x t us h a.1)

insert-IsSorted : (t : Timer) (ts : List Timer) → IsSorted ts → IsSorted (insert t ts)
unfolding insert
insert-IsSorted t [] s = (tt, tt)
insert-IsSorted t (u ∷ us) s = elim (Bool-cases (ltb t.ex u.ex)) [
  | inl y ↦ rw y ((ground arith, After-le us (ground arith) s.0), s)
  | inr n ↦ rw n (After-insert u.ex t us (ground arith) s.0, insert-IsSorted t us s.1)
]

-- Every partition is in order.
abbrev pub AllSorted : TimedContext → Type 0
AllSorted w = (i : ℕ) → IsSorted (w.schedulers i).pq_timer

pub emit_if-schedulers :
    (b : Bool) (o : Option ℕ) (w : TimedContext) → (emit_if b o w).schedulers ≡ w.schedulers
unfolding emit_if
emit_if-schedulers true (some s) w = refl
emit_if-schedulers true none w = refl
emit_if-schedulers false o w = refl

set_queue-AllSorted :
    (i : ℕ) (q : List Timer) (w : TimedContext)
    → IsSorted q
    → AllSorted w
    → AllSorted (set_queue i q w)
set_queue-AllSorted i q w s a j = elim (Bool-cases (i == j)) [ inl y ↦ rw y s | inr n ↦ rw n (a j) ]

-- `push` leaves every partition in order of expiry if they all were.
pub push-AllSorted : (i : ℕ) (t : Timer) (w : TimedContext) → AllSorted w → AllSorted (push i t w)
unfolding push
push-AllSorted i t w a =
    let e = emit_if-schedulers (is_next t (w.schedulers i).pq_timer) (w.schedulers i).signal w in
    let q = (w.schedulers i).pq_timer in
    set_queue-AllSorted i (insert t q) (emit_if (is_next t q) (w.schedulers i).signal w)
      (insert-IsSorted t q (a i)) (rw e a)

-- What `pop` may return from a queue: the first timer, which is due and no later than the others,
-- or nothing, and then none is due.
abbrev pub Popped : ℕ → List Timer → Option Timer × List Timer → Type 0
Popped now q (some t, ts) = (q ≡ t ∷ ts) × (t.ex ≤ now) × After t.ex ts
Popped now q (none, ts) = (ts ≡ q) × After (now + 1) q

After-late :
    (now : ℕ) (t : Timer) (ts : List Timer) → now < t.ex → After t.ex ts → After (now + 1) (t ∷ ts)
After-late now t ts h a = (omega arith, After-le ts (omega arith) a)

pop_due-Popped :
    (now i : ℕ) (q : List Timer) (w : TimedContext)
    → (w.schedulers i).pq_timer ≡ q
    → IsSorted q
    → let r = pop_due now i q w in Popped now q (r.0, (r.1.schedulers i).pq_timer)
unfolding pop_due
pop_due-Popped now i [] w e s = (e, tt)
pop_due-Popped now i (t ∷ ts) w e s = elim (Bool-cases (leb t.ex now)) [
  | inl y ↦ rw y (ground arith, ground arith, ground (arith, s.0))
  | inr n ↦ rw n (e, After-late now t ts (ground arith) s.0)
]

read_if-queue :
    (q : List Timer) (i : ℕ) (w : TimedContext)
    → ((read_if q w).schedulers i).pq_timer ≡ (w.schedulers i).pq_timer
unfolding read_if
read_if-queue [] i w = refl
read_if-queue (t ∷ ts) i w = refl

module _ (clock : ℕ → ℕ) where
  -- If every partition is in order, `pop` takes the timer of its partition that expires first, and
  -- only when its time has come by the clock; if it takes none, no timer of the partition is due
  -- and its queue is as before.
  pub pop-Popped :
      (i : ℕ) (w : TimedContext)
      → AllSorted w
      → let r = pop clock i w in
        Popped (clock w.readings) (w.schedulers i).pq_timer (r.0, (r.1.schedulers i).pq_timer)
  unfolding pop
  pop-Popped i w a =
      let q = (w.schedulers i).pq_timer in
      pop_due-Popped (clock w.readings) i q (read_if q w) (read_if-queue q i w) (a i)
