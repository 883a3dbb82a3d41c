-- ===== src/Frame/Unwind.antt =====
-- How exceptions pass through the stack of `_call_stack_execute`.
use cgo.Base.{
  ℕ, zero, suc, ◌≡◌, refl, ◌≢◌, ◌==◌, true, false, if◌then◌else◌, Option, none, some, List, [], ◌∷◌,
  ◌++◌, arith, length, update, Distinct, ap, sym, ◌∙◌, subst, append_assoc,
}
use cgo.Linked.{Ptr, null}
use cgo.Frame.{Action, raises, Ran, rethrown, Machine, call_stack_execute}
use cgo.Frame.Calls.{
  Calls, pop_call, onward, throw_to, conclude, acted, advance_top, advance, run, rest_of, FreshTop,
  IsOrderly,
}
use cgo.Frame.Refine.{Holds, Shaped, top_shaped}
use cgo.Frame.Execute.{SameRun, nonempty, call_stack_execute-SameRun}

-- A coroutine with an error is taken off the stack, and the error passed on.
pub conclude-throw :
    (x : Ptr) (w : ℕ) (ys : List Ptr) (b : Calls)
    → b.stack ≡ x ∷ ys
    → b.error x ≡ some w
    → conclude x b ≡ throw_to x w ys (record b { stack = ys })
unfolding conclude
conclude-throw x w ys b s k =
    ap step k ∙ (λ i. throw_to x w (rest (s i)) (record b { stack = rest (s i) }))
  where
    rest : List Ptr → List Ptr
    rest [] = []
    rest (y ∷ ys) = ys

    step : Option ℕ → Option Ran × Calls
    step o = elim o [
      | some z ↦ throw_to x z (rest_of b.stack) (pop_call b)
      | none ↦
          if b.finished x then (onward x (rest_of b.stack), pop_call b) else (onward x b.stack, b)
    ]

module _ (q : Ptr → Ptr) (act : ℕ → Ptr → Action) (fuel : ℕ) (a : Calls) where
  after_step : Option Ran × Calls → Option (Ran × Calls)
  after_step r = elim r.0 [ some ran ↦ some (ran, r.1) | none ↦ run q act fuel r.1 ]

  -- A step that ends the loop, and one after which it goes on.
  pub run-stops :
      (w : Ran) (b : Calls) → advance q act a ≡ (some w, b) → run q act (suc fuel) a ≡ some (w, b)
  unfolding run after_step
  run-stops w b k = ap after_step k

  pub run-goes :
      (b : Calls) → advance q act a ≡ (none, b) → run q act (suc fuel) a ≡ run q act fuel b
  unfolding run after_step
  run-goes b k = ap after_step k

module _ (q : Ptr → Ptr) (act : ℕ → Ptr → Action) (v : ℕ)
    (all : (n : ℕ) (c : Ptr) → act n c ≡ raises v) where
  -- A coroutine raises: it is resumed, and taken off the stack.
  abbrev left : Ptr → List Ptr → Calls → Calls
  left x ys a = record {
    stack = ys;
    error = update a.error x (some v);
    finished = update a.finished x true;
    resumed = a.resumed ++ x ∷ [];
  }

  advance-raises :
      (x : Ptr) (ys : List Ptr) (a : Calls)
      → a.stack ≡ x ∷ ys
      → advance q act a ≡ throw_to x v ys (left x ys a)
  unfolding advance advance_top acted
  advance-raises x ys a s =
      ap (λ l. advance_top q act l a) s
      ∙ ap (λ t. conclude x (acted q t x (record a { resumed = a.resumed ++ x ∷ [] })))
          (all (length a.resumed) x)
      ∙ conclude-throw x v ys (record (left x ys a) { stack = a.stack }) s (ground arith)

  -- Then the whole stack is resumed, innermost first, and the exception gets out.
  run-raises :
      (x : Ptr) (ys : List Ptr) (a : Calls)
      → a.stack ≡ x ∷ ys
      → Distinct (x ∷ ys)
      → (b : Calls) × (run q act (length (x ∷ ys)) a ≡ some (rethrown v, b))
        × (b.resumed ≡ a.resumed ++ x ∷ ys)
        × (b.stack ≡ [])
  unfolding throw_to
  run-raises x [] a s d =
      let b = left x [] a in
      (b, run-stops q act 0 a (rethrown v) b (advance-raises x [] a s), refl, refl)
  run-raises x (y ∷ ys) a s (d, ds) =
      let b = record (left x (y ∷ ys) a) { error = update (left x (y ∷ ys) a).error y (some v) } in
      let k = run-raises y ys b refl ds in
      let apart : (y == x) ≡ false = ground (arith, d) in
      (
        k.0,
        run-goes q act (length (y ∷ ys)) a b (advance-raises x (y ∷ ys) a s ∙ rw apart refl) ∙ k.1,
        k.2 ∙ append_assoc a.resumed (x ∷ []) (y ∷ ys),
        k.3,
      )

  IsOrderly-raises : (h : Ptr → Ptr) (fuel : ℕ) (a : Calls) → IsOrderly q act h fuel a
  IsOrderly-raises h zero a = tt
  IsOrderly-raises h (suc fuel) a =
      (fresh a.stack, later (advance q act a) (IsOrderly-raises h fuel))
    where
      fresh : (l : List Ptr) → FreshTop q act h l a
      fresh [] = tt
      fresh (x ∷ xs) = rw (all (length a.resumed) x) tt

      later :
          (r : Option Ran × Calls)
          → ((b : Calls) → IsOrderly q act h fuel b)
          → (elim r.0 as (λ x. Type 0) [ some ran ↦ Unit {0} | none ↦ IsOrderly q act h fuel r.1 ])
      later (some w, b) k = tt
      later (none, b) k = k b

-- What a run of the calls gives is what the loop gives.
pub from_run :
    (act : ℕ → Ptr → Action) (e : Ptr) (o : Option (Ran × Machine)) (w : Ran) (b : Calls)
    → SameRun act e o (some (w, b))
    → (n : Machine) × (o ≡ some (w, n)) × Holds e n b
from_run act e none w b k = elim k [ ]
from_run act e (some (w', n)) w b k = (n, ap (λ w. some (w, n)) k.0, k.1)

module _ (act : ℕ → Ptr → Action) (v : ℕ) (all : (n : ℕ) (c : Ptr) → act n c ≡ raises v) where
  -- If every coroutine that is resumed lets the exception `v` out, `_call_stack_execute` resumes
  -- each coroutine of the stack once, innermost first, and then rethrows `v`, with the stack empty.
  pub call_stack_execute-Unwinds :
      (f : Ptr) (m : Machine) (a : Calls)
      → a.stack ≢ []
      → Holds (m.entry (m.promise f)) m a
      → (n : Machine) × (call_stack_execute act (length a.stack) f m ≡ some (rethrown v, n))
        × (n.resumed ≡ m.resumed ++ a.stack)
        × (n.current (m.entry (m.promise f)) ≡ null)
  call_stack_execute-Unwinds f m a ne h =
      let e = m.entry (m.promise f) in
      let t = nonempty a.stack ne in
      let d = (top_shaped e m a t.0 t.1 t.2 h).1.distinct in
      let k = run-raises m.promise act v all t.0 t.1 a t.2 d in
      let l = length a.stack in
      let r : run m.promise act l a ≡ some (rethrown v, k.0) =
        ap (λ s. run m.promise act (length s) a) t.2 ∙ k.1 in
      let s =
        call_stack_execute-SameRun act l f m a ne h
          (IsOrderly-raises m.promise act v all m.handler l a) in
      let n =
        from_run act e (call_stack_execute act l f m) (rethrown v) k.0
          (subst (SameRun act e (call_stack_execute act l f m)) r s) in
      (
        n.0,
        n.1,
        n.2.resumed ∙ k.2 ∙ (λ i. sym h.resumed i ++ sym t.2 i),
        subst (λ s. Shaped e s n.0) k.3 n.2.shaped,
      )
