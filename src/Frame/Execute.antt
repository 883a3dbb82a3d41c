-- ===== src/Frame/Execute.antt =====
-- The loop of `_call_stack_execute` does what Calls.run says, round by round.
use cgo.Base.{
  ℕ, zero, suc, ◌≡◌, refl, ◌≢◌, ◌==◌, Bool, true, false, if◌then◌else◌, Option, none, some, List,
  [], ◌∷◌, ◌++◌, arith, length, ap, sym, All, ◌∙◌, Bool-cases, inl, inr, subst,
}
use cgo.Linked.{Ptr, null}
use cgo.Frame.{
  Action, suspends, returns, awaits, raises, Ran, Machine, call_stack_push, call_stack_pop,
  await_suspend, perform, coroutine, resume, on_error, go_on, after_resume, turn, rounds,
  call_stack_execute,
}
use cgo.Frame.Calls.{Calls, acted, advance_top, advance, run, FreshTop, IsOrderly}
use cgo.Frame.Refine.{Holds, top_or_null, top_shaped}
use cgo.Frame.Agree.{Agree, resume-Holds, conclude-Agree}

-- Frames keep their coroutines while the loop runs.
abbrev Kept : Machine → Machine → Type 0
Kept m n = (n.promise ≡ m.promise) × (n.handler ≡ m.handler)

perform-Kept : (t : Action) (c : Ptr) (m : Machine) → Kept m (perform t c m)
unfolding perform await_suspend call_stack_push
perform-Kept suspends c m = (refl, refl)
perform-Kept returns c m = (refl, refl)
perform-Kept (awaits f) c m = (refl, refl)
perform-Kept (raises x) c m = (refl, refl)

on_error-Kept : (e x : ℕ) (r : Ptr × Machine) → Kept r.1 (on_error e x r).2
unfolding on_error
on_error-Kept e x (next, m) = elim (Bool-cases (next == null)) [
  | inl y ↦ rw y (refl, refl)
  | inr n ↦ rw n (refl, refl)
]

go_on-same :
    (p : Ptr) (r : Option Ran × Ptr × Machine) → ((go_on p r).1 ≡ r.1) × ((go_on p r).2 ≡ r.2)
unfolding go_on
go_on-same p (some r, next, m) = (refl, refl)
go_on-same p (none, next, m) = (refl, refl)

after_resume-Kept : (e p : Ptr) (m : Machine) → Kept m (after_resume e p m).2
unfolding after_resume call_stack_pop
after_resume-Kept e p m = by_error (m.error p)
  where
    popped : Ptr × Machine
    popped = call_stack_pop e m

    ended : Option Ran × Ptr × Machine
    ended = (none, popped.0, popped.1)

    by_end : (b : Bool) → Kept m (if b then ended else (none, m.current e, m)).2
    by_end true = (refl, refl)
    by_end false = (refl, refl)

    step : Option ℕ → Option Ran × Ptr × Machine
    step o = elim o [
      | some x ↦ on_error e x popped
      | none ↦
          if m.finished (coroutine p m) then (none, popped.0, popped.1) else (none, m.current e, m)
    ]

    by_error : (o : Option ℕ) → Kept m (step o).2
    by_error (some x) = on_error-Kept e x popped
    by_error none = by_end (m.finished (coroutine p m))

-- An action leaves the stack as it is, or puts a coroutine on it.
acted-stack :
    (q : Ptr → Ptr) (t : Action) (x : Ptr) (a : Calls) (P : Ptr → Type 0)
    → All P (acted q t x a).stack
    → All P a.stack
unfolding acted
acted-stack q suspends x a P k = k
acted-stack q returns x a P k = k
acted-stack q (awaits f) x a P k = k.1
acted-stack q (raises v) x a P k = k

acted-top :
    (q : Ptr → Ptr) (t : Action) (x : Ptr) (xs : List Ptr) (a : Calls)
    → a.stack ≡ x ∷ xs
    → (z : Ptr) × (zs : List Ptr) × ((acted q t x a).stack ≡ z ∷ zs)
unfolding acted
acted-top q suspends x xs a s = (x, xs, s)
acted-top q returns x xs a s = (x, xs, s)
acted-top q (awaits f) x xs a s = (q f, a.stack, refl)
acted-top q (raises v) x xs a s = (x, xs, s)

pub nonempty : (l : List Ptr) → l ≢ [] → (x : Ptr) × (xs : List Ptr) × (l ≡ x ∷ xs)
nonempty [] n = ground (arith, n refl)
nonempty (x ∷ xs) n = (x, xs, refl)

module _ (act : ℕ → Ptr → Action) where
  turn-Kept : (e p : Ptr) (m : Machine) → Kept m (turn act e p m).2
  unfolding turn resume
  turn-Kept e p m =
      let c = coroutine p m in
      let k =
        perform-Kept (act (length m.resumed) c) c (record m { resumed = m.resumed ++ c ∷ [] }) in
      let l = after_resume-Kept e p (resume act p m) in
      rw (go_on-same p (after_resume e p (resume act p m))).1 (l.0 ∙ k.0, l.1 ∙ k.1)

  -- A round of the loop is a step of the calls.
  pub turn-Agree :
      (e x : Ptr) (xs : List Ptr) (m : Machine) (a : Calls)
      → a.stack ≡ x ∷ xs
      → Holds e m a
      → FreshTop m.promise act m.handler a.stack a
      → Agree e (turn act e x m) (advance m.promise act a)
  unfolding turn advance advance_top
  turn-Agree e x xs m a shape h f =
      let f' = subst (λ s. FreshTop m.promise act m.handler s a) shape f in
      let t = act (length a.resumed) x in
      let ran = acted m.promise t x (record a { resumed = a.resumed ++ x ∷ [] }) in
      let k : Holds e (resume act x m) ran = resume-Holds act e x xs m a shape h f' in
      let top = acted-top m.promise t x xs (record a { resumed = a.resumed ++ x ∷ [] }) shape in
      let own =
        acted-stack m.promise t x (record a { resumed = a.resumed ++ x ∷ [] })
          (λ y. coroutine y (resume act x m) ≡ y) k.owned in
      let o = (subst (All (λ y. coroutine y (resume act x m) ≡ y)) shape own).0 in
      subst (λ l. Agree e (turn act e x m) (advance_top m.promise act l a)) (sym shape)
        (conclude-Agree e x top.0 top.1 (resume act x m) ran top.2 k o)

  go_on-next :
      (p : Ptr) (r : Option Ran × Ptr × Machine) → (go_on p r).0 ≡ none → (go_on p r).1 ≢ null
  unfolding go_on
  go_on-next p (some r, next, m) k = ground (arith, k)
  go_on-next p (none, next, m) k = λ n. ground (arith, k, n)

  top-stack : (l : List Ptr) → top_or_null l ≢ null → (x : Ptr) × (xs : List Ptr) × (l ≡ x ∷ xs)
  top-stack l n = nonempty l (λ k. n (ap top_or_null k))

  -- Two runs give nothing both, or end in the same way and hold the same calls.
  abbrev pub SameRun : Ptr → Option (Ran × Machine) → Option (Ran × Calls) → Type 0
  SameRun e none none = Unit {0}
  SameRun e none (some (r, a)) = ⊥
  SameRun e (some (r, m)) none = ⊥
  SameRun e (some (r, m)) (some (s, a)) = (r ≡ s) × Holds e m a

  rounds-run :
      (fuel : ℕ) (e x : Ptr) (xs : List Ptr) (m : Machine) (a : Calls)
      → a.stack ≡ x ∷ xs
      → Holds e m a
      → IsOrderly m.promise act m.handler fuel a
      → SameRun e (rounds act fuel e x m) (run m.promise act fuel a)
  unfolding rounds run turn
  rounds-run zero e x xs m a shape h f = tt
  rounds-run (suc fuel) e x xs m a shape h (f, later) =
      go (turn act e x m) (advance q act a) (turn-Agree e x xs m a shape h f) (λ k. going k)
        (turn-Kept e x m) later (λ y ys n b s k l. rounds-run fuel e y ys n b s k l)
    where
      q : Ptr → Ptr
      q = m.promise

      going : (turn act e x m).0 ≡ none → (turn act e x m).1 ≢ null
      going k = go_on-next x (after_resume e x (resume act x m)) k

      go :
          (r : Option Ran × Ptr × Machine) (s : Option Ran × Calls)
          → Agree e r s
          → (r.0 ≡ none → r.1 ≢ null)
          → Kept m r.2
          → (elim s.0 as (λ x. Type 0) [
            | some ran ↦ Unit {0}
            | none ↦ IsOrderly m.promise act m.handler fuel s.1
          ])
          → ((y : Ptr) (ys : List Ptr) (n : Machine) (b : Calls)
              → b.stack ≡ y ∷ ys
              → Holds e n b
              → IsOrderly n.promise act n.handler fuel b
              → SameRun e (rounds act fuel e y n) (run n.promise act fuel b))
          → SameRun e
              (elim r.0 [ some ran ↦ some (ran, r.2) | none ↦ rounds act fuel e r.1 r.2 ])
              (elim s.0 [ some ran ↦ some (ran, s.1) | none ↦ run q act fuel s.1 ])
      go (some w, p, n) (some w', b) k g kept l again = (ground (arith, k.0), k.2)
      go (some w, p, n) (none, b) k g kept l again = ground (arith, k.0)
      go (none, p, n) (some w, b) k g kept l again = ground (arith, k.0)
      go (none, p, n) (none, b) k g kept l again =
          let t = top-stack b.stack (λ z. g refl (k.1 ∙ z)) in
          let l1 = subst (λ u. IsOrderly u act m.handler fuel b) (sym kept.0) l in
          let l2 = subst (λ u. IsOrderly n.promise act u fuel b) (sym kept.1) l1 in
          subst (λ v. SameRun e (rounds act fuel e v n) (run q act fuel b))
            (sym (k.1 ∙ ap top_or_null t.2))
            (subst (λ u. SameRun e (rounds act fuel e t.0 n) (run u act fuel b)) kept.0
              (again t.0 t.1 n b t.2 k.2 l2))

  -- Whatever coroutines do, for any fuel, `_call_stack_execute` on a stack of linked promises gives
  -- a result exactly when running the list of calls does, which ends in the same way (it returns,
  -- or lets the same exception out) and leaves the same stack, errors, ended coroutines and order
  -- of resumptions; and the links, entries and owners are well-formed again. The condition is that
  -- each coroutine that is awaited is held by its frame and not yet on the stack.
  pub call_stack_execute-SameRun :
      (fuel : ℕ) (f : Ptr) (m : Machine) (a : Calls)
      → a.stack ≢ []
      → Holds (m.entry (m.promise f)) m a
      → IsOrderly m.promise act m.handler fuel a
      → SameRun (m.entry (m.promise f)) (call_stack_execute act fuel f m) (run m.promise act fuel a)
  unfolding call_stack_execute
  call_stack_execute-SameRun fuel f m a n h o =
      let e = m.entry (m.promise f) in
      let t = nonempty a.stack n in
      let s = top_shaped e m a t.0 t.1 t.2 h in rw s.0 (rounds-run fuel e t.0 t.1 m a t.2 h o)
