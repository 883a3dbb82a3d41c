-- ===== src/Frame/Agree.antt =====
-- A round of `_call_stack_execute` against a step of the calls.
use cgo.Base.{
  ℕ, ◌≡◌, refl, ◌==◌, Bool, true, false, if◌then◌else◌, Option, none, some, List, [], ◌∷◌, ◌++◌,
  arith, length, update, ap, sym, ◌∙◌, subst,
}
use cgo.Linked.{Ptr, null}
use cgo.Frame.{
  Action, Ran, Machine, call_stack_pop, coroutine, resume, on_error, go_on, after_resume,
}
use cgo.Frame.Calls.{Calls, rest_of, pop_call, onward, throw_to, conclude, acted, IsFresh}
use cgo.Frame.Refine.{Shaped, Holds, top_or_null, top_shaped, top_owned, perform-Holds, pop-Holds}

-- A round of the loop and a step of the calls agree on how it ends, and on which promise goes on.
abbrev pub Agree : Ptr → Option Ran × Ptr × Machine → Option Ran × Calls → Type 0
Agree e (o, p, m) (o', a) = (o ≡ o') × (p ≡ top_or_null a.stack) × Holds e m a

module _ (e x z : Ptr) (zs : List Ptr) (m : Machine) (b : Calls) (shape : b.stack ≡ z ∷ zs)
    (h : Holds e m b) where
  -- An exception is passed on.
  throw-Agree :
      (v : ℕ)
      → Agree e
          (go_on x (on_error e v (call_stack_pop e m)))
          (throw_to x v zs (record b { stack = zs }))
  unfolding go_on on_error throw_to
  throw-Agree v =
      go zs (call_stack_pop e m) (pop-Holds e m b z zs shape h).0 (pop-Holds e m b z zs shape h).1
    where
      go :
          (ys : List Ptr) (r : Ptr × Machine)
          → r.0 ≡ top_or_null ys
          → Holds e r.1 (record b { stack = ys })
          → Agree e (go_on x (on_error e v r)) (throw_to x v ys (record b { stack = ys }))
      go [] (next, n) u k = rw u (refl, refl, k)
      go (y ∷ ys) (next, n) u k =
          let real : (y == null) ≡ false = ground (arith, k.shaped.1.real) in
          rw (u, real, go_on, real)
            (
              refl,
              refl,
              record {
                error = ap (λ g. update g y (some v)) k.error;
                finished = k.finished;
                resumed = k.resumed;
                shaped = (ground arith, k.shaped.1);
                entries = k.entries;
                owned = k.owned;
              },
            )

  -- The coroutine that ran has ended.
  return-Agree :
      Agree e
        (go_on x (none, (call_stack_pop e m).0, (call_stack_pop e m).1))
        (onward x zs, record b { stack = zs })
  unfolding go_on
  return-Agree =
      go zs (call_stack_pop e m) (pop-Holds e m b z zs shape h).0 (pop-Holds e m b z zs shape h).1
    where
      go :
          (ys : List Ptr) (r : Ptr × Machine)
          → r.0 ≡ top_or_null ys
          → Holds e r.1 (record b { stack = ys })
          → Agree e (go_on x (none, r.0, r.1)) (onward x ys, record b { stack = ys })
      go [] (next, n) u k = rw u (refl, refl, k)
      go (y ∷ ys) (next, n) u k =
          let real : (y == null) ≡ false = ground (arith, k.shaped.1.real) in
          rw (u, real) (refl, refl, k)

  -- It is suspended.
  suspend-Agree : Agree e (go_on x (none, m.current e, m)) (onward x (z ∷ zs), b)
  unfolding go_on
  suspend-Agree =
      let t = top_shaped e m b z zs shape h in
      let real : (z == null) ≡ false = ground (arith, t.1.real) in
      rw (t.0, real) (refl, ap top_or_null (sym shape), h)

  pub conclude-Agree : coroutine x m ≡ x → Agree e (go_on x (after_resume e x m)) (conclude x b)
  unfolding after_resume conclude
  conclude-Agree o = by_error (m.error x) (b.error x) (ap (λ g. g x) h.error)
    where
      c : Calls
      c = record b { stack = zs }

      popped : Ptr × Machine
      popped = call_stack_pop e m

      by_end :
          (u v : Bool)
          → u ≡ v
          → Agree e
              (go_on x (if u then (none, popped.0, popped.1) else (none, m.current e, m)))
              (if v then (onward x (rest_of b.stack), pop_call b) else (onward x b.stack, b))
      by_end true true k =
          subst
            (λ l.
              Agree e (go_on x (none, popped.0, popped.1))
                (onward x (rest_of l), record b { stack = rest_of l }))
            (sym shape) return-Agree
      by_end false false k =
          subst (λ l. Agree e (go_on x (none, m.current e, m)) (onward x l, b)) (sym shape)
            suspend-Agree
      by_end true false k = ground (arith, k)
      by_end false true k = ground (arith, k)

      by_error :
          (u v : Option ℕ)
          → u ≡ v
          → Agree e
              (go_on x (elim u [
                | some w ↦ on_error e w popped
                | none ↦
                    if m.finished (coroutine x m)
                    then (none, popped.0, popped.1)
                    else (none, m.current e, m)
              ]))
              (elim v [
                | some w ↦ throw_to x w (rest_of b.stack) (pop_call b)
                | none ↦
                    if b.finished x
                    then (onward x (rest_of b.stack), pop_call b)
                    else (onward x b.stack, b)
              ])
      by_error none none k =
          by_end (m.finished (coroutine x m)) (b.finished x)
            (ap m.finished o ∙ ap (λ g. g x) h.finished)
      by_error none (some w) k = ground (arith, k)
      by_error (some w) none k = ground (arith, k)
      by_error (some w) (some w') k =
          subst
            (λ y.
              Agree e (go_on x (on_error e w popped)) (throw_to x y (rest_of b.stack) (pop_call b)))
            (ground (arith, k))
            (subst
              (λ l.
                Agree e (go_on x (on_error e w popped))
                  (throw_to x w (rest_of l) (record b { stack = rest_of l })))
              (sym shape) (throw-Agree w))

-- Resuming the innermost coroutine.
module _ (act : ℕ → Ptr → Action) (e x : Ptr) (xs : List Ptr) (m : Machine) (a : Calls)
    (shape : a.stack ≡ x ∷ xs) (h : Holds e m a)
    (f : IsFresh m.promise act m.handler (act (length a.resumed) x) (x ∷ xs)) where
  abbrev ran : Calls
  ran = acted m.promise (act (length a.resumed) x) x (record a { resumed = a.resumed ++ x ∷ [] })

  pub resume-Holds : Holds e (resume act x m) ran
  unfolding resume
  resume-Holds =
      let o = top_owned e m a x xs shape h in
      let n = ap length h.resumed in
      rw (o, n)
        (perform-Holds e (record m { resumed = m.resumed ++ x ∷ [] })
          (record a { resumed = a.resumed ++ x ∷ [] }) x xs shape
          (record {
            error = h.error;
            finished = h.finished;
            resumed = ap (λ r. r ++ x ∷ []) h.resumed;
            shaped =
                subst (λ s. Shaped e s (record m { resumed = m.resumed ++ x ∷ [] })) (sym shape)
                  (top_shaped e m a x xs shape h);
            entries = h.entries;
            owned = h.owned;
          })
          (act (length a.resumed) x) f)
