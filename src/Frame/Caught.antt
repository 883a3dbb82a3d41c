-- ===== src/Frame/Caught.antt =====
-- What `_call_stack_execute` does with an exception that a coroutine has caught.
use cgo.Base.{
  ℕ, ◌≡◌, refl, ◌==◌, true, false, none, some, List, [], ◌∷◌, ◌++◌, arith, length, update, ap, sym,
  ◌∙◌, subst, inl, inr, ◌⊎◌,
}
use cgo.Linked.{Ptr}
use cgo.Frame.{Action, suspends, returns, Machine, turn}
use cgo.Frame.Calls.{Calls, throw_to, conclude, acted, advance_top, advance, IsFresh, FreshTop}
use cgo.Frame.Refine.{Holds, top_shaped}
use cgo.Frame.Agree.{Agree}
use cgo.Frame.Execute.{turn-Agree}
use cgo.Frame.Unwind.{conclude-throw}

module _ (act : ℕ → Ptr → Action) (e x y : Ptr) (ys : List Ptr) (m : Machine) (a : Calls)
    (v : ℕ) where
  abbrev passed : Calls → Calls
  passed b = record b { stack = y ∷ ys; error = update b.error y (some v) }

  -- The coroutine `x` on top, with the exception `v` that its callee let out, is resumed and only
  -- suspends or returns, so it has caught it. Nevertheless the loop takes `x` off the stack, and
  -- goes on with the coroutine `y` below, with the exception `v`.
  pub turn-caught :
      a.stack ≡ x ∷ y ∷ ys
      → Holds e m a
      → m.error x ≡ some v
      → (act (length a.resumed) x ≡ suspends) ⊎ (act (length a.resumed) x ≡ returns)
      → ((turn act e x m).0 ≡ none)
        × ((turn act e x m).1 ≡ y)
        × ((turn act e x m).2.error y ≡ some v)
        × ((turn act e x m).2.current e ≡ y)
  unfolding advance advance_top acted throw_to
  turn-caught s h k t = elim t [
    | inl t ↦ loop t (conclude-throw x v (y ∷ ys) a1 s k') tt
    | inr t ↦
        loop t
          (conclude-throw x v (y ∷ ys) (record a1 { finished = update a.finished x true }) s k') tt
  ]
    where
      a1 : Calls
      a1 = record a { resumed = a.resumed ++ x ∷ [] }

      k' : a.error x ≡ some v
      k' = ap (λ g. g x) (sym h.error) ∙ k

      apart : (y == x) ≡ false
      apart = ground (arith, (top_shaped e m a x (y ∷ ys) s h).1.distinct)

      loop :
          {t : Action}
          → act (length a.resumed) x ≡ t
          → conclude x (acted m.promise t x a1)
            ≡ throw_to x v (y ∷ ys) (record (acted m.promise t x a1) { stack = y ∷ ys })
          → IsFresh m.promise act m.handler t a.stack
          → ((turn act e x m).0 ≡ none)
            × ((turn act e x m).1 ≡ y)
            × ((turn act e x m).2.error y ≡ some v)
            × ((turn act e x m).2.current e ≡ y)
      loop {t} u c w =
          let b = passed (acted m.promise t x a1) in
          let r : advance m.promise act a ≡ (none, b) =
            ap (λ l. advance_top m.promise act l a) s
            ∙ ap (λ t. conclude x (acted m.promise t x a1)) u
            ∙ c
            ∙ rw apart refl in
          let f : FreshTop m.promise act m.handler a.stack a =
            rw (s, u) (subst (IsFresh m.promise act m.handler t) s w) in
          let g : Agree e (turn act e x m) (none, b) =
            subst (Agree e (turn act e x m)) r (turn-Agree act e x (y ∷ ys) m a s h f) in
          (g.0, g.1, ap (λ l. l y) g.2.error ∙ ground arith, g.2.shaped.0)
