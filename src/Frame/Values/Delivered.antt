-- ===== src/Frame/Values/Delivered.antt =====
-- A `co_await` gives the caller what the callee returned or threw.
use cgo.Base.{
  ℕ, ◌≡◌, refl, ◌==◌, Bool, true, false, if◌then◌else◌, Option, none, some, List, [], ◌∷◌, ◌++◌,
  arith, length, update, ap, sym, ◌∙◌, subst,
}
use cgo.Linked.{Ptr}
use cgo.Frame.{
  Action, raises, Ran, Machine, coroutine, resume, perform, turn, after_resume, on_error, go_on,
  call_stack_pop,
}
use cgo.Frame.Calls.{Calls, throw_to, conclude, acted, advance_top, advance, IsFresh, FreshTop}
use cgo.Frame.Refine.{Holds, top_shaped, top_owned}
use cgo.Frame.Agree.{Agree}
use cgo.Frame.Execute.{turn-Agree}
use cgo.Frame.Unwind.{conclude-throw}
use cgo.Frame.Values.{
  Deed, returns_value, acts, Valued, Awaited, got, threw, action_of, store_value, turn_valued,
  await_ready, await_resume,
}

-- What the callee did.
abbrev pub deed_of : {V : Type 0} → Awaited V → Deed V
deed_of (got v) = returns_value v
deed_of (threw z) = acts (raises z)

-- The frames are the same.
record IsFramed (m n : Machine) : Type 0 where
  promise : n.promise ≡ m.promise
  handler : n.handler ≡ m.handler

on_error-IsFramed : (e : Ptr) (x : ℕ) (r : Ptr × Machine) → IsFramed r.1 (on_error e x r).2
unfolding on_error
on_error-IsFramed e x (next, m) = record { promise = ground arith; handler = ground arith }

go_on-IsFramed : (p : Ptr) (r : Option Ran × Ptr × Machine) → IsFramed r.2 (go_on p r).2
unfolding go_on
go_on-IsFramed p (none, next, m) = record { promise = refl; handler = refl }
go_on-IsFramed p (some x, next, m) = record { promise = refl; handler = refl }

after_resume-IsFramed : (e p : Ptr) (m : Machine) → IsFramed m (after_resume e p m).2
unfolding after_resume call_stack_pop
after_resume-IsFramed e p m = go (m.error p) (m.finished (coroutine p m))
  where
    r : Ptr × Machine
    r = call_stack_pop e m

    go :
        (o : Option ℕ) (b : Bool)
        → IsFramed m
            (elim o as (λ x. Option Ran × Ptr × Machine) [
              | some x ↦ on_error e x r
              | none ↦ if b then (none, r.0, r.1) else (none, m.current e, m)
            ]).2
    go (some x) b =
        let h = on_error-IsFramed e x r in record { promise = h.promise; handler = h.handler }
    go none true = record { promise = refl; handler = refl }
    go none false = record { promise = refl; handler = refl }

perform-IsFramed :
    {V : Type 0} (r : Awaited V) (c : Ptr) (m : Machine)
    → IsFramed m (perform (action_of (deed_of r)) c m)
unfolding perform action_of
perform-IsFramed (got v) c m = record { promise = refl; handler = refl }
perform-IsFramed (threw z) c m = record { promise = refl; handler = refl }

-- Neither of them awaits.
IsFresh-deed :
    {V : Type 0} (r : Awaited V) (m : Machine) (xs : List Ptr) (act : ℕ → Ptr → Action)
    → IsFresh m.promise act m.handler (action_of (deed_of r)) xs
unfolding action_of
IsFresh-deed (got v) m xs act = tt
IsFresh-deed (threw z) m xs act = tt

module _ {V : Type 0} (act : ℕ → Ptr → Deed V) (e x y : Ptr) (ys : List Ptr) (s : Valued V)
    (a : Calls) where
  abbrev m : Machine
  m = s.machine

  abbrev action : ℕ → Ptr → Action
  action n c = action_of (act n c)

  abbrev last : Machine
  last = (turn action e x m).2

  last-IsFramed :
      (r : Awaited V) → coroutine x m ≡ x → act (length m.resumed) x ≡ deed_of r → IsFramed m last
  unfolding turn resume
  last-IsFramed r o d =
      let c : Ptr = coroutine x m in
      let n : Machine = resume action x m in
      let k : act (length m.resumed) c ≡ deed_of r = ap (act (length m.resumed)) o ∙ d in
      let v : Machine = record m { resumed = m.resumed ++ c ∷ [] } in
      let f : IsFramed m n =
        subst (λ w. IsFramed m (perform (action_of w) c v)) (sym k)
          (let p = perform-IsFramed r c v in record { promise = p.promise; handler = p.handler }) in
      let g = after_resume-IsFramed e x n in
      let h = go_on-IsFramed x (after_resume e x n) in
      record {
        promise = h.promise ∙ g.promise ∙ f.promise;
        handler = h.handler ∙ g.handler ∙ f.handler;
      }

  -- The calls afterwards: the callee has ended, and its exception, if any, is passed to the caller.
  abbrev errors : Awaited V → Ptr → Option ℕ
  errors (got v) = a.error
  errors (threw z) = update (update a.error x (some z)) y (some z)

  abbrev ended : Awaited V → Calls
  ended r = record {
    stack = y ∷ ys;
    error = errors r;
    finished = update a.finished x true;
    resumed = a.resumed ++ x ∷ [];
  }

  conclude-ended :
      (r : Awaited V)
      → a.stack ≡ x ∷ y ∷ ys
      → (y == x) ≡ false
      → a.error x ≡ none
      → conclude x
          (acted m.promise (action_of (deed_of r)) x (record a { resumed = a.resumed ++ x ∷ [] }))
        ≡ (none, ended r)
  unfolding action_of acted conclude throw_to
  conclude-ended (got v) k n o =
      let self : (x == x) ≡ true = ground arith in rw (o, self, k, n) refl
  conclude-ended (threw z) k n o =
      let b : Calls = acted m.promise (raises z) x (record a { resumed = a.resumed ++ x ∷ [] }) in
      conclude-throw x z (y ∷ ys) b k (ground arith) ∙ rw n refl

  advance-ended :
      (r : Awaited V)
      → a.stack ≡ x ∷ y ∷ ys
      → (y == x) ≡ false
      → a.error x ≡ none
      → action (length a.resumed) x ≡ action_of (deed_of r)
      → advance m.promise action a ≡ (none, ended r)
  unfolding advance advance_top
  advance-ended r k n o d =
      let b : Calls = record a { resumed = a.resumed ++ x ∷ [] } in
      ap (λ l. advance_top m.promise action l a) k
      ∙ ap (λ t. conclude x (acted m.promise t x b)) d
      ∙ conclude-ended r k n o

  -- Where the coroutine `x` on top of the stack, which `y` awaits through the frame `f`, has no exception of a
  -- callee, returns a value or lets an exception out: the loop goes on with `y`, and the awaited frame
  -- is ready and gives `y` that value or exception.
  pub await_resume-deed :
      (f : Ptr) (r : Awaited V)
      → a.stack ≡ x ∷ y ∷ ys
      → Holds e m a
      → m.error x ≡ none
      → m.promise f ≡ x
      → m.handler f ≡ x
      → act (length m.resumed) x ≡ deed_of r
      → let t = turn_valued act e x s in
        (t.0 ≡ none) × (t.1 ≡ y) × (await_ready f t.2.machine ≡ true) × (await_resume f t.2 ≡ r)
  unfolding turn_valued await_ready await_resume store_value
  await_resume-deed f r k h o p q d =
      (agree.0, agree.1, ready, subst (λ g. look g ≡ r) (sym at) given)
    where
      own : coroutine x m ≡ x
      own = top_owned e m a x (y ∷ ys) k h

      does : action (length a.resumed) x ≡ action_of (deed_of r)
      does = ap (λ l. action (length l) x) (sym h.resumed) ∙ ap action_of d

      apart : (y == x) ≡ false
      apart = ground (arith, (top_shaped e m a x (y ∷ ys) k h).1.distinct)

      calm : a.error x ≡ none
      calm = ap (λ g. g x) (sym h.error) ∙ o

      fresh : FreshTop m.promise action m.handler a.stack a
      fresh = rw (k, does) (IsFresh-deed r m (x ∷ y ∷ ys) action)

      agree : Agree e (turn action e x m) (none, ended r)
      agree =
          subst (Agree e (turn action e x m)) (advance-ended r k apart calm does)
            (turn-Agree action e x (y ∷ ys) m a k h fresh)

      framed : IsFramed m last
      framed = last-IsFramed r own d

      at : last.promise f ≡ x
      at = ap (λ g. g f) framed.promise ∙ p

      ready : last.finished (last.handler f) ≡ true
      ready =
          ap last.finished (ap (λ g. g f) framed.handler ∙ q)
          ∙ ap (λ g. g x) agree.2.finished
          ∙ ground arith

      self : (x == x) ≡ true
      self = ground arith

      -- What `await_resume` reads of the promise `g`.
      seen : Option ℕ → Deed V → Ptr → Ptr → Awaited V
      seen o w c g = elim o [ some z ↦ threw z | none ↦ got (store_value w c s.value g) ]

      look : Ptr → Awaited V
      look g = seen (last.error g) (act (length m.resumed) (coroutine x m)) (coroutine x m) g

      read : (w : Awaited V) → seen (errors w x) (deed_of w) x x ≡ w
      read (got v) = rw (calm, self) refl
      read (threw z) = rw (apart, self) refl

      given : look x ≡ r
      given =
          ap (λ g. seen (g x) (act (length m.resumed) (coroutine x m)) (coroutine x m) x)
            agree.2.error
          ∙ ap (λ c. seen (errors r x) (act (length m.resumed) c) c x) own
          ∙ ap (λ w. seen (errors r x) w x x) d
          ∙ read r
