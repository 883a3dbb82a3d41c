-- ===== src/Frame/Refine.antt =====
-- `_call_stack_execute` on linked promises does what Calls says.
use cgo.Base.{
  ◌≡◌, ◌==◌, true, false, some, List, [], ◌∷◌, arith, update, has, All, ap, sym, ◌∙◌, subst,
}
use cgo.Linked.{Ptr, null, front}
use cgo.Frame.{
  Action, suspends, returns, awaits, raises, Machine, call_stack_push, call_stack_pop,
  await_suspend, perform, coroutine,
}
use cgo.Frame.Stack.{IsStack, link_back-IsStack, front-second, unlink_back-IsStack, front-last}
use cgo.Frame.Calls.{Calls, acted, IsFresh}

-- The promises of the stack are linked, and `current` is the innermost.
abbrev pub Shaped : Ptr → List Ptr → Machine → Type 0
Shaped e [] m = m.current e ≡ null
Shaped e (x ∷ xs) m = (m.current e ≡ x) × IsStack m.links x xs

-- `m`, under the entry `e`, holds the calls `a`.
pub record Holds (e : Ptr) (m : Machine) (a : Calls) : Type 0 where
  pub error : m.error ≡ a.error
  pub finished : m.finished ≡ a.finished
  pub resumed : m.resumed ≡ a.resumed
  pub shaped : Shaped e a.stack m
  pub entries : All (λ x. m.entry x ≡ e) a.stack
  pub owned : All (λ x. coroutine x m ≡ x) a.stack

All-update :
    (f : Ptr → Ptr) (q v : Ptr) (P : Ptr → Ptr → Type 0) (xs : List Ptr)
    → has q xs ≡ false
    → All (λ x. P x (f x)) xs
    → All (λ x. P x (update f q v x)) xs
All-update f q v P [] h a = tt
All-update f q v P (x ∷ xs) h a =
    (let n : (q == x) ≡ false = ground arith in rw n a.0, All-update f q v P xs (ground arith) a.1)

abbrev pub top_or_null : List Ptr → Ptr
top_or_null [] = null
top_or_null (x ∷ xs) = x

module _ (e : Ptr) (m : Machine) (a : Calls) (x : Ptr) (xs : List Ptr) (shape : a.stack ≡ x ∷ xs)
    (h : Holds e m a) where
  pub top_shaped : (m.current e ≡ x) × IsStack m.links x xs
  top_shaped = subst (λ s. Shaped e s m) shape h.shaped

  top_entry : m.entry x ≡ e
  top_entry = (subst (λ s. All (λ y. m.entry y ≡ e) s) shape h.entries).0

  pub top_owned : coroutine x m ≡ x
  top_owned = (subst (λ s. All (λ y. coroutine y m ≡ y) s) shape h.owned).0

  -- An action of the innermost coroutine.
  pub perform-Holds :
      (t : Action)
      → IsFresh m.promise (λ n y. t) m.handler t (x ∷ xs)
      → Holds e (perform t x m) (acted m.promise t x a)
  unfolding perform acted await_suspend call_stack_push
  perform-Holds suspends f = h
  perform-Holds returns f = record {
    error = h.error;
    finished = ap (λ g. update g x true) h.finished;
    resumed = h.resumed;
    shaped = subst (λ s. Shaped e s (perform returns x m)) (sym shape) top_shaped;
    entries = h.entries;
    owned = h.owned;
  }
  perform-Holds (raises v) f = record {
    error = ap (λ g. update g x (some v)) h.error;
    finished = ap (λ g. update g x true) h.finished;
    resumed = h.resumed;
    shaped = subst (λ s. Shaped e s (perform (raises v) x m)) (sym shape) top_shaped;
    entries = h.entries;
    owned = h.owned;
  }
  perform-Holds (awaits f) (out, real, held) = record {
    error = h.error;
    finished = h.finished;
    resumed = h.resumed;
    shaped =
        subst (λ s. Shaped e (q ∷ s) n) (sym shape)
          (
            rw top_entry (ground arith),
            rw (top_entry, top_shaped.0) (link_back-IsStack top_shaped.1 q out real),
          );
    entries = (
      rw top_entry (ground arith),
      All-update m.entry q (m.entry x) (λ y z. z ≡ e) a.stack out' h.entries,
    );
    owned = (
      ground (arith, held),
      All-update m.owner q f (λ y z. m.handler z ≡ y) a.stack out' h.owned,
    );
  }
    where
      q : Ptr
      q = m.promise f

      n : Machine
      n = perform (awaits f) x m

      out' : has q a.stack ≡ false
      out' = rw shape out

  tail-All : (P : Ptr → Type 0) → All P a.stack → All P xs
  tail-All P k = (subst (All P) shape k).1

  -- Popping the innermost coroutine.
  pub pop-Holds :
      ((call_stack_pop e m).0 ≡ top_or_null xs)
      × Holds e (call_stack_pop e m).1 (record a { stack = xs })
  unfolding call_stack_pop
  pop-Holds = go xs top_shaped.1 (tail-All _ h.entries) (tail-All _ h.owned)
    where
      go :
          (ys : List Ptr)
          → IsStack m.links x ys
          → All (λ y. m.entry y ≡ e) ys
          → All (λ y. coroutine y m ≡ y) ys
          → ((call_stack_pop e m).0 ≡ top_or_null ys)
            × Holds e (call_stack_pop e m).1 (record a { stack = ys })
      go [] s k o = (
        ap (λ z. front z m.links) top_shaped.0 ∙ front-last s,
        record {
          error = h.error;
          finished = h.finished;
          resumed = h.resumed;
          shaped = rw (top_shaped.0, front-last s) (ground arith);
          entries = tt;
          owned = tt;
        },
      )
      go (y ∷ ys) s k o =
          let real : (y == null) ≡ false = ground (arith, s.real) in
          (
            ap (λ z. front z m.links) top_shaped.0 ∙ front-second s,
            record {
              error = h.error;
              finished = h.finished;
              resumed = h.resumed;
              shaped =
                  rw (top_shaped.0, front-second s, real) (ground arith, unlink_back-IsStack s);
              entries = k;
              owned = o;
            },
          )
