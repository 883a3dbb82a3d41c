-- ===== src/Frame/Destroy.antt =====
-- `_call_stack_destroy` on a stack of linked promises.
use cgo.Base.{
  suc, ◌≡◌, refl, ◌≢◌, ◌==◌, false, some, List, [], ◌∷◌, ◌++◌, arith, length, update, has, Distinct,
  All, ap, sym, ◌∙◌, subst, append_assoc,
}
use cgo.Linked.{Ptr, null, front}
use cgo.Frame.{Machine, coroutine, destroy_from, call_stack_destroy}
use cgo.Frame.Stack.{Below}
use cgo.Frame.Calls.{Calls}
use cgo.Frame.Refine.{Holds, top_shaped}
use cgo.Frame.Execute.{nonempty}

-- The coroutines of the stack, held by their owners, are destroyed.
abbrev Gone : List Ptr → Machine → Machine → Type 0
Gone xs m n =
    (n.destroyed ≡ m.destroyed ++ xs)
    × (n.owner ≡ m.owner)
    × All (λ x. n.handler (m.owner x) ≡ null) xs
    × ((f : Ptr) → m.handler f ≡ null → n.handler f ≡ null)

-- One is destroyed.
abbrev lose : Ptr → Machine → Machine
lose x m = record m {
  handler = update m.handler (m.owner x) null;
  destroyed = m.destroyed ++ x ∷ [];
}

-- The others are held by other frames.
lose-owned :
    (x : Ptr) (m : Machine) (ys : List Ptr)
    → has x ys ≡ false
    → coroutine x m ≡ x
    → All (λ y. coroutine y m ≡ y) ys
    → All (λ y. coroutine y (lose x m) ≡ y) ys
lose-owned x m [] d o a = tt
lose-owned x m (y ∷ ys) d o a =
    let apart : m.owner x ≢ m.owner y = λ k. ground (arith, d, sym o ∙ ap m.handler k ∙ a.0) in
    (ground (arith, apart, a.0), lose-owned x m ys (ground arith) o a.1)

destroy_from-Gone :
    (x : Ptr) (ys : List Ptr) (m : Machine)
    → Below m.links x ys
    → Distinct (x ∷ ys)
    → has null (x ∷ ys) ≡ false
    → All (λ y. coroutine y m ≡ y) (x ∷ ys)
    → (n : Machine) × (destroy_from (suc (suc (length ys))) x m ≡ some n) × Gone (x ∷ ys) m n
unfolding destroy_from front
destroy_from-Gone x [] m b d r (o, a) =
    let real : (x == null) ≡ false = ground (arith, r) in
    (lose x m, rw (real, b, o) refl, (refl, refl, (ground arith, tt), λ f k. ground (arith, k)))
destroy_from-Gone x (y ∷ ys) m b (d, ds) r (o, a) =
    let real : (x == null) ≡ false = ground (arith, r) in
    let k =
      destroy_from-Gone y ys (lose x m) b.2 ds (ground (arith, r))
        (lose-owned x m (y ∷ ys) d o a) in
    let g = k.2 in
    (
      k.0,
      rw (real, b.0, o) k.1,
      (
        g.0 ∙ append_assoc m.destroyed (x ∷ []) (y ∷ ys),
        g.1,
        (g.3 (m.owner x) (ground arith), g.2),
        λ f z. g.3 f (ground (arith, z)),
      ),
    )

-- `_call_stack_destroy` on a stack of linked promises: with fuel for one round more than there are
-- coroutines it ends, has destroyed every coroutine of the stack exactly once, innermost first, and
-- no owner of one holds a coroutine any longer.
pub call_stack_destroy-Gone :
    (f : Ptr) (m : Machine) (a : Calls)
    → a.stack ≢ []
    → Holds (m.entry (m.promise f)) m a
    → (n : Machine) × (call_stack_destroy (suc (length a.stack)) f m ≡ some n)
      × (n.destroyed ≡ m.destroyed ++ a.stack)
      × All (λ x. n.handler (m.owner x) ≡ null) a.stack
unfolding call_stack_destroy
call_stack_destroy-Gone f m a ne h =
    let e = m.entry (m.promise f) in
    let t = nonempty a.stack ne in
    let s = top_shaped e m a t.0 t.1 t.2 h in
    let o = subst (All (λ y. coroutine y m ≡ y)) t.2 h.owned in
    let k = destroy_from-Gone t.0 t.1 m s.1.below s.1.distinct s.1.real o in
    rw (t.2, s.0) (k.0, k.1, k.2.0, k.2.2)
