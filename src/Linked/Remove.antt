-- ===== src/Linked/Remove.antt =====
-- Withdrawal by `unlink_this` and removal of the first item by `unlink_back`.
use mathlib.Core.Path.{fun_ext}
use cgo.Base.{
  ◌≡◌, refl, ◌≢◌, true, false, ◌||◌, List, [], ◌∷◌, ◌++◌, arith, has, has-append, Distinct, ◌==◌,
  if◌then◌else◌, append-nil,
}
use cgo.Linked.{Ptr, null, Heap, back, unlink_this, unlink_back, unlink_from}
use cgo.Linked.Chain.{Chain, last, has-last, prev-last, Chain-append, Chain-split, frame, relink}
use cgo.Linked.Queue.{IsQueue, SameOutside, IsIsolated}

-- `unlink_this` link by link, at a node with two neighbours.
module _ (h : Heap) (x : Ptr) (l_ne : x ≢ (h x).prev) (n_ne : x ≢ (h x).next)
    (apart : (h x).prev ≢ (h x).next) (l_real : (h x).prev ≢ null)
    (n_real : (h x).next ≢ null) where
  next-unlink_this :
      (a : Ptr)
      → ((unlink_this x h).1 a).next
        ≡ (if x == a then null else if (h x).prev == a then (h x).next else (h a).next)
  unfolding unlink_this
  next-unlink_this a = ground arith

  prev-unlink_this :
      (a : Ptr)
      → ((unlink_this x h).1 a).prev
        ≡ (if x == a then null else if (h x).next == a then (h x).prev else (h a).prev)
  unfolding unlink_this
  prev-unlink_this a = ground arith

  unlink_this-true : (unlink_this x h).0 ≡ true
  unfolding unlink_this
  unlink_this-true = ground arith

-- The node behind `x`.
abbrev first : List Ptr → Ptr → Ptr
first [] t = t
first (y ∷ ys) t = y

next-first :
    (h : Heap) (x : Ptr) (ys : List Ptr) (t : Ptr) → Chain h x ys t → (h x).next ≡ first ys t
next-first h x [] t c = c.0
next-first h x (y ∷ ys) t c = c.0

Distinct-split :
    (xs : List Ptr) (x : Ptr) (ys : List Ptr)
    → Distinct (xs ++ x ∷ ys)
    → Distinct (xs ++ ys) × (has x (xs ++ ys) ≡ false) × Distinct xs
Distinct-split [] x ys d = (d.1, d.0, tt)
Distinct-split (y ∷ xs) x ys d =
    let r = Distinct-split xs x ys d.1 in
    let p = has-append y xs (x ∷ ys) in
    let s = has-append y xs ys in
    let u = has-append x xs ys in
    ((ground (arith, p, s), r.0), ground (arith, p, u, r.1), (ground (arith, p), r.2))

-- The chain without `x`.
bridge :
    (h g : Heap) (p : Ptr) (xs : List Ptr) (x : Ptr) (ys : List Ptr) (t : Ptr)
    → Chain h x ys t
    → Chain g p xs (first ys t)
    → ((a : Ptr) → has a ys ≡ true → (g a).next ≡ (h a).next)
    → ((a : Ptr) → has a ys ≡ true → a ≢ first ys t → (g a).prev ≡ (h a).prev)
    → Distinct ys
    → has t ys ≡ false
    → (t ≢ first ys t → (g t).prev ≡ (h t).prev)
    → Chain g p (xs ++ ys) t
bridge h g p xs x [] t c d nexts prevs w o e = rw append-nil d
bridge h g p xs x (y ∷ ys) t c d nexts prevs w o e =
    Chain-append g p xs y ys t d
      (frame h g y ys t c.2 nexts (λ a i. prevs a (ground arith) (ground arith)) (e (ground arith)))

has-first : (ys : List Ptr) (t : Ptr) → has (first ys t) (t ∷ ys) ≡ true
has-first [] t = ground arith
has-first (y ∷ ys) t = ground arith

Distinct-apart :
    (a : Ptr) (xs ys : List Ptr) → Distinct (xs ++ ys) → has a xs ≡ true → has a ys ≡ false
Distinct-apart a [] ys d i = cc
Distinct-apart a (x ∷ xs) ys d i =
    ground (arith, Distinct-apart a xs ys d.1, has-append x xs ys, d.0)

Distinct-right : (xs ys : List Ptr) → Distinct (xs ++ ys) → Distinct ys
Distinct-right [] ys d = d
Distinct-right (x ∷ xs) ys d = Distinct-right xs ys d.1

module _ {h : Heap} {head tail : Ptr} (xs : List Ptr) (x : Ptr) (ys : List Ptr)
    (q : IsQueue h head tail (xs ++ x ∷ ys)) where
  parts : Chain h head xs x × Chain h x ys tail
  parts = Chain-split h head xs x ys tail q.chain

  before : (h x).prev ≡ last head xs
  before = prev-last h head xs parts.0

  after : (h x).next ≡ first ys tail
  after = next-first h x ys tail parts.1

  nodes : Distinct (xs ++ ys) × (has x (xs ++ ys) ≡ false) × Distinct xs
  nodes = Distinct-split xs x ys q.distinct.1.1

  -- What the nodes of the queue are not.
  outs :
      (has head xs ≡ false)
      × (has head ys ≡ false)
      × (has tail xs ≡ false)
      × (has tail ys ≡ false)
      × (has x xs ≡ false)
      × (has x ys ≡ false)
      × (x ≢ head)
      × (x ≢ tail)
      × (head ≢ tail)
      × (has null xs ≡ false)
      × (has null ys ≡ false)
  outs = (
    ground (arith, q.distinct, p),
    ground (arith, q.distinct, p),
    ground (arith, q.distinct, r),
    ground (arith, q.distinct, r),
    ground (arith, nodes, s),
    ground (arith, nodes, s),
    ground (arith, q.distinct, p),
    ground (arith, q.distinct, r),
    ground (arith, q.distinct),
    ground (arith, q.real, u),
    ground (arith, q.real, u),
  )
    where
      p : has head (xs ++ x ∷ ys) ≡ (has head xs || has head (x ∷ ys))
      p = has-append head xs (x ∷ ys)

      r : has tail (xs ++ x ∷ ys) ≡ (has tail xs || has tail (x ∷ ys))
      r = has-append tail xs (x ∷ ys)

      s : has x (xs ++ ys) ≡ (has x xs || has x ys)
      s = has-append x xs ys

      u : has null (xs ++ x ∷ ys) ≡ (has null xs || has null (x ∷ ys))
      u = has-append null xs (x ∷ ys)

  neighbours :
      (x ≢ (h x).prev)
      × (x ≢ (h x).next)
      × ((h x).prev ≢ (h x).next)
      × ((h x).prev ≢ null)
      × ((h x).next ≢ null)
  neighbours =
      let b = before in
      let a = after in
      let l = has-last head xs in
      let f = has-first ys tail in
      let o = outs in
      let w = Distinct-apart (last head xs) xs ys nodes.0 in
      (ground arith, ground arith, ground arith, ground (arith, q.real), ground (arith, q.real))

  remove-Chain : Chain (unlink_this x h).1 head (xs ++ ys) tail
  remove-Chain =
      let (e1, e2, e3, e4, e5) = neighbours in
      let n = next-unlink_this h x e1 e2 e3 e4 e5 in
      let p = prev-unlink_this h x e1 e2 e3 e4 e5 in
      let b = before in
      let a = after in
      let o = outs in
      let g = (unlink_this x h).1 in
      let f = has-first ys tail in
      let l = has-last head xs in
      let w = λ (a : Ptr). Distinct-apart a xs ys nodes.0 in
      bridge h g head xs x ys tail parts.1
        (relink h g head xs x parts.0 (o.0, nodes.2) (λ c i k. ground (arith, n c, outs))
          (λ c i. ground (arith, p c, w c, outs)) (ground (arith, n (last head xs), outs))
          (ground (arith, p (first ys tail), outs)))
        (λ c i. ground (arith, n c, w c, outs)) (λ c i k. ground (arith, p c, outs))
        (Distinct-right xs ys nodes.0) o.3 (λ k. ground (arith, p tail, outs))

  -- `unlink_this` withdraws a node from anywhere in the queue, leaves the others in order and the
  -- node unlinked, and says that it was linked.
  pub remove-IsQueue :
      ((unlink_this x h).0 ≡ true)
      × IsQueue (unlink_this x h).1 head tail (xs ++ ys)
      × IsIsolated (unlink_this x h).1 x
  remove-IsQueue =
      let (e1, e2, e3, e4, e5) = neighbours in
      (
        unlink_this-true h x e1 e2 e3 e4 e5,
        record {
          chain = remove-Chain;
          distinct = (
            ground (arith, outs, has-append head xs ys),
            (ground (arith, outs, has-append tail xs ys), nodes.0),
          );
          real = ground (arith, outs, has-append null xs ys, q.real);
        },
        (
          ground (arith, prev-unlink_this h x e1 e2 e3 e4 e5 x),
          ground (arith, next-unlink_this h x e1 e2 e3 e4 e5 x),
        ),
      )

  pub remove-SameOutside : SameOutside (head ∷ tail ∷ xs ++ x ∷ ys) h (unlink_this x h).1
  unfolding unlink_this
  remove-SameOutside a o =
      let (e1, e2, e3, e4, e5) = neighbours in
      ground
        (arith, before, after, has-last head xs, has-first ys tail, has-append a xs (x ∷ ys), o)

-- A node that is not linked stays as it is, and `unlink_this` says so: withdrawing twice is
-- harmless.
pub unlink_this_isolated :
    (h : Heap) (x : Ptr) → IsIsolated h x → (unlink_this x h).0 ≡ false × (unlink_this x h).1 ≡ h
unfolding unlink_this
unlink_this_isolated h x i = (ground arith, fun_ext λ a. ground arith)

module _ {h : Heap} {head tail : Ptr} (x : Ptr) (xs : List Ptr)
    (q : IsQueue h head tail (x ∷ xs)) where
  unlink_back-first : (unlink_back head h).0 ≡ x
  unfolding unlink_back
  unlink_back-first = ground (arith, q.chain, q.real)

  unlink_back-rest : (a : Ptr) → (unlink_back head h).1 a ≡ (unlink_this x h).1 a
  unfolding unlink_back unlink_this
  unlink_back-rest a =
      let (e1, e2, e3, e4, e5) = neighbours [] x xs q in ground (arith, q.chain, q.real)

  pub unlink_back_as_this : unlink_back head h ≡ (x, (unlink_this x h).1)
  unlink_back_as_this = λ i. (unlink_back-first i, fun_ext unlink_back-rest i)

  -- `head.unlink_back` on a queue that is not empty returns the first node, leaves it unlinked and
  -- the others in order.
  pub pop-cons :
      ((unlink_back head h).0 ≡ x)
      × IsQueue (unlink_back head h).1 head tail xs
      × IsIsolated (unlink_back head h).1 x
  pop-cons = let r = remove-IsQueue [] x xs q in rw unlink_back_as_this (refl, r.1, r.2)

-- The code's test for an empty queue.
pub back-eq-tail_iff :
    {h : Heap} {head tail : Ptr} (xs : List Ptr)
    → IsQueue h head tail xs
    → ((back head h ≡ tail → xs ≡ []) × (xs ≡ [] → back head h ≡ tail))
unfolding back
back-eq-tail_iff [] q = ((λ e. refl), λ e. q.chain.0)
back-eq-tail_iff (x ∷ xs) q = ((λ e. ground (arith, q.chain, q.distinct)), λ e. cc)

-- The list view of `unlink_this` agrees with the linked one.
pub unlink_from-append :
    (x : Ptr) (xs ys : List Ptr) → has x xs ≡ false → unlink_from x (xs ++ x ∷ ys) ≡ xs ++ ys
unfolding unlink_from
unlink_from-append x [] ys o = ground arith
unlink_from-append x (y ∷ xs) ys o = ground (arith, unlink_from-append x xs ys)
