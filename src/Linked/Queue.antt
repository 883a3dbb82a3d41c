-- ===== src/Linked/Queue.antt =====
-- `BaseLinked` used as a queue between two sentinels, as `Scheduler`, `Condition` and `BaseChannel`
-- use it: items enter by `tail.link_front`, leave by `head.unlink_back`, and are withdrawn by
-- `unlink_this`.
use cgo.Base.{
  ◌≡◌, refl, ◌≢◌, true, false, List, [], ◌∷◌, ◌++◌, arith, has, has-append, Distinct, ◌==◌,
  if◌then◌else◌,
}
use cgo.Linked.{Ptr, null, Heap, link_back, link_front}
use cgo.Linked.Chain.{Chain, last, has-last, prev-last, Chain-append, relink}

-- The sentinels and the items between them are real, distinct nodes, linked in order both ways.
pub record IsQueue (h : Heap) (head tail : Ptr) (xs : List Ptr) : Type 0 where
  pub chain : Chain h head xs tail
  pub distinct : Distinct (head ∷ tail ∷ xs)
  pub real : has null (head ∷ tail ∷ xs) ≡ false

-- `g` differs from `h` at most at the nodes of `xs`.
abbrev pub SameOutside : List Ptr → Heap → Heap → Type 0
SameOutside xs h g = (a : Ptr) → has a xs ≡ false → g a ≡ h a

abbrev pub IsIsolated : Heap → Ptr → Type 0
IsIsolated h x = ((h x).prev ≡ null) × ((h x).next ≡ null)

pub link_back-IsQueue :
    (h : Heap) (head tail : Ptr)
    → IsIsolated h head
    → IsIsolated h tail
    → head ≢ tail
    → head ≢ null
    → tail ≢ null
    → IsQueue (link_back head tail h) head tail []
unfolding link_back
link_back-IsQueue h head tail i j e p q = record {
  chain = (ground arith, ground arith);
  distinct = (ground arith, (refl, tt));
  real = ground arith;
}

Distinct-append :
    (xs : List Ptr) (x : Ptr) → Distinct xs → has x xs ≡ false → Distinct (xs ++ x ∷ [])
Distinct-append [] x d o = (refl, tt)
Distinct-append (y ∷ xs) x d o =
    (ground (arith, has-append y xs (x ∷ [])), Distinct-append xs x d.1 (ground arith))

-- `link_front` link by link, where the three nodes differ and the old neighbour is real.
module _ (h : Heap) (t x : Ptr) (ne : x ≢ t) (apart : x ≢ (h t).prev) (inner : (h t).prev ≢ t)
    (real : (h t).prev ≢ null) where
  next-link_front :
      (a : Ptr)
      → (link_front t x h a).next
        ≡ (if (h t).prev == a then x else if x == a then t else (h a).next)
  unfolding link_front
  next-link_front a = ground arith

  prev-link_front :
      (a : Ptr)
      → (link_front t x h a).prev
        ≡ (if t == a then x else if x == a then (h t).prev else (h a).prev)
  unfolding link_front
  prev-link_front a = ground arith

has-append_right : (a : Ptr) (xs ys : List Ptr) → has a ys ≡ true → has a (xs ++ ys) ≡ true
has-append_right a xs ys i = ground (arith, has-append a xs ys)

module _ {h : Heap} {head tail : Ptr} {xs : List Ptr} (q : IsQueue h head tail xs) (x : Ptr)
    (out : has x (head ∷ tail ∷ xs) ≡ false) (real : x ≢ null) where
  -- The last node is real, and is neither the tail nor the new node.
  last_facts :
      ((h tail).prev ≡ last head xs)
      × (x ≢ (h tail).prev)
      × ((h tail).prev ≢ tail)
      × ((h tail).prev ≢ null)
  last_facts = (e, ground (arith, m, e), ground (arith, m, e), ground (arith, m, e))
    where
      m : has (last head xs) (head ∷ xs) ≡ true
      m = has-last head xs

      e : (h tail).prev ≡ last head xs
      e = prev-last h head xs q.chain

  push-Chain : Chain (link_front tail x h) head (xs ++ x ∷ []) tail
  push-Chain =
      let (e, f1, f2, f3) = last_facts in
      let ne : x ≢ tail = ground arith in
      let n = next-link_front h tail x ne f1 f2 f3 in
      let p = prev-link_front h tail x ne f1 f2 f3 in
      Chain-append (link_front tail x h) head xs x [] tail
        (relink h (link_front tail x h) head xs tail q.chain (ground (arith, q.distinct))
          (λ a i l. ground (arith, n a, e)) (λ a i. ground (arith, p a))
          (ground (arith, n (last head xs), e)) (ground (arith, p x, e)))
        (ground (arith, n x, f1), ground (arith, p tail))

  -- `tail.link_front` puts a node that is not in the queue, and not null, behind the others.
  pub push-append : IsQueue (link_front tail x h) head tail (xs ++ x ∷ [])
  push-append = record {
    chain = push-Chain;
    distinct = (
      ground (arith, has-append head xs (x ∷ []), q.distinct),
      (
        ground (arith, has-append tail xs (x ∷ []), q.distinct),
        Distinct-append xs x q.distinct.1.1 (ground arith),
      ),
    );
    real = ground (arith, has-append null xs (x ∷ []), q.real);
  }

  -- It touches no node outside the queue.
  pub push-SameOutside : SameOutside (x ∷ head ∷ tail ∷ xs) h (link_front tail x h)
  unfolding link_front
  push-SameOutside a o = let (e, f1, f2, f3) = last_facts in ground (arith, e, has-last head xs)
