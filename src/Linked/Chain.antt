-- ===== src/Linked/Chain.antt =====
-- What a stretch of linked nodes stands for, and how it survives changes of the heap.
use cgo.Base.{◌≡◌, ◌≢◌, true, List, [], ◌∷◌, ◌++◌, arith, has, Distinct}
use cgo.Linked.{Ptr, Heap}

-- From `p` the links lead through `xs` to `t`, and back.
abbrev pub Chain : Heap → Ptr → List Ptr → Ptr → Type 0
Chain h p [] t = ((h p).next ≡ t) × ((h t).prev ≡ p)
Chain h p (x ∷ xs) t = ((h p).next ≡ x) × ((h x).prev ≡ p) × Chain h x xs t

-- The last node before the end of a chain.
abbrev pub last : Ptr → List Ptr → Ptr
last p [] = p
last p (x ∷ xs) = last x xs

pub has-last : (p : Ptr) (xs : List Ptr) → has (last p xs) (p ∷ xs) ≡ true
has-last p [] = ground arith
has-last p (x ∷ xs) = ground (arith, has-last x xs)

pub prev-last :
    (h : Heap) (p : Ptr) (xs : List Ptr) {t : Ptr} → Chain h p xs t → (h t).prev ≡ last p xs
prev-last h p [] c = c.1
prev-last h p (x ∷ xs) c = prev-last h x xs c.2

pub Chain-append :
    (h : Heap) (p : Ptr) (xs : List Ptr) (x : Ptr) (ys : List Ptr) (t : Ptr)
    → Chain h p xs x
    → Chain h x ys t
    → Chain h p (xs ++ x ∷ ys) t
Chain-append h p [] x ys t c d = (c.0, c.1, d)
Chain-append h p (y ∷ xs) x ys t c d = (c.0, c.1, Chain-append h y xs x ys t c.2 d)

pub Chain-split :
    (h : Heap) (p : Ptr) (xs : List Ptr) (x : Ptr) (ys : List Ptr) (t : Ptr)
    → Chain h p (xs ++ x ∷ ys) t
    → Chain h p xs x × Chain h x ys t
Chain-split h p [] x ys t c = ((c.0, c.1), c.2)
Chain-split h p (y ∷ xs) x ys t c = let r = Chain-split h y xs x ys t c.2 in ((c.0, c.1, r.0), r.1)

module _ (h g : Heap) where
  -- A chain stays if its own links stay.
  pub frame :
      (p : Ptr) (xs : List Ptr) (t : Ptr)
      → Chain h p xs t
      → ((a : Ptr) → has a (p ∷ xs) ≡ true → (g a).next ≡ (h a).next)
      → ((a : Ptr) → has a xs ≡ true → (g a).prev ≡ (h a).prev)
      → (g t).prev ≡ (h t).prev
      → Chain g p xs t
  frame p [] t c nexts prevs end = ground (arith, nexts p)
  frame p (x ∷ xs) t c nexts prevs end = (
    ground (arith, nexts p),
    ground (arith, prevs x),
    frame x xs t c.2 (λ a i. nexts a (ground arith)) (λ a i. prevs a (ground arith)) end,
  )

  -- A chain leads elsewhere when its last link does.
  pub relink :
      (p : Ptr) (xs : List Ptr) (t : Ptr) {t' : Ptr}
      → Chain h p xs t
      → Distinct (p ∷ xs)
      → ((a : Ptr) → has a (p ∷ xs) ≡ true → a ≢ last p xs → (g a).next ≡ (h a).next)
      → ((a : Ptr) → has a xs ≡ true → (g a).prev ≡ (h a).prev)
      → (g (last p xs)).next ≡ t'
      → (g t').prev ≡ last p xs
      → Chain g p xs t'
  relink p [] t c d nexts prevs e f = (e, f)
  relink p (x ∷ xs) t c d nexts prevs e f = (
    ground (arith, nexts p, has-last x xs),
    ground (arith, prevs x),
    relink x xs t c.2 d.1 (λ a i. nexts a (ground arith)) (λ a i. prevs a (ground arith)) e f,
  )
