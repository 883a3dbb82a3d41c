-- ===== src/Linked/Uses.antt =====
-- `BaseLinked` as the queues use it, against plain lists: items enter by `tail.link_front`, leave by
-- `head.unlink_back` unless `head.back()` is the tail, and are withdrawn by `unlink_this`.
use cgo.Base.{
  ◌≡◌, refl, Bool, true, false, ◌==◌, if◌then◌else◌, List, [], ◌∷◌, ◌++◌, arith, has, has-append,
  ap, ◌∙◌, sym, subst, Bool-cases, inl, inr,
}
use cgo.Linked.{Ptr, null, Heap, back, link_front, unlink_this, unlink_back, unlink_from}
use cgo.Linked.Queue.{IsQueue, IsIsolated, push-append, push-SameOutside}
use cgo.Linked.Remove.{
  remove-IsQueue, remove-SameOutside, unlink_this_isolated, unlink_back_as_this, back-eq-tail_iff,
  unlink_from-append,
}

pub data Use : Type 0 where
  pushes : Ptr → Use
  pops : Use
  withdraws : Ptr → Use

-- What a use gives back: nothing, a node, or whether the node was linked.
pub data Reply : Type 0 where
  done : Reply
  taken : Ptr → Reply
  linked : Bool → Reply

abbrev pub on_links : Ptr → Ptr → Use → Heap → Reply × Heap
on_links head tail (pushes x) h = (done, link_front tail x h)
on_links head tail pops h =
    let r = unlink_back head h in if back head h == tail then (taken null, h) else (taken r.0, r.1)
on_links head tail (withdraws x) h = let r = unlink_this x h in (linked r.0, r.1)

abbrev pub on_list : Use → List Ptr → Reply × List Ptr
on_list (pushes x) xs = (done, xs ++ x ∷ [])
on_list pops [] = (taken null, [])
on_list pops (x ∷ xs) = (taken x, xs)
on_list (withdraws x) xs = (linked (has x xs), unlink_from x xs)

abbrev pub uses : {A : Type 0} → (Use → A → Reply × A) → List Use → A → List Reply × A
uses f [] a = ([], a)
uses f (u ∷ us) a = let r = f u a in let rest = uses f us r.1 in (r.0 ∷ rest.0, rest.1)

-- Real nodes are pushed that are not in the queue, and no sentinel is withdrawn.
abbrev pub IsFit : Ptr → Ptr → Use → List Ptr → Type 0
IsFit head tail (pushes x) xs = has x (null ∷ head ∷ tail ∷ xs) ≡ false
IsFit head tail pops xs = Unit {0}
IsFit head tail (withdraws x) xs = has x (head ∷ tail ∷ []) ≡ false

abbrev pub AllFit : Ptr → Ptr → List Use → List Ptr → Type 0
AllFit head tail [] xs = Unit {0}
AllFit head tail (u ∷ us) xs = IsFit head tail u xs × AllFit head tail us (on_list u xs).1

-- The queue `xs`, and no other node is linked.
pub record IsOnly (h : Heap) (head tail : Ptr) (xs : List Ptr) : Type 0 where
  pub queue : IsQueue h head tail xs
  pub alone : (a : Ptr) → has a (head ∷ tail ∷ xs) ≡ false → IsIsolated h a

has-split :
    (x : Ptr) (xs : List Ptr)
    → has x xs ≡ true
    → (l : List Ptr) × (r : List Ptr) × (xs ≡ l ++ x ∷ r) × (has x l ≡ false)
has-split x [] h = ground (arith, h)
has-split x (y ∷ xs) h = elim (Bool-cases (x == y)) [
  | inl e ↦ ([], xs, ground arith, refl)
  | inr n ↦
      (let (l, r, p, q) = has-split x xs (ground arith) in
        (y ∷ l, r, ap (λ zs. y ∷ zs) p, ground (arith, q, n)))
]

unlink_from_absent : (x : Ptr) (xs : List Ptr) → has x xs ≡ false → unlink_from x xs ≡ xs
unfolding unlink_from
unlink_from_absent x [] h = refl
unlink_from_absent x (y ∷ xs) h = ground (arith, unlink_from_absent x xs)

IsIsolated-same : (h g : Heap) (a : Ptr) → g a ≡ h a → IsIsolated h a → IsIsolated g a
IsIsolated-same h g a e i = (ap (λ l. l.prev) e ∙ i.0, ap (λ l. l.next) e ∙ i.1)

module _ {h : Heap} {head tail : Ptr} {xs : List Ptr} (o : IsOnly h head tail xs) where
  pushes-IsOnly :
      (x : Ptr)
      → IsFit head tail (pushes x) xs
      → IsOnly (link_front tail x h) head tail (xs ++ x ∷ [])
  pushes-IsOnly x f = record {
    queue = push-append o.queue x (ground arith) (ground arith);
    alone = λ a n.
        let g = link_front tail x h in
        IsIsolated-same h g a
          (push-SameOutside o.queue x (ground arith) (ground arith) a
            (ground (arith, n, has-append a xs (x ∷ []))))
          (o.alone a (ground (arith, n, has-append a xs (x ∷ []))));
  }

module _ {h : Heap} {head tail : Ptr} (xs : List Ptr) (x : Ptr) (ys : List Ptr)
    (o : IsOnly h head tail (xs ++ x ∷ ys)) where
  remove-IsOnly : IsOnly (unlink_this x h).1 head tail (xs ++ ys)
  remove-IsOnly = record {
    queue = r.1;
    alone = λ a n. elim (Bool-cases (a == x)) [
      | inl e ↦ subst (IsIsolated g) (ground (arith, e)) r.2
      | inr f ↦
          (let out : has a (head ∷ tail ∷ xs ++ x ∷ ys) ≡ false =
              ground (arith, n, f, has-append a xs ys, has-append a xs (x ∷ ys)) in
            IsIsolated-same h g a (remove-SameOutside xs x ys o.queue a out) (o.alone a out))
    ];
  }
    where
      g : Heap
      g = (unlink_this x h).1

      r : ((unlink_this x h).0 ≡ true) × IsQueue g head tail (xs ++ ys) × IsIsolated g x
      r = remove-IsQueue xs x ys o.queue

module _ {h : Heap} {head tail : Ptr} (xs : List Ptr) (o : IsOnly h head tail xs) where
  withdraws-IsOnly :
      (x : Ptr)
      → IsFit head tail (withdraws x) xs
      → ((unlink_this x h).0 ≡ has x xs) × IsOnly (unlink_this x h).1 head tail (unlink_from x xs)
  withdraws-IsOnly x f = elim (Bool-cases (has x xs)) [
    | inl y ↦
        (let (l, r, p, q) = has-split x xs y in
          let on : IsOnly h head tail (l ++ x ∷ r) = subst (IsOnly h head tail) p o in
          let e : unlink_from x xs ≡ l ++ r = ap (unlink_from x) p ∙ unlink_from-append x l r q in
          (
            (remove-IsQueue l x r on.queue).0 ∙ sym y,
            subst (IsOnly (unlink_this x h).1 head tail) (sym e) (remove-IsOnly l x r on),
          ))
    | inr n ↦
        (let (p, q) = unlink_this_isolated h x (o.alone x (ground arith)) in
          (p ∙ sym n, rw (q, unlink_from_absent x xs n) o))
  ]

pops-IsOnly :
    {h : Heap} {head tail : Ptr} (xs : List Ptr)
    → IsOnly h head tail xs
    → let r = on_links head tail pops h in
      let s = on_list pops xs in (r.0 ≡ s.0) × IsOnly r.1 head tail s.1
pops-IsOnly {h} {head} {tail} [] o =
    let e : (back head h == tail) ≡ true = ground (arith, (back-eq-tail_iff [] o.queue).1 refl) in
    rw e (refl, o)
pops-IsOnly {h} {head} {tail} (x ∷ xs) o =
    let e : (back head h == tail) ≡ false = ground (arith, (back-eq-tail_iff (x ∷ xs) o.queue).0) in
    rw (e, unlink_back_as_this x xs o.queue) (refl, remove-IsOnly [] x xs o)

-- One use.
on_links-on_list :
    (head tail : Ptr) (u : Use) (h : Heap) (xs : List Ptr)
    → IsOnly h head tail xs
    → IsFit head tail u xs
    → let r = on_links head tail u h in
      let s = on_list u xs in (r.0 ≡ s.0) × IsOnly r.1 head tail s.1
on_links-on_list head tail (pushes x) h xs o f = (refl, pushes-IsOnly o x f)
on_links-on_list head tail pops h xs o f = pops-IsOnly xs o
on_links-on_list head tail (withdraws x) h xs o f =
    let r = withdraws-IsOnly xs o x f in (ap linked r.0, r.1)

-- Any sequence of pushes of real nodes that are not in the queue, pops, and withdrawals of nodes that are no
-- sentinels, on a queue beside which no other node is linked, gives back what it gives back on the plain list of its
-- nodes: which nodes come out, and which withdrawals found their node; and the links are again those of the list.
pub uses-IsOnly :
    (head tail : Ptr) (us : List Use) (h : Heap) (xs : List Ptr)
    → IsOnly h head tail xs
    → AllFit head tail us xs
    → let r = uses (on_links head tail) us h in
      let s = uses on_list us xs in (r.0 ≡ s.0) × IsOnly r.1 head tail s.1
uses-IsOnly head tail [] h xs o f = (refl, o)
uses-IsOnly head tail (u ∷ us) h xs o f =
    let (e, next) = on_links-on_list head tail u h xs o f.0 in
    let (es, last) =
      uses-IsOnly head tail us (on_links head tail u h).1 (on_list u xs).1 next f.1 in
    (λ i. e i ∷ es i, last)
