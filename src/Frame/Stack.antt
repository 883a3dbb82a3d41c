-- ===== src/Frame/Stack.antt =====
-- The links of promises as a stack, innermost first.
use cgo.Base.{◌∙◌, ◌≡◌, ◌≢◌, false, true, List, [], ◌∷◌, arith, has, Distinct}
use cgo.Linked.{Ptr, null, Heap, front, link_back, unlink_back}

-- Under `x` stand the promises of the list, linked both ways.
abbrev pub Below : Heap → Ptr → List Ptr → Type 0
Below h x [] = (h x).prev ≡ null
Below h x (y ∷ ys) = ((h x).prev ≡ y) × ((h y).next ≡ x) × Below h y ys

pub record IsStack (h : Heap) (x : Ptr) (ys : List Ptr) : Type 0 where
  pub top : (h x).next ≡ null
  pub below : Below h x ys
  pub distinct : Distinct (x ∷ ys)
  pub real : has null (x ∷ ys) ≡ false

-- A promise below is linked as before if the links of its neighbours are.
Below-frame :
    (h g : Heap) (x : Ptr) (ys : List Ptr)
    → (g x).prev ≡ (h x).prev
    → ((a : Ptr) → has a ys ≡ true → g a ≡ h a)
    → Below h x ys
    → Below g x ys
Below-frame h g x [] e f b = e ∙ b
Below-frame h g x (y ∷ ys) e f b = (
  e ∙ b.0,
  ground (arith, f y, b.1),
  Below-frame h g y ys (ground (arith, f y)) (λ a i. f a (ground arith)) b.2,
)

module _ {h : Heap} {x : Ptr} {ys : List Ptr} (s : IsStack h x ys) (q : Ptr)
    (fresh : has q (x ∷ ys) ≡ false) (q_real : q ≢ null) where
  -- `link_back` on the top puts a promise above it.
  pub link_back-IsStack : IsStack (link_back x q h) q (x ∷ ys)
  unfolding link_back
  link_back-IsStack = record {
    top = ground (arith, s.top);
    below = (
      ground (arith, s.top),
      ground (arith, s.top),
      Below-frame h (link_back x q h) x ys (ground (arith, s.top))
          (λ a i. ground (arith, s.top, apart a i)) s.below,
    );
    distinct = (fresh, s.distinct);
    real = ground (arith, s.real);
  }
    where
      apart : (a : Ptr) → has a ys ≡ true → (a ≢ x) × (a ≢ q)
      apart a i = (λ e. ground (arith, s.distinct, e), λ e. ground (arith, e))

module _ {h : Heap} {x y : Ptr} {ys : List Ptr} (s : IsStack h x (y ∷ ys)) where
  -- The promise below the top, which `unlink_back` leaves as the new top.
  pub front-second : front x h ≡ y
  unfolding front
  front-second = s.below.0

  pub unlink_back-IsStack : IsStack (unlink_back y h).1 y ys
  unfolding unlink_back
  unlink_back-IsStack = record {
    top = ground (arith, s.top, s.below, s.distinct, s.real);
    below =
        Below-frame h (unlink_back y h).1 y ys (ground (arith, s.top, s.below, s.distinct, s.real))
          (λ a i. ground (arith, s.top, s.below, s.real, apart a i)) s.below.2;
    distinct = s.distinct.1;
    real = ground (arith, s.real);
  }
    where
      apart : (a : Ptr) → has a ys ≡ true → (a ≢ x) × (a ≢ y)
      apart a i = (λ e. ground (arith, s.distinct, e), λ e. ground (arith, s.distinct, e))

pub front-last : {h : Heap} {x : Ptr} → IsStack h x [] → front x h ≡ null
unfolding front
front-last s = s.below
