-- ===== src/Frame/Moving.antt =====
-- How a stack of coroutines starts, and that frames may be moved meanwhile.
use cgo.Base.{
  ◌≡◌, refl, ◌≢◌, ◌==◌, true, false, List, [], ◌∷◌, arith, update, has, All, ap, sym, ◌∙◌,
  Bool-cases, inl, inr, ◌⊎◌, subst,
}
use cgo.Linked.{Ptr, null}
use cgo.Frame.{Machine, coroutine, call_stack_create, take_over, move_frame, destroy_frame}
use cgo.Frame.Calls.{Calls}
use cgo.Frame.Refine.{Holds, Shaped}

-- `_call_stack_create` for a frame that holds an unlinked coroutine makes that coroutine the
-- only one of its stack, and its own entry.
pub call_stack_create-Holds :
    (f p : Ptr) (m : Machine)
    → m.promise f ≡ p
    → p ≢ null
    → ((m.links p).prev ≡ null) × ((m.links p).next ≡ null)
    → coroutine p m ≡ p
    → ((call_stack_create f m).entry p ≡ p)
      × Holds p
          (call_stack_create f m)
          (record { stack = p ∷ []; error = m.error; finished = m.finished; resumed = m.resumed })
unfolding call_stack_create
call_stack_create-Holds f p m k n l o = rw k (
  ground arith,
  record {
    error = refl;
    finished = refl;
    resumed = refl;
    shaped = (
      ground arith,
      record { top = l.1; below = l.0; distinct = (refl, tt); real = ground (arith, n) },
    );
    entries = (ground arith, tt);
    owned = (o, tt);
  },
)

-- Coroutines are held as before once a frame is moved.
move-owned :
    (this rhs : Ptr) (m : Machine) (ys : List Ptr)
    → this ≢ rhs
    → m.handler this ≡ null
    → m.handler rhs ≡ m.promise rhs
    → m.owner (m.promise rhs) ≡ rhs
    → has null ys ≡ false
    → All (λ y. coroutine y m ≡ y) ys
    → All (λ y. coroutine y (take_over this rhs m) ≡ y) ys
unfolding take_over
move-owned this rhs m [] d t h o r a = tt
move-owned this rhs m (y ∷ ys) d t h o r (k, ks) = (
  here (Bool-cases (y == m.promise rhs)),
  move-owned this rhs m ys d t h o (ground (arith, r)) ks,
)
  where
    held : Ptr → Ptr
    held = update (update m.handler this (m.handler rhs)) rhs null

    free : m.owner y ≢ this
    free e = ground (arith, r, sym k ∙ ap m.handler e ∙ t)

    here :
        ((y == m.promise rhs) ≡ true) ⊎ ((y == m.promise rhs) ≡ false)
        → coroutine y (take_over this rhs m) ≡ y
    here (inl e) =
        let u : update m.owner (m.promise rhs) this y ≡ this = ground (arith, e) in
        let v : held this ≡ m.handler rhs = ground (arith, d) in
        ap held u ∙ v ∙ h ∙ ground (arith, e)
    here (inr e) =
        let u : update m.owner (m.promise rhs) this y ≡ m.owner y = ground (arith, e) in
        let other : m.owner y ≢ rhs = λ z. ground (arith, e, sym k ∙ ap m.handler z ∙ h) in
        let v : held (m.owner y) ≡ m.handler (m.owner y) = ground (arith, other, free) in
        ap held u ∙ v ∙ k

move-Shaped :
    (e this rhs : Ptr) (m : Machine) (l : List Ptr)
    → Shaped e l m
    → Shaped e l (take_over this rhs m)
unfolding take_over
move-Shaped e this rhs m [] s = s
move-Shaped e this rhs m (x ∷ xs) s = s

Shaped-real : (e : Ptr) (m : Machine) (l : List Ptr) → Shaped e l m → has null l ≡ false
Shaped-real e m [] s = refl
Shaped-real e m (x ∷ xs) s = s.1.real

take_over-Holds :
    (e this rhs : Ptr) (m : Machine) (a : Calls)
    → this ≢ rhs
    → m.handler this ≡ null
    → m.handler rhs ≡ m.promise rhs
    → m.owner (m.promise rhs) ≡ rhs
    → Holds e m a
    → Holds e (take_over this rhs m) a
unfolding take_over
take_over-Holds e this rhs m a d t h o k = record {
  error = k.error;
  finished = k.finished;
  resumed = k.resumed;
  shaped = move-Shaped e this rhs m a.stack k.shaped;
  entries = k.entries;
  owned = move-owned this rhs m a.stack d t h o (Shaped-real e m a.stack k.shaped) k.owned;
}

-- A frame without a coroutine has nothing to destroy.
destroy_frame-empty : (this : Ptr) (m : Machine) → m.handler this ≡ null → destroy_frame this m ≡ m
unfolding destroy_frame
destroy_frame-empty this m e =
    let z : (m.handler this == null) ≡ true = ground (arith, e) in rw z refl

take_over-empty : (this rhs : Ptr) (m : Machine) → (take_over this rhs m).handler rhs ≡ null
unfolding take_over
take_over-empty this rhs m = ground arith

-- The move constructor of a frame, for a new frame `this` and a frame `rhs` that holds its
-- coroutine, keeps the stack of coroutines as it is, whether that coroutine is on it or not; and
-- the destructor of `rhs` destroys nothing afterwards.
pub move_frame-Holds :
    (e this rhs : Ptr) (m : Machine) (a : Calls)
    → this ≢ rhs
    → m.handler this ≡ null
    → m.handler rhs ≡ m.promise rhs
    → m.owner (m.promise rhs) ≡ rhs
    → Holds e m a
    → Holds e (move_frame this rhs m) a
      × (destroy_frame rhs (move_frame this rhs m) ≡ move_frame this rhs m)
unfolding move_frame
move_frame-Holds e this rhs m a d t h o k =
    subst (λ n. Holds e n a × (destroy_frame rhs n ≡ n)) (sym same)
      (
        take_over-Holds e this rhs m a d t h o k,
        destroy_frame-empty rhs (take_over this rhs m) (take_over-empty this rhs m),
      )
  where
    same : move_frame this rhs m ≡ take_over this rhs m
    same = ap (take_over this rhs) (destroy_frame-empty this m t)
