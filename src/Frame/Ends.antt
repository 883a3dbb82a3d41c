-- ===== src/Frame/Ends.antt =====
-- How long the loop of `_call_stack_execute` goes on.
use cgo.Base.{
  ℕ, zero, suc, ◌≡◌, refl, ◌≢◌, ◌+◌, ◌*◌, ◌≤◌, ◌==◌, Bool, true, false, if◌then◌else◌, Option, none,
  some, List, [], ◌∷◌, ◌++◌, arith, length, length-append, update, ap, sym, ◌∙◌, subst, inl, inr,
  ◌⊎◌, Bool-cases,
}
use cgo.Linked.{Ptr}
use cgo.Frame.{Action, suspends, returns, awaits, raises, Ran, stopped, Machine, call_stack_execute}
use cgo.Frame.Calls.{
  Calls, rest_of, pop_call, onward, throw_to, conclude, acted, advance_top, advance, run, IsOrderly,
}
use cgo.Frame.Refine.{Holds}
use cgo.Frame.Execute.{SameRun, nonempty, call_stack_execute-SameRun}
use cgo.Frame.Unwind.{run-stops, run-goes, from_run}

-- After the coroutine `x` ran under the stack `z ∷ zs`, the loop ends, the coroutine on top has
-- left, or the stack is as it was, with another coroutine on top.
abbrev Went : Ptr → Ptr → List Ptr → List Ptr → Option Ran × Calls → Type 0
Went x z zs r (some w, b) = Unit {0}
Went x z zs r (none, b) =
    (((b.stack ≡ zs) × (zs ≢ [])) ⊎ ((b.stack ≡ z ∷ zs) × (z ≢ x))) × (b.resumed ≡ r)

module _ (x : Ptr) (b : Calls) where
  onward-other :
      (z : Ptr) (zs : List Ptr)
      → (onward x (z ∷ zs) ≡ some stopped) ⊎ ((onward x (z ∷ zs) ≡ none) × (z ≢ x))
  onward-other z zs = elim (Bool-cases (z == x)) [
    | inl y ↦ inl (rw y refl)
    | inr n ↦ inr (rw n refl, λ k. ground (arith, n, k))
  ]

  module _ (z : Ptr) (zs : List Ptr) where
    -- The coroutine on top has left.
    left-Went :
        (ys : List Ptr) (c : Calls)
        → c.stack ≡ ys
        → ys ≡ zs
        → c.resumed ≡ b.resumed
        → Went x z zs b.resumed (onward x ys, c)
    left-Went [] c s k r = tt
    left-Went (y ∷ ys) c s k r = elim (onward-other y ys) [
      | inl o ↦ subst (λ w. Went x z zs b.resumed (w, c)) (sym o) tt
      | inr o ↦
          (let n : zs ≢ [] = λ e. ground (arith, k ∙ e) in
            subst (λ w. Went x z zs b.resumed (w, c)) (sym o.0) (inl (s ∙ k, n), r))
    ]

    throw-Went :
        (v : ℕ) (ys : List Ptr) (c : Calls)
        → c.stack ≡ ys
        → ys ≡ zs
        → c.resumed ≡ b.resumed
        → Went x z zs b.resumed (throw_to x v ys c)
    unfolding throw_to
    throw-Went v [] c s k r = tt
    throw-Went v (y ∷ ys) c s k r =
        left-Went (y ∷ ys) (record c { error = update c.error y (some v) }) s k r

    conclude-Went : b.stack ≡ z ∷ zs → Went x z zs b.resumed (conclude x b)
    unfolding conclude
    conclude-Went s = by_error (b.error x)
      where
        by_end :
            (u : Bool)
            → Went x z zs b.resumed
                (if u then (onward x (rest_of b.stack), pop_call b) else (onward x b.stack, b))
        by_end true = left-Went (rest_of b.stack) (pop_call b) refl (ap rest_of s) refl
        by_end false = elim (onward-other z zs) [
          | inl o ↦ subst (λ w. Went x z zs b.resumed (w, b)) (sym (ap (onward x) s ∙ o)) tt
          | inr o ↦
              subst (λ w. Went x z zs b.resumed (w, b)) (sym (ap (onward x) s ∙ o.0))
                (inr (s, o.1), refl)
        ]

        by_error :
            (o : Option ℕ)
            → Went x z zs b.resumed (elim o [
              | some v ↦ throw_to x v (rest_of b.stack) (pop_call b)
              | none ↦
                  if b.finished x
                  then (onward x (rest_of b.stack), pop_call b)
                  else (onward x b.stack, b)
            ])
        by_error (some v) = throw-Went v (rest_of b.stack) (pop_call b) refl (ap rest_of s) refl
        by_error none = by_end (b.finished x)

-- From the resumption `limit` on, no coroutine awaits another.
abbrev pub IsBounded : (ℕ → Ptr → Action) → ℕ → Type 0
IsBounded act limit = (n : ℕ) (c f : Ptr) → limit ≤ n → act n c ≢ awaits f

module _ (q : Ptr → Ptr) (act : ℕ → Ptr → Action) (limit : ℕ) (bounded : IsBounded act limit) where
  -- A stack of `size` coroutines or fewer rounds is left, with `k` resumptions to the limit.
  abbrev Left : ℕ → Calls → Type 0
  Left size a =
      (k : ℕ) × (y : Ptr) × (ys : List Ptr) × (a.stack ≡ y ∷ ys)
      × (limit ≤ length a.resumed + k)
      × (k * 2 + length (y ∷ ys) ≤ size)

  abbrev Smaller : ℕ → Option Ran × Calls → Type 0
  Smaller size (some w, b) = Unit {0}
  Smaller size (none, b) = Left size b

  -- A step that is no await shortens the stack.
  Went-Smaller :
      (k : ℕ) (x : Ptr) (xs r : List Ptr) (s : Option Ran × Calls)
      → limit ≤ length r + k
      → Went x x xs r s
      → Smaller (k * 2 + length xs) s
  Went-Smaller k x xs r (some w, b) l g = tt
  Went-Smaller k x xs r (none, b) l (inl (s, n), e) =
      let t = nonempty xs n in (k, t.0, t.1, s ∙ t.2, rw e l, ground (arith, ap length t.2))
  Went-Smaller k x xs r (none, b) l (inr (s, n), e) = elim (n refl) [ ]

  -- After an await there is one less to come.
  Went-await :
      (k : ℕ) (x z : Ptr) (xs r : List Ptr) (s : Option Ran × Calls)
      → limit ≤ length r + k
      → Went x z (x ∷ xs) r s
      → Smaller (k * 2 + suc (length (x ∷ xs))) s
  Went-await k x z xs r (some w, b) l g = tt
  Went-await k x z xs r (none, b) l (inl (s, n), e) = (k, x, xs, s, rw e l, ground arith)
  Went-await k x z xs r (none, b) l (inr (s, n), e) = (k, z, x ∷ xs, s, rw e l, ground arith)

  weaken : {n size : ℕ} (s : Option Ran × Calls) → n ≤ size → Smaller n s → Smaller size s
  weaken (some w, b) l g = tt
  weaken (none, b) l (k, y, ys, s, g, z) = (k, y, ys, s, g, ground (arith, l, z))

  advance-Smaller :
      (k size : ℕ) (x : Ptr) (xs : List Ptr) (a : Calls)
      → a.stack ≡ x ∷ xs
      → limit ≤ length a.resumed + k
      → k * 2 + length (x ∷ xs) ≤ suc size
      → Smaller size (advance q act a)
  unfolding advance advance_top acted
  advance-Smaller k size x xs a s l z = by_action (act (length a.resumed) x) refl
    where
      a1 : Calls
      a1 = record a { resumed = a.resumed ++ x ∷ [] }

      longer : length a1.resumed ≡ suc (length a.resumed)
      longer = length-append a.resumed (x ∷ []) ∙ omega arith

      step :
          {t : Action}
          → act (length a.resumed) x ≡ t
          → advance q act a ≡ conclude x (acted q t x a1)
      step u = ap (λ y. advance_top q act y a) s ∙ ap (λ t. conclude x (acted q t x a1)) u

      going : limit ≤ length a1.resumed + k
      going = ground (arith, longer, l)

      fewer : k * 2 + length xs ≤ size
      fewer = ground (arith, z)

      by_action : (t : Action) → act (length a.resumed) x ≡ t → Smaller size (advance q act a)
      by_action suspends u = rw (step u) (
          weaken _ fewer
            (Went-Smaller k x xs a1.resumed (conclude x a1) going (conclude-Went x a1 x xs s)))
      by_action returns u =
          let b = acted q returns x a1 in
          rw (step u) (
            weaken _ fewer
              (Went-Smaller k x xs a1.resumed (conclude x b) going (conclude-Went x b x xs s)))
      by_action (raises v) u =
          let b = acted q (raises v) x a1 in
          rw (step u) (
            weaken _ fewer
              (Went-Smaller k x xs a1.resumed (conclude x b) going (conclude-Went x b x xs s)))
      by_action (awaits f) u = by_limit k l z
        where
          b : Calls
          b = acted q (awaits f) x a1

          by_limit :
              (k : ℕ)
              → limit ≤ length a.resumed + k
              → k * 2 + length (x ∷ xs) ≤ suc size
              → Smaller size (advance q act a)
          by_limit zero l z = elim (bounded (length a.resumed) x f (ground (arith, l)) u) [ ]
          by_limit (suc k) l z = rw (step u) (
              weaken _ (ground (arith, z)) (
                Went-await k x (q f) xs a1.resumed (conclude x b) (ground (arith, longer, l))
                  (conclude-Went x b (q f) (x ∷ xs) (ap (λ l. q f ∷ l) s))))

  run-ends :
      (size : ℕ) (a : Calls)
      → Left size a
      → (w : Ran) × (b : Calls) × (run q act size a ≡ some (w, b))
  run-ends zero a (k, x, xs, s, l, z) = ground (arith, z)
  run-ends (suc size) a (k, x, xs, s, l, z) =
      go (advance q act a) refl (advance-Smaller k size x xs a s l z) (λ b g. run-ends size b g)
    where
      go :
          (r : Option Ran × Calls)
          → advance q act a ≡ r
          → Smaller size r
          → ((b : Calls) → Left size b → (w : Ran) × (c : Calls) × (run q act size b ≡ some (w, c)))
          → (w : Ran) × (b : Calls) × (run q act (suc size) a ≡ some (w, b))
      go (some w, b) e g k = (w, b, run-stops q act size a w b e)
      go (none, b) e g k = let t = k b g in (t.0, t.1, run-goes q act size a b e ∙ t.2)

-- If each coroutine that is awaited is held by its frame and not yet on the stack, as far as the fuel goes,
-- and from the resumption `limit` on none awaits another, then `_call_stack_execute` on a stack that is not
-- empty ends: two rounds of fuel for each resumption until then, and one for each coroutine on the
-- stack, are enough.
pub call_stack_execute-ends :
    (act : ℕ → Ptr → Action) (limit k : ℕ) (f : Ptr) (m : Machine) (a : Calls)
    → IsBounded act limit
    → a.stack ≢ []
    → Holds (m.entry (m.promise f)) m a
    → IsOrderly m.promise act m.handler (k * 2 + length a.stack) a
    → limit ≤ length m.resumed + k
    → (w : Ran) × (n : Machine) × (call_stack_execute act (k * 2 + length a.stack) f m
        ≡ some (w, n))
call_stack_execute-ends act limit k f m a b ne h o l =
    let e = m.entry (m.promise f) in
    let size = k * 2 + length a.stack in
    let t = nonempty a.stack ne in
    let l' = subst (λ r. limit ≤ length r + k) h.resumed l in
    let r =
      run-ends m.promise act limit b size a (k, t.0, t.1, t.2, l', ground (arith, ap length t.2)) in
    let s = call_stack_execute-SameRun act size f m a ne h o in
    let n =
      from_run act e (call_stack_execute act size f m) r.0 r.1
        (subst (SameRun act e (call_stack_execute act size f m)) r.2 s) in
    (r.0, n.0, n.1)
