-- ===== src/Context/Joining.antt =====
-- That a context which is shut down comes to an end.
use cgo.Base.{
  ℕ, zero, suc, ◌≡◌, refl, ◌≤◌, ◌<◌, true, Option, none, some, List, [], ◌∷◌, ◌++◌, arith, All,
  length, length-append, append_assoc, append-nil, ap, sym, ◌∙◌, subst, ◌≢◌, Bool-cases, inl, inr,
  All-append,
}
use cgo.Context.{
  Phase, registering, at_start, looping, at_end, closing, ended, rank, Context, all_reached,
  shutdown, joined, step_worker, nth, set_nth, step_at, Turn, steps, take_turns,
}

-- Workers go on once each, `n` of them from the worker `i`.
abbrev pub turns_from : ℕ → ℕ → List Turn
turns_from i zero = []
turns_from i (suc n) = steps i ∷ turns_from (suc i) n

All-all_reached : (k : ℕ) (ps : List Phase) → All (λ p. k ≤ rank p) ps → all_reached k ps ≡ true
All-all_reached k [] a = refl
All-all_reached k (p ∷ ps) a = ground (arith, a.0, All-all_reached k ps a.1)

-- Where a worker stands after its step.
abbrev after : Phase → Option Phase → Phase
after p none = p
after p (some q) = q

module _ (c : Context) (shut : c.finished ≡ true) (k : ℕ) (early : k < 5)
    (all : All (λ p. k ≤ rank p) c.workers) where
  -- A worker comes further than the rank that all have reached.
  step_worker-rises : (p : Phase) → k ≤ rank p → suc k ≤ rank (after p (step_worker c p))
  unfolding step_worker
  step_worker-rises registering h = ground (arith, h)
  step_worker-rises at_start h = elim (Bool-cases (all_reached 1 c.workers)) [
    | inl y ↦ rw y (ground (arith, h))
    | inr n ↦
        (let d : k ≢ 1 = λ e. ground (
          arith,
          n,
          subst (λ l. all_reached l c.workers ≡ true) e (All-all_reached k c.workers all),
        ) in
          rw n (ground (arith, h, d)))
  ]
  step_worker-rises looping h = rw shut (ground (arith, h))
  step_worker-rises at_end h = elim (Bool-cases (all_reached 3 c.workers)) [
    | inl y ↦ rw y (ground (arith, h))
    | inr n ↦
        (let d : k ≢ 3 = λ e. ground (
          arith,
          n,
          subst (λ l. all_reached l c.workers ≡ true) e (All-all_reached k c.workers all),
        ) in
          rw n (ground (arith, h, d)))
  ]
  step_worker-rises closing h = ground (arith, h)
  step_worker-rises ended h = ground (arith, early)

nth-append : (xs ys : List Phase) (y : Phase) → nth (length xs) (xs ++ y ∷ ys) ≡ some y
nth-append [] ys y = refl
nth-append (x ∷ xs) ys y = nth-append xs ys y

set_nth-append :
    (xs ys : List Phase) (y q : Phase) → set_nth (length xs) q (xs ++ y ∷ ys) ≡ xs ++ q ∷ ys
set_nth-append [] ys y q = refl
set_nth-append (x ∷ xs) ys y q = ap (λ l. x ∷ l) (set_nth-append xs ys y q)

-- The step of the worker behind `xs`.
step_at-append :
    (c : Context) (xs ys : List Phase) (y : Phase)
    → c.workers ≡ xs ++ y ∷ ys
    → step_at (length xs) c ≡ record c { workers = xs ++ after y (step_worker c y) ∷ ys }
unfolding step_at
step_at-append c xs ys y e =
    ap picks (ap (nth (length xs)) e ∙ nth-append xs ys y) ∙ by_step (step_worker c y)
  where
    picks : Option Phase → Context
    picks o = elim o [
      | none ↦ c
      | some p ↦ elim (step_worker c p) [
        | none ↦ c
        | some q ↦ record c { workers = set_nth (length xs) q c.workers }
      ]
    ]

    by_step :
        (s : Option Phase)
        → elim s [ none ↦ c | some q ↦ record c { workers = set_nth (length xs) q c.workers } ]
          ≡ record c { workers = xs ++ after y s ∷ ys }
    by_step none = λ i. record c { workers = e i }
    by_step (some q) =
        let f = ap (set_nth (length xs) q) e ∙ set_nth-append xs ys y q in
        λ i. record c { workers = f i }

All-lower : (k : ℕ) (xs : List Phase) → All (λ p. suc k ≤ rank p) xs → All (λ p. k ≤ rank p) xs
All-lower k [] a = tt
All-lower k (x ∷ xs) a = (omega (arith, a.0), All-lower k xs a.1)

-- In a pass, every worker comes further than the rank that all had reached.
take_turns-pass :
    (k : ℕ) (xs ys : List Phase) (c : Context)
    → c.finished ≡ true
    → k < 5
    → c.workers ≡ xs ++ ys
    → All (λ p. suc k ≤ rank p) xs
    → All (λ p. k ≤ rank p) ys
    → let d = take_turns (turns_from (length xs) (length ys)) c in
      (d.finished ≡ true)
      × All (λ p. suc k ≤ rank p) d.workers
      × (length d.workers ≡ length c.workers)
unfolding take_turns
take_turns-pass k xs [] c f l e a b = (f, rw (e, append-nil xs) a, refl)
take_turns-pass k xs (y ∷ ys) c f l e a b =
    let g =
      take_turns-pass k (xs ++ q ∷ []) ys d f l (sym (append_assoc xs (q ∷ []) ys)) front b.1 in
    subst (λ z. Passed (suc (length xs)) z) (sym (step_at-append c xs ys y e))
      (subst (λ n. Passed n d) longer (g.0, g.1, g.2 ∙ same))
  where
    Passed : ℕ → Context → Type 0
    Passed n z =
        let d = take_turns (turns_from n (length ys)) z in
        (d.finished ≡ true)
        × All (λ p. suc k ≤ rank p) d.workers
        × (length d.workers ≡ length c.workers)

    q : Phase
    q = after y (step_worker c y)

    d : Context
    d = record c { workers = xs ++ q ∷ ys }

    all : All (λ p. k ≤ rank p) c.workers
    all =
        subst (All (λ p. k ≤ rank p)) (sym e)
          (All-append (λ p. k ≤ rank p) xs (y ∷ ys) (All-lower k xs a) b)

    front : All (λ p. suc k ≤ rank p) (xs ++ q ∷ [])
    front = All-append (λ p. suc k ≤ rank p) xs (q ∷ []) a (step_worker-rises c f k l all y b.0, tt)

    longer : length (xs ++ q ∷ []) ≡ suc (length xs)
    longer = ground (arith, length-append xs (q ∷ []))

    same : length d.workers ≡ length c.workers
    same = ground (arith, length-append xs (q ∷ ys), length-append xs (y ∷ ys), ap length e)

-- So many passes over `n` workers.
abbrev pub take_passes : ℕ → ℕ → Context → Context
take_passes zero n c = c
take_passes (suc r) n c = take_turns (turns_from 0 n) (take_passes r n c)

-- Each pass brings all workers one rank further.
take_passes-rises :
    (r : ℕ) (c : Context)
    → c.finished ≡ true
    → r ≤ 5
    → let d = take_passes r (length c.workers) c in
      (d.finished ≡ true) × All (λ p. r ≤ rank p) d.workers × (length d.workers ≡ length c.workers)
take_passes-rises zero c f l = (f, All-zero c.workers, refl)
  where
    All-zero : (ps : List Phase) → All (λ p. 0 ≤ rank p) ps
    All-zero [] = tt
    All-zero (p ∷ ps) = (ground arith, All-zero ps)
take_passes-rises (suc r) c f l =
    let d = take_passes r (length c.workers) c in
    let g = take_passes-rises r c f (omega (arith, l)) in
    let h = take_turns-pass r [] d.workers d g.0 l refl tt g.1 in
    let k =
      subst
        (λ n.
          let z = take_turns (turns_from 0 n) d in
          (z.finished ≡ true)
          × All (λ p. suc r ≤ rank p) z.workers
          × (length z.workers ≡ length d.workers))
        g.2 h in
    (k.0, k.1, k.2 ∙ g.2)

-- Whatever state its workers are in, a context that is shut down never deadlocks at its barriers:
-- after five passes in which each worker goes on once, all have ended and the joins of `shutdown`
-- are over.
pub shutdown-joins : (c : Context) → joined (take_passes 5 (length c.workers) (shutdown c)) ≡ true
unfolding shutdown
shutdown-joins c =
    let g = take_passes-rises 5 (shutdown c) refl (omega arith) in
    All-all_reached 5 (take_passes 5 (length c.workers) (shutdown c)).workers g.1
