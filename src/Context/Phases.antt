-- ===== src/Context/Phases.antt =====
-- How far apart the workers of a context can be.
use cgo.Base.{
  ℕ, zero, suc, ◌≡◌, refl, ◌≤◌, ◌<◌, leb, Bool, true, false, if◌then◌else◌, Option, none, some,
  List, [], ◌∷◌, arith, All, inl, inr, ◌⊎◌, Bool-cases, subst,
}
use cgo.Context.{
  Phase, registering, at_start, looping, at_end, closing, ended, rank, Context, new_context, fresh,
  startup, all_reached, shutdown, step_worker, nth, set_nth, step_at, Turn, shuts, steps,
  take_turns,
}

-- No worker is past the barrier at rank `k` before all have arrived there.
abbrev IsApart : ℕ → List Phase → Type 0
IsApart k ps = All (λ p. rank p ≤ k) ps ⊎ All (λ p. k ≤ rank p) ps

All-nth :
    (P : Phase → Type 0) (i : ℕ) (ps : List Phase) (p : Phase) → All P ps → nth i ps ≡ some p → P p
All-nth P i [] p a e = ground (arith, e)
All-nth P zero (q ∷ ps) p a e = subst P (ground (arith, e)) a.0
All-nth P (suc i) (q ∷ ps) p a e = All-nth P i ps p a.1 e

All-set_nth :
    (P : Phase → Type 0) (i : ℕ) (ps : List Phase) (q : Phase)
    → All P ps
    → P q
    → All P (set_nth i q ps)
All-set_nth P i [] q a h = tt
All-set_nth P zero (p ∷ ps) q a h = (h, a.1)
All-set_nth P (suc i) (p ∷ ps) q a h = (a.0, All-set_nth P i ps q a.1 h)

all_reached-All : (k : ℕ) (ps : List Phase) → all_reached k ps ≡ true → All (λ p. k ≤ rank p) ps
all_reached-All k [] e = tt
all_reached-All k (p ∷ ps) e = (ground (arith, e), all_reached-All k ps (ground (arith, e)))

-- The barriers keep the workers together, and none leaves the loop before the context is shut down.
pub record IsOrdered (c : Context) : Type 0 where
  pub at_first : IsApart 1 c.workers
  pub at_second : IsApart 3 c.workers
  pub shut : (c.finished ≡ true) ⊎ All (λ p. rank p ≤ 2) c.workers

-- What a step of one worker, from `p` to `q`, asks for.
record Allowed (c : Context) (p q : Phase) : Type 0 where
  up : rank p ≤ rank q
  first : rank p ≤ 1 → 1 < rank q → All (λ r. 1 ≤ rank r) c.workers
  second : rank p ≤ 3 → 3 < rank q → All (λ r. 3 ≤ rank r) c.workers
  shut : rank p ≤ 2 → 2 < rank q → c.finished ≡ true

Allowed-same : {c : Context} {p r q : Phase} → some r ≡ some q → Allowed c p r → Allowed c p q
Allowed-same {c} {p} {r} {q} e a = let f : r ≡ q = ground (arith, e) in subst (Allowed c p) f a

step_worker-Allowed : (c : Context) (p q : Phase) → step_worker c p ≡ some q → Allowed c p q
unfolding step_worker
step_worker-Allowed c registering q e = Allowed-same e (record {
  up = ground arith;
  first = λ a b. ground (arith, b);
  second = λ a b. ground (arith, b);
  shut = λ a b. ground (arith, b);
})
step_worker-Allowed c at_start q e = go (all_reached 1 c.workers) refl e
  where
    go :
        (b : Bool)
        → all_reached 1 c.workers ≡ b
        → (if b then some looping else none) ≡ some q
        → Allowed c at_start q
    go true r e = Allowed-same e (record {
      up = ground arith;
      first = λ a b. all_reached-All 1 c.workers r;
      second = λ a b. ground (arith, b);
      shut = λ a b. ground (arith, b);
    })
    go false r e = ground (arith, e)
step_worker-Allowed c looping q e = go c.finished refl e
  where
    go :
        (b : Bool)
        → c.finished ≡ b
        → some (if b then at_end else looping) ≡ some q
        → Allowed c looping q
    go true r e = Allowed-same e (record {
      up = ground arith;
      first = λ a b. ground (arith, a);
      second = λ a b. ground (arith, b);
      shut = λ a b. r;
    })
    go false r e = Allowed-same e (record {
      up = ground arith;
      first = λ a b. ground (arith, a);
      second = λ a b. ground (arith, b);
      shut = λ a b. ground (arith, b);
    })
step_worker-Allowed c at_end q e = go (all_reached 3 c.workers) refl e
  where
    go :
        (b : Bool)
        → all_reached 3 c.workers ≡ b
        → (if b then some closing else none) ≡ some q
        → Allowed c at_end q
    go true r e = Allowed-same e (record {
      up = ground arith;
      first = λ a b. ground (arith, a);
      second = λ a b. all_reached-All 3 c.workers r;
      shut = λ a b. ground (arith, a);
    })
    go false r e = ground (arith, e)
step_worker-Allowed c closing q e = Allowed-same e (record {
  up = ground arith;
  first = λ a b. ground (arith, a);
  second = λ a b. ground (arith, a);
  shut = λ a b. ground (arith, a);
})
step_worker-Allowed c ended q e = ground (arith, e)

-- A barrier at rank `k` holds over a step that waited for it.
IsApart-step :
    (k i : ℕ) (ps : List Phase) (p q : Phase)
    → IsApart k ps
    → nth i ps ≡ some p
    → rank p ≤ rank q
    → (rank p ≤ k → k < rank q → All (λ r. k ≤ rank r) ps)
    → IsApart k (set_nth i q ps)
IsApart-step k i ps p q (inr a) e u g =
    let h = All-nth (λ r. k ≤ rank r) i ps p a e in
    inr (All-set_nth (λ r. k ≤ rank r) i ps q a (omega (arith, h, u)))
IsApart-step k i ps p q (inl a) e u g = elim (Bool-cases (leb (rank q) k)) [
  | inl y ↦ inl (All-set_nth (λ r. rank r ≤ k) i ps q a (ground (arith, y)))
  | inr n ↦
      (let h = All-nth (λ r. rank r ≤ k) i ps p a e in
        let past : k < rank q = ground (arith, n) in
        inr (All-set_nth (λ r. k ≤ rank r) i ps q (g h past) (omega (arith, past))))
]

step_at-IsOrdered : (i : ℕ) (c : Context) → IsOrdered c → IsOrdered (step_at i c)
unfolding step_at
step_at-IsOrdered i c o = by_worker (nth i c.workers) refl
  where
    by_step :
        (p : Phase)
        → nth i c.workers ≡ some p
        → (s : Option Phase) → step_worker c p ≡ s
        → IsOrdered (elim s [ none ↦ c | some q ↦ record c { workers = set_nth i q c.workers } ])
    by_step p e none f = o
    by_step p e (some q) f =
        let a = step_worker-Allowed c p q f in
        record {
          at_first = IsApart-step 1 i c.workers p q o.at_first e a.up a.first;
          at_second = IsApart-step 3 i c.workers p q o.at_second e a.up a.second;
          shut = elim o.shut [
            | inl y ↦ inl y
            | inr n ↦ elim (Bool-cases (leb (rank q) 2)) [
              | inl y ↦ inr (All-set_nth (λ r. rank r ≤ 2) i c.workers q n (ground (arith, y)))
              | inr z ↦
                  inl (a.shut (All-nth (λ r. rank r ≤ 2) i c.workers p n e) (ground (arith, z)))
            ]
          ];
        }

    by_worker :
        (w : Option Phase)
        → nth i c.workers ≡ w
        → IsOrdered (elim w [
          | none ↦ c
          | some p ↦ elim (step_worker c p) [
            | none ↦ c
            | some q ↦ record c { workers = set_nth i q c.workers }
          ]
        ])
    by_worker none e = o
    by_worker (some p) e = by_step p e (step_worker c p) refl

fresh-All : (n : ℕ) → All (λ p. rank p ≤ 0) (fresh n)
fresh-All zero = tt
fresh-All (suc n) = (ground arith, fresh-All n)

All-weaken : (k : ℕ) (ps : List Phase) → All (λ p. rank p ≤ 0) ps → All (λ p. rank p ≤ k) ps
All-weaken k [] a = tt
All-weaken k (p ∷ ps) a = (omega (arith, a.0), All-weaken k ps a.1)

take_turns-keeps : (ts : List Turn) (c : Context) → IsOrdered c → IsOrdered (take_turns ts c)
unfolding take_turns shutdown
take_turns-keeps [] c o = o
take_turns-keeps (shuts ∷ ts) c o =
    take_turns-keeps ts (shutdown c)
      (record { at_first = o.at_first; at_second = o.at_second; shut = inl refl })
take_turns-keeps (steps i ∷ ts) c o = take_turns-keeps ts (step_at i c) (step_at-IsOrdered i c o)

-- After a new context was started with `n` workers, they may go on in any order and the context be
-- shut down at any time: no worker is in the loop or past it unless all have registered their
-- signals, none closes its signal or finishes its tasks unless all have left the loop, and all are
-- in the loop or before it unless the context is shut down.
pub take_turns-IsOrdered :
    (n : ℕ) (c : Context) (ts : List Turn)
    → startup n new_context ≡ some c
    → IsOrdered (take_turns ts c)
unfolding startup
take_turns-IsOrdered n c ts e =
    let f : record new_context { workers = fresh n } ≡ c = ground (arith, e) in
    take_turns-keeps ts c (
      subst IsOrdered f (record {
        at_first = inl (All-weaken 1 (fresh n) (fresh-All n));
        at_second = inl (All-weaken 3 (fresh n) (fresh-All n));
        shut = inr (All-weaken 2 (fresh n) (fresh-All n));
      }))
