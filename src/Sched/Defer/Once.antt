-- ===== src/Sched/Defer/Once.antt =====
-- A deferred function runs once, however its guard is moved.
use cgo.Base.{
  ℕ, ◌≡◌, refl, ◌≢◌, ◌+◌, ◌==◌, if◌then◌else◌, ◌≤◌, Option, none, some, List, [], ◌∷◌, arith,
  update, inl, inr, ◌⊎◌, Option-cases,
}
use cgo.Sched.Defer.{DeferGuard, defer, drop_guard, move_guard, end_guard}

abbrev pub count : ℕ → List ℕ → ℕ
count f [] = 0
count f (x ∷ xs) = if f == x then 1 + count f xs else count f xs

-- The guards by address; the functions that were given to guards, those that ran and those that were
-- dropped, the last one first.
pub record Scope : Type 0 where
  pub guards : ℕ → DeferGuard ℕ
  pub made : List ℕ
  pub ran : List ℕ
  pub dropped : List ℕ

abbrev note : Option ℕ → List ℕ → List ℕ
note none xs = xs
note (some f) xs = f ∷ xs

abbrev pub set_guard : ℕ → DeferGuard ℕ → Scope → Scope
set_guard g x s = record s { guards = update s.guards g x }

abbrev pub defers : ℕ → ℕ → Scope → Scope
defers g f s = record (set_guard g (defer f) s) { made = f ∷ s.made }

abbrev pub moves : ℕ → ℕ → Scope → Scope
moves g h s = let r = move_guard (s.guards g) in set_guard h r.0 (set_guard g r.1 s)

abbrev pub drops : ℕ → Scope → Scope
drops g s = record (set_guard g (drop_guard (s.guards g)) s) {
  dropped = note (s.guards g) s.dropped;
}

abbrev pub ends : ℕ → Scope → Scope
ends g s =
    let r = end_guard (λ f ran. f ∷ ran) (s.guards g) s.ran in
    record (set_guard g r.0 s) { ran = r.1 }

-- A new function is given to a guard at a free address; a guard is moved to a free address; a guard drops its
-- function; a guard ends.
pub data Step (s : Scope) : Scope → Type 0 where
  given : (g f : ℕ) → s.guards g ≡ none → count f s.made ≡ 0 → Step s (defers g f s)
  moved : (g h : ℕ) → s.guards h ≡ none → Step s (moves g h s)
  dropped : (g : ℕ) → Step s (drops g s)
  ended : (g : ℕ) → Step s (ends g s)

pub data Reach (s : Scope) : Scope → Type 0 where
  here : Reach s s
  next : {t u : Scope} → Reach s t → Step t u → Reach s u

abbrev pub no_guards : Scope
no_guards = record { guards = λ g. none; made = []; ran = []; dropped = [] }

abbrev is_held : Option ℕ → ℕ
is_held none = 0
is_held (some g) = 1

-- The guard that holds each function.
record IsTallied (place : ℕ → Option ℕ) (s : Scope) : Type 0 where
  holds : (g f : ℕ) → s.guards g ≡ some f → place f ≡ some g
  held : (g f : ℕ) → place f ≡ some g → s.guards g ≡ some f
  tally : (f : ℕ) → count f s.ran + count f s.dropped + is_held (place f) ≡ count f s.made
  once : (f : ℕ) → count f s.made ≤ 1

module _ (place : ℕ → Option ℕ) (s : Scope) (t : IsTallied place s) where
  given-IsTallied :
      (g f : ℕ)
      → s.guards g ≡ none
      → count f s.made ≡ 0
      → IsTallied (update place f (some g)) (defers g f s)
  unfolding defer
  given-IsTallied g f e n = record {
    holds = λ h k y. ground (arith, e, n, y, t.holds h k, t.tally k, t.tally f);
    held = λ h k y. ground (arith, e, n, y, t.held h k);
    tally = λ k. ground (arith, n, t.tally k, t.tally f);
    once = λ k. ground (arith, n, t.once k);
  }

  moved-IsTallied :
      (g h : ℕ)
      → s.guards h ≡ none
      → (o : Option ℕ) → s.guards g ≡ o
      → (new : ℕ → Option ℕ) × IsTallied new (moves g h s)
  unfolding move_guard drop_guard
  moved-IsTallied g h e none n = (
    place,
    record {
      holds = λ a k y. ground (arith, e, n, y, t.holds a k);
      held = λ a k y. ground (arith, e, n, t.held a k y);
      tally = t.tally;
      once = t.once;
    },
  )
  moved-IsTallied g h e (some f) n = (
    update place f (some h),
    record {
      holds = λ a k y. ground (arith, e, n, y, t.holds a k, t.holds g f);
      held = λ a k y. ground (arith, e, n, y, t.held a k);
      tally = λ k. ground (arith, t.tally k, t.holds g f n);
      once = t.once;
    },
  )

  dropped-IsTallied :
      (g : ℕ) (o : Option ℕ) → s.guards g ≡ o → (new : ℕ → Option ℕ) × IsTallied new (drops g s)
  unfolding drop_guard
  dropped-IsTallied g none n = (
    place,
    record {
      holds = λ a k y. ground (arith, n, y, t.holds a k);
      held = λ a k y. ground (arith, n, t.held a k y);
      tally = λ k. rw n (t.tally k);
      once = t.once;
    },
  )
  dropped-IsTallied g (some f) n = (
    update place f none,
    record {
      holds = λ a k y. ground (arith, n, y, t.holds a k, t.holds g f);
      held = λ a k y. ground (arith, n, y, t.held a k);
      tally = λ k. rw n (ground (arith, t.tally k, t.holds g f n));
      once = t.once;
    },
  )

  ended-IsTallied :
      (g : ℕ) (o : Option ℕ) → s.guards g ≡ o → (new : ℕ → Option ℕ) × IsTallied new (ends g s)
  unfolding end_guard
  ended-IsTallied g none n = (
    place,
    record {
      holds = λ a k y. ground (arith, n, y, t.holds a k);
      held = λ a k y. rw n (ground (arith, n, t.held a k y));
      tally = λ k. rw n (t.tally k);
      once = t.once;
    },
  )
  ended-IsTallied g (some f) n = (
    update place f none,
    record {
      holds = λ a k y. ground (arith, n, y, t.holds a k, t.holds g f);
      held = λ a k y. rw n (ground (arith, n, y, t.held a k));
      tally = λ k. rw n (ground (arith, t.tally k, t.holds g f n));
      once = t.once;
    },
  )

  told :
      (f : ℕ)
      → ((g : ℕ) × (s.guards g ≡ some f) × (count f s.ran + count f s.dropped ≡ 0))
        ⊎ (((g : ℕ) → s.guards g ≢ some f) × (count f s.ran + count f s.dropped ≡ count f s.made))
  told f = elim (Option-cases (place f)) [
    | inl n ↦ inr ((λ g y. ground (arith, n, t.holds g f y)), ground (arith, n, t.tally f))
    | inr (g, y) ↦ inl (g, t.held g f y, ground (arith, y, t.tally f, t.once f))
  ]

Step-IsTallied :
    {s u : Scope}
    → Step s u
    → (place : ℕ → Option ℕ) × IsTallied place s
    → (place : ℕ → Option ℕ) × IsTallied place u
Step-IsTallied {s} (given g f e n) (p, t) = (update p f (some g), given-IsTallied p s t g f e n)
Step-IsTallied {s} (moved g h e) (p, t) = moved-IsTallied p s t g h e (s.guards g) refl
Step-IsTallied {s} (dropped g) (p, t) = dropped-IsTallied p s t g (s.guards g) refl
Step-IsTallied {s} (ended g) (p, t) = ended-IsTallied p s t g (s.guards g) refl

Reach-IsTallied : {s : Scope} → Reach no_guards s → (place : ℕ → Option ℕ) × IsTallied place s
Reach-IsTallied here = (
  λ f. none,
  record {
    holds = λ g f y. ground (arith, y);
    held = λ g f y. ground (arith, y);
    tally = λ f. refl;
    once = λ f. omega arith;
  },
)
Reach-IsTallied (next r st) = Step-IsTallied st (Reach-IsTallied r)

-- However guards are made, at free addresses and each with a function of its own, moved to free addresses, dropped and ended:
-- a function that a guard holds has not run and was not dropped; one that no guard holds has
-- run or was dropped as often as it was given to a guard, which is at most once.
pub Reach-RunsOnce :
    {s : Scope} (f : ℕ)
    → Reach no_guards s
    → (count f s.made ≤ 1)
      × (((g : ℕ) × (s.guards g ≡ some f) × (count f s.ran + count f s.dropped ≡ 0))
          ⊎ (((g : ℕ) → s.guards g ≢ some f)
              × (count f s.ran + count f s.dropped ≡ count f s.made)))
Reach-RunsOnce {s} f r = let (p, t) = Reach-IsTallied r in (t.once f, told p s t f)
