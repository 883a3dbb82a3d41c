-- ===== src/Sched/Places/Shift.antt =====
-- Tables of places, where a task moves or runs.
use cgo.Base.{
  ℕ, ◌≡◌, ◌==◌, true, List, [], ◌∷◌, arith, has, update, Bool-cases, inl, inr, ap, ◌∙◌, sym, subst,
  eq_of_==,
}
use cgo.Sched.{World, Task}
use cgo.Sched.Condition.{schedule_first}
use cgo.Sched.Places.{
  Place, nowhere, running, queued, blocked, without, joined, IsPlaced-same, same-eq,
}
use cgo.Sched.Places.Moves.{
  lists, home, IsHome, IsTidy, IsHome-IsSpared, IsSpared, IsSteady-IsSpared, home-IsHome,
  schedule_first-IsSteady, IsAlike, move-IsTidy, lists-IsAlike, lists-schedule,
}

-- The tasks that workers run, and the state that they share.
pub record Roster : Type 0 where
  pub run : List ℕ
  pub world : World

abbrev pub Tidy : Roster → Type 0
Tidy v = (place : ℕ → Place) × IsTidy place v.run v.world

module _ (place : ℕ → Place) (run : List ℕ) (w : World) (d : IsTidy place run w) where
  -- A task in the list `k` has that place.
  pub place_of : (t : ℕ) (k : Place) → has t (lists run w k) ≡ true → place t ≡ k
  place_of t k h = same-eq k (place t) (sym (d.placed.holds k t) ∙ h)

  -- What changes no list and no task, or only the task `t` while it runs, keeps all tasks where they are.
  pub alike-IsTidy : (v : World) → IsAlike w v → v.tasks ≡ w.tasks → IsTidy place run v
  alike-IsTidy v a e = record {
    placed = IsPlaced-same (lists run w) (lists run v) (lists-IsAlike run a) d.placed;
    homes = λ b. IsHome-alike b (place b) (d.homes b);
  }
    where
      IsHome-alike : (b : ℕ) (k : Place) → IsHome w b k → IsHome v b k
      IsHome-alike b nowhere h = tt
      IsHome-alike b running h = tt
      IsHome-alike b (queued c i) h =
          (ap (λ (f : ℕ → Task). (f b).ctx) e ∙ h.0, rw (e, a.sizes c) h.1)
      IsHome-alike b (blocked s) h = ap (λ (f : ℕ → Task). (f b).waiting_cond) e ∙ h

  pub run-IsTidy :
      (t : ℕ) (v : World) → IsAlike w v → IsSpared t w v → has t run ≡ true → IsTidy place run v
  run-IsTidy t v a s r = record {
    placed = IsPlaced-same (lists run w) (lists run v) (lists-IsAlike run a) d.placed;
    homes = λ b. elim (Bool-cases (t == b)) [
      | inl y ↦ subst (IsHome v b) (sym (ap place (sym (eq_of_== t b y)) ∙ place_of t running r)) tt
      | inr n ↦ IsHome-IsSpared t b w v (place b) s n (d.homes b)
    ];
  }

  -- A task of the list `from` joins another.
  pub shift-IsTidy :
      (t : ℕ) (from j : Place) (new : List ℕ) (v : World)
      → has t (lists run w from) ≡ true
      → ((k : Place) → lists new v k ≡ joined t j k (without t from k (lists run w k)))
      → IsSpared t w v
      → IsHome v t j
      → IsTidy (update place t j) new v
  shift-IsTidy t from j new v h e s k =
      move-IsTidy place run new w v t j d
        (λ l.
          subst (λ o. lists new v l ≡ joined t j l (without t o l (lists run w l)))
            (sym (place_of t from h)) (e l))
        s k

-- The table after the first of some blocked tasks was woken.
abbrev pub woken : (ℕ → Place) → World → List ℕ → ℕ → Place
woken place w [] = place
woken place w (t ∷ rest) = update place t (home w t)

pub schedule_first-IsTidy :
    (place : ℕ → Place) (run : List ℕ) (w : World) (s : ℕ) (b : List ℕ)
    → IsTidy place run w
    → (w.sems s).cond.blocked ≡ b
    → IsTidy (woken place w b) run (schedule_first s b w)
unfolding schedule_first
schedule_first-IsTidy place run w s [] d e = d
schedule_first-IsTidy place run w s (t ∷ rest) d e =
    shift-IsTidy place run w d t (blocked s) (home w t) run (schedule_first s (t ∷ rest) w)
      (ap (has t) e ∙ ground arith) (lists-schedule run w s t rest e)
      (IsSteady-IsSpared t (schedule_first-IsSteady s (t ∷ rest) w))
      (home-IsHome t (schedule_first-IsSteady s (t ∷ rest) w))
