-- ===== src/Sched/Places.antt =====
-- Where tasks are: in the run queue of a partition, blocked by a condition, running on a worker, or
-- nowhere. A table says it for each task, and the lists of the scheduler have to agree.
pub mod Moves
pub mod Shift
pub mod Settled
pub mod Steps
pub mod Released
pub mod Unwound
pub mod Destroyed
mod Tests
use cgo.Base.{
  ℕ, ◌≡◌, refl, ◌==◌, ◌&&◌, ◌||◌, not, Bool, true, false, if◌then◌else◌, List, [], ◌∷◌, ◌++◌, arith,
  has, Distinct, has-append, update, Bool-cases, inl, inr, ◌⊎◌, ap, ◌∙◌, sym, subst,
}
use cgo.Linked.{unlink_from}

-- A blocked task waits for semaphore `s`.
pub data Place : Type 0 where
  nowhere running : Place
  queued : ℕ → ℕ → Place
  blocked : ℕ → Place

-- Both are the same list of tasks.
abbrev pub same : Place → Place → Bool
same (queued c i) (queued d j) = (c == d) && (i == j)
same (blocked s) (blocked r) = s == r
same running running = true
same _ _ = false

-- The lists hold exactly the tasks that the table puts there, each once.
pub record IsPlaced (place : ℕ → Place) (at : Place → List ℕ) : Type 0 where
  pub holds : (k : Place) (a : ℕ) → has a (at k) ≡ same k (place a)
  pub distinct : (k : Place) → Distinct (at k)

pub has-unlink_from :
    (a t : ℕ) (xs : List ℕ) → Distinct xs → has a (unlink_from t xs) ≡ (has a xs && not (a == t))
unfolding unlink_from
has-unlink_from a t [] d = refl
has-unlink_from a t (x ∷ xs) (o, d) = ground (arith, has-unlink_from a t xs d, o)

pub unlink_from-Distinct : (t : ℕ) (xs : List ℕ) → Distinct xs → Distinct (unlink_from t xs)
unfolding unlink_from
unlink_from-Distinct t [] d = d
unlink_from-Distinct t (x ∷ xs) (o, d) = elim (Bool-cases (t == x)) [
  | inl y ↦ rw y d
  | inr n ↦ rw n (ground (arith, has-unlink_from x t xs d), unlink_from-Distinct t xs d)
]

append-Distinct : (t : ℕ) (xs : List ℕ) → has t xs ≡ false → Distinct xs → Distinct (xs ++ t ∷ [])
append-Distinct t [] h d = (refl, tt)
append-Distinct t (x ∷ xs) h (o, d) =
    (ground (arith, has-append x xs (t ∷ [])), append-Distinct t xs (ground arith) d)

-- The list `k` after the task `t` has left it, if it was there.
unfoldable pub without : ℕ → Place → Place → List ℕ → List ℕ
without t from k xs = if same k from then unlink_from t xs else xs

-- The list `k` after `t` has joined the list `to`.
unfoldable pub joined : ℕ → Place → Place → List ℕ → List ℕ
joined t to k xs = if same k to then xs ++ t ∷ [] else xs

pub same-nowhere : (k : Place) → same k nowhere ≡ false
same-nowhere nowhere = refl
same-nowhere running = refl
same-nowhere (queued c i) = refl
same-nowhere (blocked s) = refl

pub same-eq : (k l : Place) → same k l ≡ true → l ≡ k
same-eq nowhere l h = ground (arith, h)
same-eq running nowhere h = ground (arith, h)
same-eq running running h = refl
same-eq running (queued c i) h = ground (arith, h)
same-eq running (blocked s) h = ground (arith, h)
same-eq (queued c i) nowhere h = ground (arith, h)
same-eq (queued c i) running h = ground (arith, h)
same-eq (queued c i) (queued d j) h = ground arith
same-eq (queued c i) (blocked s) h = ground (arith, h)
same-eq (blocked s) nowhere h = ground (arith, h)
same-eq (blocked s) running h = ground (arith, h)
same-eq (blocked s) (queued c i) h = ground (arith, h)
same-eq (blocked s) (blocked r) h = ground arith

same_self : (k : Place) → (k ≡ nowhere) ⊎ (same k k ≡ true)
same_self nowhere = inl refl
same_self running = inr refl
same_self (queued c i) = inr (ground arith)
same_self (blocked s) = inr (ground arith)

-- Looking a task up in the table after `t` was given the place `j`.
same-update :
    (place : ℕ → Place) (t a : ℕ) (j k : Place)
    → same k (update place t j a) ≡ (if t == a then same k j else same k (place a))
same-update place t a j k = elim (Bool-cases (t == a)) [ inl y ↦ rw y refl | inr n ↦ rw n refl ]

module _ (place : ℕ → Place) (at : Place → List ℕ) (p : IsPlaced place at) (t : ℕ) where
  -- The task `t` leaves its list.
  leave-IsPlaced : IsPlaced (update place t nowhere) (λ k. without t (place t) k (at k))
  unfolding without
  leave-IsPlaced = record { holds = holds; distinct = distinct }
    where
      holds :
          (k : Place) (a : ℕ)
          → has a (without t (place t) k (at k)) ≡ same k (update place t nowhere a)
      holds k a = rw (same-update place t a nowhere k) (elim (Bool-cases (same k (place t))) [
        | inl y ↦
            rw y (
              ground
                (arith, has-unlink_from a t (at k) (p.distinct k), p.holds k a, same-nowhere k))
        | inr n ↦ rw n (ground (arith, p.holds k a, same-nowhere k, n))
      ])

      distinct : (k : Place) → Distinct (without t (place t) k (at k))
      distinct k = elim (Bool-cases (same k (place t))) [
        | inl y ↦ rw y (unlink_from-Distinct t (at k) (p.distinct k))
        | inr n ↦ rw n (p.distinct k)
      ]

module _ (place : ℕ → Place) (at : Place → List ℕ) (p : IsPlaced place at) (t : ℕ) where
  -- It joins the list `j` if it is in none.
  join-IsPlaced :
      place t ≡ nowhere → (j : Place) → IsPlaced (update place t j) (λ k. joined t j k (at k))
  unfolding joined
  join-IsPlaced e j = record { holds = holds; distinct = distinct }
    where
      free : (k : Place) → has t (at k) ≡ false
      free k = p.holds k t ∙ ap (same k) e ∙ same-nowhere k

      holds : (k : Place) (a : ℕ) → has a (joined t j k (at k)) ≡ same k (update place t j a)
      holds k a = rw (same-update place t a j k) (elim (Bool-cases (same k j)) [
        | inl y ↦ rw y (ground (arith, has-append a (at k) (t ∷ []), p.holds k a, free k))
        | inr n ↦ rw n (ground (arith, p.holds k a, free k))
      ])

      distinct : (k : Place) → Distinct (joined t j k (at k))
      distinct k = elim (Bool-cases (same k j)) [
        | inl y ↦ rw y (append-Distinct t (at k) (free k) (p.distinct k))
        | inr n ↦ rw n (p.distinct k)
      ]

module _ (place : ℕ → Place) (at : Place → List ℕ) (p : IsPlaced place at) (t : ℕ) where
  -- It moves from its list to the list `j`.
  pub move-IsPlaced :
      (j : Place) (new : Place → List ℕ)
      → ((k : Place) → new k ≡ joined t j k (without t (place t) k (at k)))
      → IsPlaced (update place t j) new
  move-IsPlaced j new e = record {
    holds = λ k a. ap (has a) (e k) ∙ q.holds k a ∙ ap (same k) (twice a);
    distinct = λ k. subst Distinct (sym (e k)) (q.distinct k);
  }
    where
      old : Place → List ℕ
      old k = without t (place t) k (at k)

      gone : ℕ → Place
      gone = update place t nowhere

      q : IsPlaced (update gone t j) (λ k. joined t j k (old k))
      q = join-IsPlaced gone old (leave-IsPlaced place at p t) t (ground arith) j

      twice : (a : ℕ) → update gone t j a ≡ update place t j a
      twice a = ground arith

pub without-nowhere : (t : ℕ) (k : Place) (xs : List ℕ) → without t nowhere k xs ≡ xs
unfolding without
without-nowhere t k xs = rw (same-nowhere k) refl

-- The same lists agree with the same table.
pub IsPlaced-same :
    {place : ℕ → Place} (at new : Place → List ℕ)
    → ((k : Place) → new k ≡ at k)
    → IsPlaced place at
    → IsPlaced place new
IsPlaced-same at new e p = record {
  holds = λ k a. ap (has a) (e k) ∙ p.holds k a;
  distinct = λ k. subst Distinct (sym (e k)) (p.distinct k);
}

-- A task that is in no list is nowhere.
pub place-nowhere :
    (place : ℕ → Place) (at : Place → List ℕ) (t : ℕ)
    → IsPlaced place at
    → ((k : Place) → has t (at k) ≡ false)
    → place t ≡ nowhere
place-nowhere place at t p h = elim (same_self (place t)) [
  | inl e ↦ e
  | inr y ↦ ground (arith, y, p.holds (place t) t, h (place t))
]

pub joined-nowhere : (t : ℕ) (k : Place) (xs : List ℕ) → joined t nowhere k xs ≡ xs
unfolding joined
joined-nowhere t k xs = rw (same-nowhere k) refl

unlink_from_absent : (t : ℕ) (xs : List ℕ) → has t xs ≡ false → unlink_from t xs ≡ xs
unfolding unlink_from
unlink_from_absent t [] h = refl
unlink_from_absent t (x ∷ xs) h = ground (arith, unlink_from_absent t xs)

-- A task that is not in the list does not leave it.
pub without-absent :
    (t : ℕ) (from k : Place) (xs : List ℕ)
    → (same k from ≡ true → has t xs ≡ false)
    → without t from k xs ≡ xs
unfolding without
without-absent t from k xs h = elim (Bool-cases (same k from)) [
  | inl y ↦ rw y (unlink_from_absent t xs (h y))
  | inr n ↦ rw n refl
]
