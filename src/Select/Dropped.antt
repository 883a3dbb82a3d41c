-- ===== src/Select/Dropped.antt =====
-- `_drop` of a select, which its destructor and the guard of `operator()` call: no channel is left
-- with a pointer to one of its messages.
use cgo.Base.{
  ℕ, ◌≡◌, refl, true, false, ◌==◌, none, some, List, [], ◌∷◌, arith, has, Distinct, Bool-cases, inl,
  inr, Option-cases, eq_of_==, sym, subst, ◌⊎◌, ◌≢◌,
}
use cgo.Linked.{unlink_from}
use cgo.Channel.{Env, set_chan, drop_from, drop}
use cgo.Select.{drop_all, drop_select}

has-unlink_from : (a t : ℕ) (xs : List ℕ) → has a xs ≡ false → has a (unlink_from t xs) ≡ false
unfolding unlink_from
has-unlink_from a t [] h = h
has-unlink_from a t (x ∷ xs) h = ground (arith, has-unlink_from a t xs)

unlink_from_absent : (t : ℕ) (xs : List ℕ) → Distinct xs → has t (unlink_from t xs) ≡ false
unfolding unlink_from
unlink_from_absent t [] d = refl
unlink_from_absent t (x ∷ xs) (o, d) = ground (arith, unlink_from_absent t xs d)

unlink_from-Distinct : (t : ℕ) (xs : List ℕ) → Distinct xs → Distinct (unlink_from t xs)
unfolding unlink_from
unlink_from-Distinct t [] d = d
unlink_from-Distinct t (x ∷ xs) (o, d) = elim (Bool-cases (t == x)) [
  | inl y ↦ rw y d
  | inr n ↦ rw n (has-unlink_from x t xs o, unlink_from-Distinct t xs d)
]

module _ {V : Type 0} where
  -- Neither queue of channel `c` holds message `m`.
  abbrev pub IsAbsent : ℕ → ℕ → Env V → Type 0
  IsAbsent m c e = (has m (e.chans c).senders ≡ false) × (has m (e.chans c).recvers ≡ false)

  -- No queue holds a message twice, and each holds only messages that were offered to its channel.
  pub record IsLinked (e : Env V) : Type 0 where
    pub senders : (c : ℕ) → Distinct (e.chans c).senders
    pub recvers : (c : ℕ) → Distinct (e.chans c).recvers
    pub homed : (m c : ℕ) → e.chan_of m ≢ some c → IsAbsent m c e

  -- A message taken from the queues of channel `d`.
  abbrev without : ℕ → ℕ → Env V → Env V
  without d m e =
      set_chan d
        (record (e.chans d) {
          senders = unlink_from m (e.chans d).senders;
          recvers = unlink_from m (e.chans d).recvers;
        })
        e

  without-IsAbsent : (d m : ℕ) (e : Env V) (a c : ℕ) → IsAbsent a c e → IsAbsent a c (without d m e)
  without-IsAbsent d m e a c h = elim (Bool-cases (d == c)) [
    | inl y ↦ rw y (
      ground (arith, has-unlink_from a m (e.chans d).senders),
      ground (arith, has-unlink_from a m (e.chans d).recvers),
    )
    | inr n ↦ rw n h
  ]

  drop-cases :
      (m : ℕ) (e : Env V)
      → ((e.chan_of m ≡ none) × (drop m e ≡ e))
        ⊎ ((d : ℕ) × (e.chan_of m ≡ some d) × (drop m e ≡ without d m e))
  unfolding drop drop_from
  drop-cases m e = elim (Option-cases (e.chan_of m)) [
    | inl n ↦ inl (n, rw n refl)
    | inr (d, s) ↦ inr (d, s, rw s refl)
  ]

  without-IsLinked : (d m : ℕ) (e : Env V) → IsLinked e → IsLinked (without d m e)
  without-IsLinked d m e l = record {
    senders = λ c. elim (Bool-cases (d == c)) [
      | inl y ↦ rw y (unlink_from-Distinct m (e.chans d).senders (l.senders d))
      | inr n ↦ rw n (l.senders c)
    ];
    recvers = λ c. elim (Bool-cases (d == c)) [
      | inl y ↦ rw y (unlink_from-Distinct m (e.chans d).recvers (l.recvers d))
      | inr n ↦ rw n (l.recvers c)
    ];
    homed = λ a c h. without-IsAbsent d m e a c (l.homed a c h);
  }

  pub drop-IsLinked : (m : ℕ) (e : Env V) → IsLinked e → IsLinked (drop m e)
  drop-IsLinked m e l = elim (drop-cases m e) [
    | inl (n, s) ↦ rw s l
    | inr (d, n, s) ↦ rw s (without-IsLinked d m e l)
  ]

  drop-IsAbsent : (m : ℕ) (e : Env V) (a c : ℕ) → IsAbsent a c e → IsAbsent a c (drop m e)
  drop-IsAbsent m e a c h = elim (drop-cases m e) [
    | inl (n, s) ↦ rw s h
    | inr (d, n, s) ↦ rw s (without-IsAbsent d m e a c h)
  ]

  pub drop_withdraws : (m c : ℕ) (e : Env V) → IsLinked e → IsAbsent m c (drop m e)
  drop_withdraws m c e l = elim (drop-cases m e) [
    | inl (n, s) ↦ rw s (l.homed m c (λ x. cc))
    | inr (d, n, s) ↦ rw s (elim (Bool-cases (d == c)) [
      | inl y ↦ rw y (
        unlink_from_absent m (e.chans d).senders (l.senders d),
        unlink_from_absent m (e.chans d).recvers (l.recvers d),
      )
      | inr f ↦ rw f (l.homed m c (λ x. ground arith))
    ])
  ]

  drop_all-IsAbsent :
      (ms : List ℕ) (e : Env V) (a c : ℕ) → IsAbsent a c e → IsAbsent a c (drop_all ms e)
  unfolding drop_all
  drop_all-IsAbsent [] e a c h = h
  drop_all-IsAbsent (m ∷ ms) e a c h = drop_all-IsAbsent ms (drop m e) a c (drop-IsAbsent m e a c h)

  drop_all_withdraws :
      (ms : List ℕ) (e : Env V) (a c : ℕ)
      → IsLinked e
      → has a ms ≡ true
      → IsAbsent a c (drop_all ms e)
  unfolding drop_all
  drop_all_withdraws [] e a c l h = absurd (cc)
  drop_all_withdraws (m ∷ ms) e a c l h = elim (Bool-cases (a == m)) [
    | inl y ↦
        drop_all-IsAbsent ms (drop m e) a c
          (subst (λ x. IsAbsent x c (drop m e)) (sym (eq_of_== a m y)) (drop_withdraws m c e l))
    | inr n ↦ drop_all_withdraws ms (drop m e) a c (drop-IsLinked m e l) (ground arith)
  ]

  -- Where no queue holds a message twice, nor one that was not offered to its channel, `_drop` leaves
  -- none of the select's messages in a queue of any channel, and the select without messages and
  -- listeners.
  pub drop_select-IsAbsent :
      (s : ℕ) (e : Env V) (m c : ℕ)
      → IsLinked e
      → has m (e.selects s).msgs ≡ true
      → IsAbsent m c (drop_select s e)
        × (((drop_select s e).selects s).msgs ≡ [])
        × (((drop_select s e).selects s).listeners ≡ [])
  unfolding drop_select
  drop_select-IsAbsent s e m c l h =
      (drop_all_withdraws (e.selects s).msgs e m c l h, ground arith, ground arith)
