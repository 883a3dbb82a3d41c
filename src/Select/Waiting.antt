-- ===== src/Select/Waiting.antt =====
-- Over any sequence of operations no message waits twice, and the end of a select or of a call of a channel
-- withdraws its messages.
use cgo.Base.{
  ℕ, ◌≡◌, refl, ◌≢◌, ◌==◌, Bool, true, false, if◌then◌else◌, some, List, [], ◌∷◌, ◌++◌, arith, has,
  has-append, Distinct, update, Bool-cases, inl, inr, ◌⊎◌, ap, ◌∙◌, sym, subst, eq_of_==,
}
use cgo.Channel.{
  Env, Listener, simplex, multiplex, invalid_select_key, is_decided, drop, set_select,
}
use cgo.Channel.Transfer.{send_to, recv_from}
use cgo.Channel.Buffer.{Keyed}
use cgo.Channel.Linked.{Waits, send_to-Waits, recv_from-Waits}
use cgo.Channel.Ops.{
  make_semaphore, set_msg, local_objects, await_signal, send_begin, recv_begin, finish, nowait_send,
}
use cgo.Select.{make_select, listen, drop_all, drop_select, poll, collect_key}
use cgo.Select.Dropped.{IsAbsent, IsLinked, drop-IsLinked, drop_withdraws, drop_select-IsAbsent}
use cgo.Select.Keeping.{IsFree, AllSound}
use cgo.Select.Offered.{set_msg-Keyed, local_objects-Keyed, offered, Reach-Noted}
use cgo.Select.Runs.{
  Step, Reach, sends, receives, tries, finishes, makes, listens, polls, collects, here, next,
  Reach-AllSound,
}

append-Distinct : (m : ℕ) (xs : List ℕ) → Distinct xs → has m xs ≡ false → Distinct (xs ++ m ∷ [])
append-Distinct m [] d h = (refl, tt)
append-Distinct m (x ∷ xs) (o, d) h =
    (ground (arith, has-append x xs (m ∷ [])), append-Distinct m xs d (ground arith))

-- A queue that may have got `m` at the end.
grown-Distinct :
    (m : ℕ) (P : Type 0) (ys xs : List ℕ)
    → Distinct xs
    → has m xs ≡ false
    → (ys ≡ xs) ⊎ (P × (ys ≡ xs ++ m ∷ []))
    → Distinct ys
grown-Distinct m P ys xs d h (inl e) = subst Distinct (sym e) d
grown-Distinct m P ys xs d h (inr (p, e)) = subst Distinct (sym e) (append-Distinct m xs d h)

grown-absent :
    (a m : ℕ) (P : Type 0) (ys xs : List ℕ)
    → has a xs ≡ false
    → (P → (a == m) ≡ false)
    → (ys ≡ xs) ⊎ (P × (ys ≡ xs ++ m ∷ []))
    → has a ys ≡ false
grown-absent a m P ys xs h n (inl e) = ap (has a) e ∙ h
grown-absent a m P ys xs h n (inr (p, e)) =
    ap (has a) e ∙ ground (arith, h, n p, has-append a xs (m ∷ []))

module _ {V : Type 0} where
  Waits-IsLinked :
      (c m : ℕ) (e f : Env V)
      → IsLinked e
      → IsFree m e
      → Waits c m (record e { chan_of = update e.chan_of m (some c) }) f
      → IsLinked f
  Waits-IsLinked c m e f l free w = record {
    senders = λ j.
        grown-Distinct m (j ≡ c) (f.chans j).senders (b.chans j).senders
          ((w.narrow.senders j).distinct (l.senders j))
          ((w.narrow.senders j).absent m (ground (arith, free j))) (w.senders j);
    recvers = λ j.
        grown-Distinct m (j ≡ c) (f.chans j).recvers (b.chans j).recvers
          ((w.narrow.recvers j).distinct (l.recvers j))
          ((w.narrow.recvers j).absent m (ground (arith, free j))) (w.recvers j);
    homed = λ a j h. (
      grown-absent a m (j ≡ c) (f.chans j).senders (b.chans j).senders
          ((w.narrow.senders j).absent a (out a j h).0) (apart a j h) (w.senders j),
      grown-absent a m (j ≡ c) (f.chans j).recvers (b.chans j).recvers
          ((w.narrow.recvers j).absent a (out a j h).1) (apart a j h) (w.recvers j),
    );
  }
    where
      b : Env V
      b = w.before

      home : (a : ℕ) → f.chan_of a ≡ (if m == a then some c else e.chan_of a)
      home a = ap (λ g. g a) w.homes

      apart : (a j : ℕ) → f.chan_of a ≢ some j → j ≡ c → (a == m) ≡ false
      apart a j h p = elim (Bool-cases (m == a)) [
        | inl y ↦ absurd (h (home a ∙ rw y (ap some (sym p))))
        | inr o ↦ ground (arith, o)
      ]

      out : (a j : ℕ) → f.chan_of a ≢ some j → IsAbsent a j e
      out a j h = elim (Bool-cases (m == a)) [
        | inl y ↦
            subst (λ x. IsAbsent x j e) (eq_of_== m a y)
              (ground (arith, free j), ground (arith, free j))
        | inr o ↦ l.homed a j (λ x. h (home a ∙ rw o x))
      ]

  -- The queues and the channels of messages are the same.
  same-IsLinked :
      (e f : Env V) → f.chans ≡ e.chans → f.chan_of ≡ e.chan_of → IsLinked e → IsLinked f
  same-IsLinked e f p q l = record {
    senders = λ c. subst (λ g. Distinct (g c).senders) (sym p) (l.senders c);
    recvers = λ c. subst (λ g. Distinct (g c).recvers) (sym p) (l.recvers c);
    homed = λ m c h.
        let a = l.homed m c (λ x. h (ap (λ g. g m) q ∙ x)) in
        (ap (λ g. has m (g c).senders) p ∙ a.0, ap (λ g. has m (g c).recvers) p ∙ a.1);
  }

  drop_all-IsLinked : (ms : List ℕ) (e : Env V) → IsLinked e → IsLinked (drop_all ms e)
  unfolding drop_all
  drop_all-IsLinked [] e l = l
  drop_all-IsLinked (m ∷ ms) e l = drop_all-IsLinked ms (drop m e) (drop-IsLinked m e l)

  drop_select-IsLinked : (s : ℕ) (e : Env V) → IsLinked e → IsLinked (drop_select s e)
  unfolding drop_select
  drop_select-IsLinked s e l =
      same-IsLinked (drop_all (e.selects s).msgs e) (drop_select s e) refl refl
        (drop_all-IsLinked (e.selects s).msgs e l)

  send_to-IsLinked :
      (blank : V) (c m : ℕ) (oneshot : Bool) (e : Env V)
      → Keyed e
      → IsFree m e
      → IsLinked e
      → IsLinked (send_to blank c m oneshot e).1
  send_to-IsLinked blank c m oneshot e k free l =
      Waits-IsLinked c m e _ l free (send_to-Waits blank c m oneshot e k)

  recv_from-IsLinked :
      (blank : V) (c m : ℕ) (oneshot : Bool) (e : Env V)
      → Keyed e
      → IsFree m e
      → IsLinked e
      → IsLinked (recv_from blank c m oneshot e).1
  recv_from-IsLinked blank c m oneshot e k free l =
      Waits-IsLinked c m e _ l free (recv_from-Waits blank c m oneshot e k)

  local_objects-IsLinked :
      (cell m signal : ℕ) (e : Env V) → IsLinked e → IsLinked (local_objects cell m signal e)
  unfolding make_semaphore
  local_objects-IsLinked cell m signal e l =
      same-IsLinked e (local_objects cell m signal e) refl refl l

  local_objects-IsFree :
      (cell m signal : ℕ) (e : Env V) → IsFree m e → IsFree m (local_objects cell m signal e)
  unfolding make_semaphore
  local_objects-IsFree cell m signal e free c = free c

  listen-IsLinked :
      (blank : V) (s : ℕ) (x : Listener) (e : Env V)
      → IsFree x.msg e
      → x.case_key ≢ invalid_select_key
      → Keyed e
      → IsLinked e
      → IsLinked (listen blank s x e).1
  unfolding listen
  listen-IsLinked blank s x e free o k l = elim (Bool-cases x.sends) [
    | inl y ↦ rw y (recv_from-IsLinked blank x.chan x.msg false f keyed free linked)
    | inr n ↦ rw n (send_to-IsLinked blank x.chan x.msg false f keyed free linked)
  ]
    where
      g : Env V
      g = set_msg x.msg (multiplex x.cell s x.case_key) e

      f : Env V
      f = set_select s (record (g.selects s) { msgs = (g.selects s).msgs ++ x.msg ∷ [] }) g

      keyed : Keyed f
      keyed = set_msg-Keyed x.msg (multiplex x.cell s x.case_key) e o k

      linked : IsLinked f
      linked = same-IsLinked e f refl refl l

  poll-IsLinked : (s : ℕ) (e : Env V) → IsLinked e → IsLinked (poll s e).1
  unfolding poll
  poll-IsLinked s e l = elim (Bool-cases (is_decided s e)) [
    | inl y ↦ rw y (drop_select-IsLinked s e l)
    | inr n ↦ rw n (drop_select-IsLinked s f (same-IsLinked e f refl refl l))
  ]
    where
      f : Env V
      f = set_select s (record (e.selects s) { key = (e.selects s).default_key }) e

  Step-IsLinked : {e f : Env V} → Step e f → Keyed e → IsLinked e → IsLinked f
  unfolding send_begin recv_begin await_signal nowait_send finish make_select make_semaphore
      collect_key
  Step-IsLinked {e} (sends blank task c cell m signal free) k l = same-IsLinked _ _ refl refl (
      recv_from-IsLinked blank c m false _ (local_objects-Keyed cell m signal e k)
        (local_objects-IsFree cell m signal e free) (local_objects-IsLinked cell m signal e l))
  Step-IsLinked {e} (receives blank task c cell m signal free) k l = same-IsLinked _ _ refl refl (
      send_to-IsLinked blank c m false _ (local_objects-Keyed cell m signal e k)
        (local_objects-IsFree cell m signal e free) (local_objects-IsLinked cell m signal e l))
  Step-IsLinked {e} (tries blank c cell m free) k l =
      recv_from-IsLinked blank c m true _ (set_msg-Keyed m (simplex cell 0) e tt k) free
        (same-IsLinked e (set_msg m (simplex cell 0) e) refl refl l)
  Step-IsLinked {e} (finishes m) k l = drop-IsLinked m e l
  Step-IsLinked {e} (makes s signal unused) k l =
      same-IsLinked e (make_select s signal e) refl refl l
  Step-IsLinked {e} (listens blank s x free o) k l = listen-IsLinked blank s x e free o k l
  Step-IsLinked {e} (polls s) k l = poll-IsLinked s e l
  Step-IsLinked {e} (collects s) k l = drop_select-IsLinked s e l

  Reach-IsLinked : {e f : Env V} → AllSound e → IsLinked e → Reach e f → IsLinked f
  Reach-IsLinked a l here = l
  Reach-IsLinked a l (next r s) = Step-IsLinked s (Reach-AllSound a r).keyed (Reach-IsLinked a l r)

  poll-IsAbsent :
      (s : ℕ) (e : Env V) (m c : ℕ)
      → IsLinked e
      → has m (e.selects s).msgs ≡ true
      → IsAbsent m c (poll s e).1
  unfolding poll
  poll-IsAbsent s e m c l h = elim (Bool-cases (is_decided s e)) [
    | inl y ↦ rw y (drop_select-IsAbsent s e m c l h).0
    | inr n ↦ rw n (drop_select-IsAbsent s f m c (same-IsLinked e f refl refl l) (same_msgs ∙ h)).0
  ]
    where
      f : Env V
      f = set_select s (record (e.selects s) { key = (e.selects s).default_key }) e

      same_msgs : has m (f.selects s).msgs ≡ has m (e.selects s).msgs
      same_msgs = ground arith

  -- From a state where every channel has its invariant and no message waits twice, nor on a channel that it was not offered to,
  -- and over any interleaving of the operations: no message waits twice in a queue; the guard of
  -- a send or receive leaves its message in no queue of any channel; and so does the end of a select,
  -- with or without a default case, for each message that its listeners offered since it was made or last ended.
  pub Reach-IsAbsent :
      {e f : Env V} (m c s : ℕ)
      → AllSound e
      → IsLinked e
      → (r : Reach e f)
      → Distinct (f.chans c).senders
        × Distinct (f.chans c).recvers
        × IsAbsent m c (finish m f)
        × ((has m (offered r s) ≡ false)
            ⊎ (IsAbsent m c (collect_key s f).1 × IsAbsent m c (poll s f).1))
  unfolding finish collect_key
  Reach-IsAbsent {e} {f} m c s a l r = (
    linked.senders c,
    linked.recvers c,
    drop_withdraws m c f linked,
    elim (Bool-cases (has m (offered r s))) [
      | inl y ↦
          (let h : has m (f.selects s).msgs ≡ true = Reach-Noted s a r m y in
            inr ((drop_select-IsAbsent s f m c linked h).0, poll-IsAbsent s f m c linked h))
      | inr n ↦ inl n
    ],
  )
    where
      linked : IsLinked f
      linked = Reach-IsLinked a l r
