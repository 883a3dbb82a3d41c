-- ===== src/Select/Keeping.antt =====
-- What each operation does to the invariants of all channels.
use cgo.Base.{
  ℕ, ◌≡◌, refl, ◌≢◌, ◌==◌, ◌||◌, Bool, true, false, Option, none, some, List, [], ◌∷◌, ◌++◌, arith,
  has, Bool-cases, inl, inr, ap, sym, subst, eq_of_==,
}
use cgo.Linked.{unlink_from}
use cgo.Channel.{
  Env, Chan, Msg, simplex, multiplex, Listener, invalid_select_key, is_decided, drop, drop_from,
  set_chan, set_select,
}
use cgo.Channel.Transfer.{send_to, recv_from}
use cgo.Channel.Kept.{IsKeyed, is_live}
use cgo.Channel.Buffer.{live, IsStale, Keyed, stale_msg}
use cgo.Channel.Invariant.{IsSound, IsSound-Later, Served}
use cgo.Channel.Receiving.{send_to-Served}
use cgo.Channel.Sending.{recv_from-Served}
use cgo.Channel.Ops.{make_semaphore, set_msg, local_objects}
use cgo.Select.{make_select, listen, drop_all, drop_select, poll}

unlink_from-nil : (m : ℕ) (ms : List ℕ) → ms ≡ [] → unlink_from m ms ≡ []
unfolding unlink_from
unlink_from-nil m ms e = rw e refl

-- The message is of the select `s`.
abbrev pub is_of : ℕ → Msg → Bool
is_of s (simplex d r) = false
is_of s (multiplex d r k) = r == s

module _ {V : Type 0} where
  -- The message waits on a channel.
  abbrev pub is_queued : ℕ → Chan V → Bool
  is_queued m x = has m x.senders || has m x.recvers

  -- The address `m` is of no message that waits.
  abbrev pub IsFree : ℕ → Env V → Type 0
  IsFree m e = (c : ℕ) → is_queued m (e.chans c) ≡ false

  -- No message that waits belongs to a select at the address `s`.
  abbrev pub IsUnused : ℕ → Env V → Type 0
  IsUnused s e = (c m : ℕ) → is_queued m (e.chans c) ≡ true → is_of s (e.msgs m) ≡ false

  -- Every channel has its invariant.
  pub record AllSound (e : Env V) : Type 0 where
    pub keyed : Keyed e
    pub sound : (c : ℕ) → IsSound (e.chans c) e

  -- What was decided for the waiting messages stays decided.
  IsStale-change :
      (e f : Env V) (ms : List ℕ)
      → ((m : ℕ) → has m ms ≡ true → live m e ≡ false → live m f ≡ false)
      → IsStale e ms
      → IsStale f ms
  IsStale-change e f [] h o = tt
  IsStale-change e f (m ∷ ms) h o =
      (h m (ground arith) o.0, IsStale-change e f ms (λ k y. h k (ground (arith, y))) o.1)

  IsSound-change :
      (x : Chan V) (e f : Env V)
      → ((m : ℕ) → is_queued m x ≡ true → live m e ≡ false → live m f ≡ false)
      → IsSound x e
      → IsSound x f
  IsSound-change x e f h s = record {
    bounded = s.bounded;
    one_side = s.one_side;
    fed = ground (arith, s.fed, IsStale-change e f x.recvers (λ m y. h m (ground (arith, y))));
    full = ground (arith, s.full, IsStale-change e f x.senders (λ m y. h m (ground (arith, y))));
  }

  Served-AllSound : (c : ℕ) (e f : Env V) → AllSound e → Served c e f → AllSound f
  Served-AllSound c e f a s = record {
    keyed = s.1.keyed;
    sound = λ j. elim (Bool-cases (j == c)) [
      | inl y ↦ subst (λ i. IsSound (f.chans i) f) (ground (arith, y)) s.1.sound
      | inr n ↦
          subst (λ x. IsSound x f) (sym (s.0.others j (ground (arith, n))))
            (IsSound-Later (e.chans j) s.0 (a.sound j))
    ];
  }

  pub set_msg-AllSound :
      (m : ℕ) (x : Msg) (e : Env V) → AllSound e → IsFree m e → IsKeyed x → AllSound (set_msg m x e)
  set_msg-AllSound m x e a free k = record {
    keyed = λ i. elim (Bool-cases (m == i)) [ inl y ↦ rw y k | inr n ↦ rw n (a.keyed i) ];
    sound = λ c. IsSound-change (e.chans c) e (set_msg m x e) (stays c) (a.sound c);
  }
    where
      stays :
          (c i : ℕ)
          → is_queued i (e.chans c) ≡ true
          → live i e ≡ false
          → live i (set_msg m x e) ≡ false
      stays c i q o = elim (Bool-cases (m == i)) [
        | inl y ↦
            (let f : is_queued i (e.chans c) ≡ false =
                subst (λ z. is_queued z (e.chans c) ≡ false) (eq_of_== m i y) (free c) in
              absurd (ground (arith, q, f)))
        | inr n ↦ rw n o
      ]

  -- What changes no channel and no message, and no select that is decided for a waiting one.
  calm-AllSound :
      (e f : Env V)
      → f.chans ≡ e.chans
      → f.msgs ≡ e.msgs
      → ((c m : ℕ) → is_queued m (e.chans c) ≡ true → live m e ≡ false → live m f ≡ false)
      → AllSound e
      → AllSound f
  calm-AllSound e f p q h a = record {
    keyed = λ m. subst IsKeyed (sym (ap (λ g. g m) q)) (a.keyed m);
    sound = λ c.
        subst (λ x. IsSound x f) (sym (ap (λ g. g c) p))
          (IsSound-change (e.chans c) e f (h c) (a.sound c));
  }

  IsStale-unlink_from :
      (e : Env V) (m : ℕ) (ms : List ℕ) → IsStale e ms → IsStale e (unlink_from m ms)
  unfolding unlink_from
  IsStale-unlink_from e m [] o = tt
  IsStale-unlink_from e m (x ∷ ms) o = elim (Bool-cases (m == x)) [
    | inl y ↦ rw y o.1
    | inr n ↦ rw n (o.0, IsStale-unlink_from e m ms o.1)
  ]

  pub drop_from-AllSound :
      (o : Option ℕ) (m : ℕ) (e : Env V) → AllSound e → AllSound (drop_from o m e)
  unfolding drop_from
  drop_from-AllSound none m e a = a
  drop_from-AllSound (some c) m e a = record {
    keyed = a.keyed;
    sound = λ j. elim (Bool-cases (c == j)) [
      | inl y ↦ rw y (dropped (a.sound c))
      | inr n ↦
          rw n (IsSound-change (e.chans j) e (drop_from (some c) m e) (λ i q o. o) (a.sound j))
    ];
  }
    where
      x : Chan V
      x = e.chans c

      left : Chan V
      left = record x { senders = unlink_from m x.senders; recvers = unlink_from m x.recvers }

      dropped : IsSound x e → IsSound left (set_chan c left e)
      dropped s = record {
        bounded = s.bounded;
        one_side =
            ground (arith, s.one_side, unlink_from-nil m x.senders, unlink_from-nil m x.recvers);
        fed = ground (arith, s.fed, IsStale-unlink_from e m x.recvers);
        full = ground (arith, s.full, IsStale-unlink_from e m x.senders);
      }

  drop_all-AllSound : (ms : List ℕ) (e : Env V) → AllSound e → AllSound (drop_all ms e)
  unfolding drop_all drop
  drop_all-AllSound [] e a = a
  drop_all-AllSound (m ∷ ms) e a =
      drop_all-AllSound ms (drop m e) (drop_from-AllSound (e.chan_of m) m e a)

  -- What changes no channel, no message and no select that is decided.
  pub stable-AllSound :
      (e f : Env V)
      → f.chans ≡ e.chans
      → f.msgs ≡ e.msgs
      → ((r : ℕ) → is_decided r e ≡ true → (f.selects r).key ≡ (e.selects r).key)
      → AllSound e
      → AllSound f
  stable-AllSound e f p q h a =
      calm-AllSound e f p q
        (λ c m y o.
          stale_msg (f.msgs m) e f h (subst (λ g. is_live (g m) e.selects ≡ false) (sym q) o))
        a

  pub drop_select-AllSound : (s : ℕ) (e : Env V) → AllSound e → AllSound (drop_select s e)
  unfolding drop_select
  drop_select-AllSound s e a =
      let e1 = drop_all (e.selects s).msgs e in
      stable-AllSound e1 (drop_select s e) refl refl (λ r d. ground arith)
        (drop_all-AllSound (e.selects s).msgs e a)

  pub local_objects-AllSound :
      (cell m signal : ℕ) (e : Env V)
      → AllSound e
      → IsFree m e
      → AllSound (local_objects cell m signal e)
  unfolding make_semaphore
  local_objects-AllSound cell m signal e a free =
      let f : Env V = make_semaphore signal 0 e in
      set_msg-AllSound m (simplex cell signal) f (stable-AllSound e f refl refl (λ r d. refl) a)
        free tt

  pub recv_from-AllSound :
      (blank : V) (c m : ℕ) (oneshot : Bool) (e : Env V)
      → AllSound e
      → AllSound (recv_from blank c m oneshot e).1
  recv_from-AllSound blank c m oneshot e a =
      Served-AllSound c e _ a
        (recv_from-Served blank c m oneshot e (record { keyed = a.keyed; sound = a.sound c }))

  pub send_to-AllSound :
      (blank : V) (c m : ℕ) (oneshot : Bool) (e : Env V)
      → AllSound e
      → AllSound (send_to blank c m oneshot e).1
  send_to-AllSound blank c m oneshot e a =
      Served-AllSound c e _ a
        (send_to-Served blank c m oneshot e (record { keyed = a.keyed; sound = a.sound c }))

  pub make_select-AllSound :
      (s signal : ℕ) (e : Env V) → IsUnused s e → AllSound e → AllSound (make_select s signal e)
  unfolding make_select make_semaphore
  make_select-AllSound s signal e unused a =
      calm-AllSound e (make_select s signal e) refl refl
        (λ c m q o. stays (e.msgs m) (unused c m q) o) a
    where
      stays :
          (x : Msg)
          → is_of s x ≡ false
          → is_live x e.selects ≡ false
          → is_live x (make_select s signal e).selects ≡ false
      stays (simplex d r) u o = o
      stays (multiplex d r k) u o = ground (arith, u, o)

  pub listen-AllSound :
      (blank : V) (s : ℕ) (l : Listener) (e : Env V)
      → AllSound e
      → IsFree l.msg e
      → l.case_key ≢ invalid_select_key
      → AllSound (listen blank s l e).1
  unfolding listen
  listen-AllSound blank s l e a free k = elim (Bool-cases l.sends) [
    | inl y ↦ rw y (recv_from-AllSound blank l.chan l.msg false f ready)
    | inr n ↦ rw n (send_to-AllSound blank l.chan l.msg false f ready)
  ]
    where
      g : Env V
      g = set_msg l.msg (multiplex l.cell s l.case_key) e

      f : Env V
      f = set_select s (record (g.selects s) { msgs = (g.selects s).msgs ++ l.msg ∷ [] }) g

      ready : AllSound f
      ready =
          stable-AllSound g f refl refl (λ r d. ground arith)
            (set_msg-AllSound l.msg (multiplex l.cell s l.case_key) e a free k)

  pub poll-AllSound : (s : ℕ) (e : Env V) → AllSound e → AllSound (poll s e).1
  unfolding poll
  poll-AllSound s e a = elim (Bool-cases (is_decided s e)) [
    | inl y ↦ rw y (drop_select-AllSound s e a)
    | inr n ↦
        rw n
          (drop_select-AllSound s f (stable-AllSound e f refl refl (λ r d. ground (arith, n, d)) a))
  ]
    where
      f : Env V
      f = set_select s (record (e.selects s) { key = (e.selects s).default_key }) e
