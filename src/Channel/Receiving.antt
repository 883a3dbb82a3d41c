-- ===== src/Channel/Receiving.antt =====
-- `BaseChannel::send_to`, the operation of a receiver, keeps the invariant.
use cgo.Base.{
  ℕ, suc, ◌≡◌, refl, ◌≢◌, ap, Bool, true, false, if◌then◌else◌, Option, none, some, List, [], ◌∷◌,
  ◌++◌, arith, update, ◌⊎◌, inl, inr, length, All-append, sym, subst,
}
use cgo.Channel.{
  Env, Chan, Status, ok, invalid_src, invalid_dst, invalid_oneshot, inprocess, raised, send_to_msg,
}
use cgo.Channel.Transfer.{
  rest, buffer_send_to, set_senders, refill, pull, wait_as_recver, or_wait_as_recver, send_to,
}
use cgo.Channel.Kept.{Kept, send_to_msg-Kept}
use cgo.Channel.Buffer.{
  live, IsStale, Later, Later-refl, Later-trans, Kept-Later, set_chan-Later, live-Later,
  IsStale-Later, Keyed-Later, Gave, buffer_send_to-Gave,
}
use cgo.Channel.Invariant.{
  Inv, IsDrained, Served, IsSound-Later, Served-sound, Served-trans, refill-Served,
}

module _ {V : Type 0} where
  -- While `pull` runs: `ms` are the senders left, and the buffer could not serve `dst`.
  record IsPulling (c dst : ℕ) (ms : List ℕ) (e : Env V) : Type 0 where
    inv : Inv c e
    waiting : (e.chans c).senders ≡ ms
    unserved : ((e.chans c).buffer ≡ []) ⊎ (live dst e ≡ false)

  -- How `pull` ends: if it comes to the end of the queue, `dst` may wait.
  abbrev Pulled : ℕ → ℕ → Env V → Option Status × Env V → Type 0
  Pulled c dst e (some st, f) = Served c e f
  Pulled c dst e (none, f) = Later c e f × IsPulling c dst [] f

  module _ (c dst m : ℕ) (ms : List ℕ) (e : Env V) (p : IsPulling c dst (m ∷ ms) e) where
    abbrev sent : Env V
    sent = (send_to_msg m dst e).1

    kept : Kept e sent
    kept = send_to_msg-Kept e p.inv.keyed m dst

    stay : Served c e sent
    stay =
        Served-sound (e.chans c) p.inv.keyed (Kept-Later c kept) (ap (λ h. h c) kept.chans)
          (IsSound-Later _ (Kept-Later c kept) p.inv.sound)

    later : Later c e (set_senders c ms sent)
    later = Later-trans (Kept-Later c kept) (set_chan-Later c _ sent)

    same : (set_senders c ms sent).chans c ≡ record (e.chans c) { senders = ms }
    same = ground (arith, kept.chans)

    rest_full : (length (e.chans c).buffer ≡ (e.chans c).capacity) ⊎ IsStale e (m ∷ ms)
    rest_full =
        subst (λ xs. (length (e.chans c).buffer ≡ (e.chans c).capacity) ⊎ IsStale e xs) p.waiting
          p.inv.sound.full

    dropped : Served c e (set_senders c ms sent)
    dropped = Served-sound _ p.inv.keyed later same (record {
      bounded = p.inv.sound.bounded;
      one_side = inr (ground (arith, p.inv.sound.one_side, p.waiting));
      fed = ground (arith, p.inv.sound.fed, IsStale-Later (e.chans c).recvers later);
      full = ground (arith, rest_full, IsStale-Later ms later);
    })

    pulling : IsPulling c dst ms (set_senders c ms sent)
    pulling = record {
      inv = dropped.1;
      waiting = ap (λ x. x.senders) same;
      unserved = ground (arith, p.unserved, same, live-Later dst later);
    }

  pull-Pulled :
      (c dst : ℕ) (ms : List ℕ) (e : Env V)
      → IsPulling c dst ms e
      → Pulled c dst e (pull c dst ms e)
  unfolding pull
  pull-Pulled c dst [] e p = (Later-refl c e, p)
  pull-Pulled c dst (m ∷ ms) e p =
      go (send_to_msg m dst e).0
        (pull-Pulled c dst ms (set_senders c ms (sent c dst m ms e p)) (pulling c dst m ms e p))
    where
      next : Env V
      next = set_senders c ms (sent c dst m ms e p)

      on : (r : Option Status × Env V) → Pulled c dst next r → Pulled c dst e r
      on (some st, f) h = Served-trans (later c dst m ms e p) h
      on (none, f) h = (Later-trans (later c dst m ms e p) h.0, h.1)

      go :
          (st : Status)
          → Pulled c dst next (pull c dst ms next)
          → Pulled c dst e (elim st [
            | ok ↦ (some ok, next)
            | invalid_src ↦ pull c dst ms next
            | raised ↦ (some raised, (send_to_msg m dst e).1)
            | _ ↦ (some invalid_dst, (send_to_msg m dst e).1)
          ])
      go ok h = dropped c dst m ms e p
      go invalid_src h = on (pull c dst ms next) h
      go raised h = stay c dst m ms e p
      go invalid_dst h = stay c dst m ms e p
      go invalid_oneshot h = stay c dst m ms e p
      go inprocess h = stay c dst m ms e p

  length-rest : (vs : List V) → vs ≢ [] → length vs ≡ suc (length (rest vs))
  length-rest [] h = absurd (h refl)
  length-rest (v ∷ vs) h = refl

  wait-Served :
      (c dst : ℕ) (oneshot : Bool) (e : Env V)
      → IsPulling c dst [] e
      → Served c e (wait_as_recver c dst oneshot e).1
  unfolding wait_as_recver
  wait-Served c dst true e p = (Later-refl c e, p.inv)
  wait-Served c dst false e p =
      Served-sound y p.inv.keyed (set_chan-Later c y e) (ground arith) (record {
        bounded = p.inv.sound.bounded;
        one_side = inl p.waiting;
        fed = ground (
          arith,
          p.unserved,
          p.inv.sound.fed,
          All-append (λ m. live m e ≡ false) (e.chans c).recvers (dst ∷ []),
        );
        full = p.inv.sound.full;
      })
    where
      y : Chan V
      y = record (e.chans c) { recvers = (e.chans c).recvers ++ dst ∷ [] }

  module _ (blank : V) (c dst : ℕ) (e : Env V) (i : Inv c e) where
    Gave-Served :
        (f : Env V) → Gave c dst e (true, f) → Served c e (refill blank c (f.chans c).senders f)
    Gave-Served f g = Served-trans g.0 (
        refill-Served blank c _ f (Keyed-Later g.0 i.keyed) (
          subst (λ x. IsDrained x f x.senders) (sym g.1)
            (record {
              waiting = refl;
              room = ground (arith, i.sound.bounded, length-rest _ g.3);
              one_side = i.sound.one_side;
              recvers = ground (arith, i.sound.fed, g, IsStale-Later (e.chans c).recvers g.0);
              full =
                  ground
                    (arith, i.sound.full, length-rest _ g.3, IsStale-Later (e.chans c).senders g.0);
            })))

    missed-IsPulling : (f : Env V) → Gave c dst e (false, f) → IsPulling c dst (f.chans c).senders f
    missed-IsPulling f g = record {
      inv = (Served-sound (e.chans c) i.keyed g.0 g.1 (IsSound-Later _ g.0 i.sound)).1;
      waiting = refl;
      unserved = ground (arith, g, live-Later dst g.0);
    }

  bound-Later :
      (c dst : ℕ) (e : Env V) → Later c e (record e { chan_of = update e.chan_of dst (some c) })
  bound-Later c dst e = record { msgs = refl; stable = λ s d. refl; others = λ j n. refl }

  pub bound-Served :
      (c dst : ℕ) (e : Env V)
      → Inv c e
      → Served c e (record e { chan_of = update e.chan_of dst (some c) })
  bound-Served c dst e i =
      Served-sound (e.chans c) i.keyed (bound-Later c dst e) refl
        (IsSound-Later _ (bound-Later c dst e) i.sound)

  -- From a state with the channel's invariant, and however it ends, `send_to` leaves the invariant,
  -- the messages and the other channels as they were, and every select that was decided with its
  -- key.
  pub send_to-Served :
      (blank : V) (c dst : ℕ) (oneshot : Bool) (e : Env V)
      → Inv c e
      → Served c e (send_to blank c dst oneshot e).1
  unfolding send_to
  send_to-Served blank c dst oneshot e i =
      go (buffer_send_to c dst e0) (buffer_send_to-Gave c dst e0 j.1.keyed)
    where
      e0 : Env V
      e0 = record e { chan_of = update e.chan_of dst (some c) }

      j : Served c e e0
      j = bound-Served c dst e i

      finish :
          (f : Env V) (r : Option Status × Env V)
          → Later c e f
          → Pulled c dst f r
          → Served c e (or_wait_as_recver c dst oneshot r).1
      finish f (some st, g) l p = Served-trans l p
      finish f (none, g) l p = Served-trans (Later-trans l p.0) (wait-Served c dst oneshot g p.1)

      go :
          (b : Bool × Env V)
          → Gave c dst e0 b
          → Served c e
              (if b.0
                then (ok, refill blank c (b.1.chans c).senders b.1)
                else or_wait_as_recver c dst oneshot (pull c dst (b.1.chans c).senders b.1)).1
      go (true, f) g = Served-trans j.0 (Gave-Served blank c dst e0 j.1 f g)
      go (false, f) g =
          finish f _ (Later-trans j.0 g.0)
            (pull-Pulled c dst _ f (missed-IsPulling blank c dst e0 j.1 f g))
