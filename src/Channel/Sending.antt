-- ===== src/Channel/Sending.antt =====
-- `BaseChannel::recv_from`, the operation of a sender, keeps the invariant.
use cgo.Base.{
  ℕ, ◌≡◌, refl, ap, Bool, true, false, if◌then◌else◌, Option, none, some, List, [], ◌∷◌, ◌++◌,
  arith, update, ◌⊎◌, inl, inr, length, length-append, All-append, sym, subst,
}
use cgo.Channel.{
  Env, Chan, Status, ok, invalid_src, invalid_dst, invalid_oneshot, inprocess, raised,
  recv_from_msg,
}
use cgo.Channel.Transfer.{
  rest, buffer_recv_from, set_recvers, drain, hand, wait_as_sender, or_wait_as_sender, recv_from,
}
use cgo.Channel.Kept.{Kept, send_to_msg-Kept}
use cgo.Channel.Buffer.{
  live, IsStale, Later, Later-refl, Later-trans, Kept-Later, set_chan-Later, live-Later,
  IsStale-Later, Keyed-Later, Took, buffer_recv_from-Took,
}
use cgo.Channel.Invariant.{Inv, Served, IsSound-Later, Served-sound, Served-trans}
use cgo.Channel.Receiving.{bound-Served}
use cgo.Channel.Drain.{IsFilled, drain-Served}

module _ {V : Type 0} where
  -- While `hand` runs: `ms` are the receivers left, and the buffer could not take from `src`.
  record IsHanding (c src : ℕ) (ms : List ℕ) (e : Env V) : Type 0 where
    inv : Inv c e
    waiting : (e.chans c).recvers ≡ ms
    untaken : (length (e.chans c).buffer ≡ (e.chans c).capacity) ⊎ (live src e ≡ false)

  abbrev Handed : ℕ → ℕ → Env V → Option Status × Env V → Type 0
  Handed c src e (some st, f) = Served c e f
  Handed c src e (none, f) = Later c e f × IsHanding c src [] f

  module _ (c src m : ℕ) (ms : List ℕ) (e : Env V) (p : IsHanding c src (m ∷ ms) e) where
    abbrev given : Env V
    given = (recv_from_msg m src e).1

    kept : Kept e given
    unfolding recv_from_msg
    kept = send_to_msg-Kept e p.inv.keyed src m

    stay : Served c e given
    stay =
        Served-sound (e.chans c) p.inv.keyed (Kept-Later c kept) (ap (λ h. h c) kept.chans)
          (IsSound-Later _ (Kept-Later c kept) p.inv.sound)

    later : Later c e (set_recvers c ms given)
    later = Later-trans (Kept-Later c kept) (set_chan-Later c _ given)

    same : (set_recvers c ms given).chans c ≡ record (e.chans c) { recvers = ms }
    same = ground (arith, kept.chans)

    rest_fed : ((e.chans c).buffer ≡ []) ⊎ IsStale e (m ∷ ms)
    rest_fed = subst (λ xs. ((e.chans c).buffer ≡ []) ⊎ IsStale e xs) p.waiting p.inv.sound.fed

    dropped : Served c e (set_recvers c ms given)
    dropped = Served-sound _ p.inv.keyed later same (record {
      bounded = p.inv.sound.bounded;
      one_side = inl (ground (arith, p.inv.sound.one_side, p.waiting));
      fed = ground (arith, rest_fed, IsStale-Later ms later);
      full = ground (arith, p.inv.sound.full, IsStale-Later (e.chans c).senders later);
    })

    handing : IsHanding c src ms (set_recvers c ms given)
    handing = record {
      inv = dropped.1;
      waiting = ap (λ x. x.recvers) same;
      untaken = ground (arith, p.untaken, same, live-Later src later);
    }

  hand-Handed :
      (c src : ℕ) (ms : List ℕ) (e : Env V)
      → IsHanding c src ms e
      → Handed c src e (hand c src ms e)
  unfolding hand
  hand-Handed c src [] e p = (Later-refl c e, p)
  hand-Handed c src (m ∷ ms) e p =
      go (recv_from_msg m src e).0
        (hand-Handed c src ms (set_recvers c ms (given c src m ms e p)) (handing c src m ms e p))
    where
      next : Env V
      next = set_recvers c ms (given c src m ms e p)

      on : (r : Option Status × Env V) → Handed c src next r → Handed c src e r
      on (some st, f) h = Served-trans (later c src m ms e p) h
      on (none, f) h = (Later-trans (later c src m ms e p) h.0, h.1)

      go :
          (st : Status)
          → Handed c src next (hand c src ms next)
          → Handed c src e (elim st [
            | ok ↦ (some ok, next)
            | invalid_dst ↦ hand c src ms next
            | raised ↦ (some raised, (recv_from_msg m src e).1)
            | _ ↦ (some invalid_src, (recv_from_msg m src e).1)
          ])
      go ok h = dropped c src m ms e p
      go invalid_dst h = on (hand c src ms next) h
      go raised h = stay c src m ms e p
      go invalid_src h = stay c src m ms e p
      go invalid_oneshot h = stay c src m ms e p
      go inprocess h = stay c src m ms e p

  wait-Served :
      (c src : ℕ) (oneshot : Bool) (e : Env V)
      → IsHanding c src [] e
      → Served c e (wait_as_sender c src oneshot e).1
  unfolding wait_as_sender
  wait-Served c src true e p = (Later-refl c e, p.inv)
  wait-Served c src false e p =
      Served-sound y p.inv.keyed (set_chan-Later c y e) (ground arith) (record {
        bounded = p.inv.sound.bounded;
        one_side = inr p.waiting;
        fed = p.inv.sound.fed;
        full = ground (
          arith,
          p.untaken,
          p.inv.sound.full,
          All-append (λ m. live m e ≡ false) (e.chans c).senders (src ∷ []),
        );
      })
    where
      y : Chan V
      y = record (e.chans c) { senders = (e.chans c).senders ++ src ∷ [] }

  rest-append : (vs : List V) (v : V) → (vs ≡ []) → rest (vs ++ v ∷ []) ≡ []
  rest-append [] v h = refl
  rest-append (w ∷ vs) v h = cc

  module _ (c src : ℕ) (e : Env V) (i : Inv c e) where
    Took-Served : (f : Env V) → Took c src e (true, f) → Served c e (drain c (f.chans c).recvers f)
    Took-Served f g = Served-trans g.0 (
        drain-Served c _ f (Keyed-Later g.0 i.keyed) (
          subst (λ x. IsFilled x f x.recvers) (sym g.1)
            (record {
              waiting = refl;
              bounded =
                  ground
                    (arith, i.sound.bounded, g, length-append (e.chans c).buffer (f.local ∷ []));
              one_side = i.sound.one_side;
              senders = ground (arith, i.sound.full, g, IsStale-Later (e.chans c).senders g.0);
              fed = ground (
                arith,
                i.sound.fed,
                rest-append (e.chans c).buffer f.local,
                IsStale-Later (e.chans c).recvers g.0,
              );
            })))

    missed-IsHanding : (f : Env V) → Took c src e (false, f) → IsHanding c src (f.chans c).recvers f
    missed-IsHanding f g = record {
      inv = (Served-sound (e.chans c) i.keyed g.0 g.1 (IsSound-Later _ g.0 i.sound)).1;
      waiting = refl;
      untaken = ground (arith, g, live-Later src g.0);
    }

  -- From a state with the channel's invariant, and however it ends, `recv_from` leaves the
  -- invariant, the messages and the other channels as they were, and every select that was decided
  -- with its key.
  pub recv_from-Served :
      (blank : V) (c src : ℕ) (oneshot : Bool) (e : Env V)
      → Inv c e
      → Served c e (recv_from blank c src oneshot e).1
  unfolding recv_from
  recv_from-Served blank c src oneshot e i =
      go (buffer_recv_from blank c src e0) (buffer_recv_from-Took blank c src e0 j.1.keyed)
    where
      e0 : Env V
      e0 = record e { chan_of = update e.chan_of src (some c) }

      j : Served c e e0
      j = bound-Served c src e i

      finish :
          (f : Env V) (r : Option Status × Env V)
          → Later c e f
          → Handed c src f r
          → Served c e (or_wait_as_sender c src oneshot r).1
      finish f (some st, g) l p = Served-trans l p
      finish f (none, g) l p = Served-trans (Later-trans l p.0) (wait-Served c src oneshot g p.1)

      go :
          (b : Bool × Env V)
          → Took c src e0 b
          → Served c e
              (if b.0
                then (ok, drain c (b.1.chans c).recvers b.1)
                else or_wait_as_sender c src oneshot (hand c src (b.1.chans c).recvers b.1)).1
      go (true, f) g = Served-trans j.0 (Took-Served c src e0 j.1 f g)
      go (false, f) g =
          finish f _ (Later-trans j.0 g.0)
            (hand-Handed c src _ f (missed-IsHanding c src e0 j.1 f g))
