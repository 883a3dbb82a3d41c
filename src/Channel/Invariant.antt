-- ===== src/Channel/Invariant.antt =====
-- The invariant of a channel: the buffer respects the capacity, senders and receivers do not wait
-- at once, and nobody who can still be served waits beside a buffer that could serve them.
use cgo.Base.{
  ℕ, suc, ◌≤◌, ◌≡◌, refl, Bool, true, false, if◌then◌else◌, List, [], ◌∷◌, ◌++◌, arith, ◌⊎◌, inr,
  length, length-append, sym, subst,
}
use cgo.Channel.{Env, Chan}
use cgo.Channel.Transfer.{buffer_recv_from, set_senders, refill}
use cgo.Channel.Buffer.{
  IsStale, Later, Later-refl, Later-trans, set_chan-Later, IsStale-Later, Keyed, Keyed-Later, Took,
  buffer_recv_from-Took,
}

module _ {V : Type 0} where
  -- Of a channel `x` in `e`.
  pub record IsSound (x : Chan V) (e : Env V) : Type 0 where
    pub bounded : length x.buffer ≤ x.capacity
    pub one_side : (x.senders ≡ []) ⊎ (x.recvers ≡ [])
    pub fed : (x.buffer ≡ []) ⊎ IsStale e x.recvers
    pub full : (length x.buffer ≡ x.capacity) ⊎ IsStale e x.senders

  pub record Inv (c : ℕ) (e : Env V) : Type 0 where
    pub keyed : Keyed e
    pub sound : IsSound (e.chans c) e

  pub IsSound-Later : {c : ℕ} {e f : Env V} (x : Chan V) → Later c e f → IsSound x e → IsSound x f
  IsSound-Later x l s = record {
    bounded = s.bounded;
    one_side = s.one_side;
    fed = ground (arith, IsStale-Later x.recvers l);
    full = ground (arith, IsStale-Later x.senders l);
  }

  -- Where `refill` is called: the buffer has just given an item away.
  pub record IsDrained (x : Chan V) (e : Env V) (ms : List ℕ) : Type 0 where
    pub waiting : x.senders ≡ ms
    pub room : suc (length x.buffer) ≤ x.capacity
    pub one_side : (x.senders ≡ []) ⊎ (x.recvers ≡ [])
    pub recvers : IsStale e x.recvers
    pub full : (suc (length x.buffer) ≡ x.capacity) ⊎ IsStale e ms

  -- What an operation on channel `c` leaves behind.
  abbrev pub Served : ℕ → Env V → Env V → Type 0
  Served c e f = Later c e f × Inv c f

  pub Served-sound :
      {c : ℕ} {e f : Env V} (y : Chan V)
      → Keyed e
      → Later c e f
      → f.chans c ≡ y
      → IsSound y f
      → Served c e f
  Served-sound {f} y k l p s =
      (l, record { keyed = Keyed-Later l k; sound = subst (λ x. IsSound x f) (sym p) s })

  pub Served-trans : {c : ℕ} {e f g : Env V} → Later c e f → Served c f g → Served c e g
  Served-trans l s = (Later-trans l s.0, s.1)

  -- One round of `refill`.
  refill_round :
      (c m : ℕ) (ms : List ℕ) (e f : Env V)
      → Keyed e
      → IsDrained (e.chans c) e (m ∷ ms)
      → Took c m (set_senders c ms e) (true, f)
      → Served c e f
  refill_round c m ms e f k d t = Served-sound y k later (ground (arith, t)) (record {
    bounded = ground (arith, d.room, length-append (e.chans c).buffer (f.local ∷ []));
    one_side = inr (ground (arith, d.one_side, d.waiting));
    fed = inr (IsStale-Later _ later d.recvers);
    full =
        ground
          (arith, d.full, length-append (e.chans c).buffer (f.local ∷ []), IsStale-Later ms later);
  })
    where
      y : Chan V
      y = record (e.chans c) { senders = ms; buffer = (e.chans c).buffer ++ f.local ∷ [] }

      later : Later c e f
      later = Later-trans (set_chan-Later c _ e) t.0

  refill_skip :
      (c m : ℕ) (ms : List ℕ) (e f : Env V)
      → IsDrained (e.chans c) e (m ∷ ms)
      → Took c m (set_senders c ms e) (false, f)
      → Later c e f × IsDrained (f.chans c) f ms
  refill_skip c m ms e f d t = (
    later,
    subst (λ x. IsDrained x f ms) (sym same)
        (record {
          waiting = refl;
          room = d.room;
          one_side = inr (ground (arith, d.one_side, d.waiting));
          recvers = IsStale-Later _ later d.recvers;
          full = ground (arith, d.full, IsStale-Later ms later);
        }),
  )
    where
      same : f.chans c ≡ record (e.chans c) { senders = ms }
      same = ground (arith, t)

      later : Later c e f
      later = Later-trans (set_chan-Later c _ e) t.0

  pub refill-Served :
      (blank : V) (c : ℕ) (ms : List ℕ) (e : Env V)
      → Keyed e
      → IsDrained (e.chans c) e ms
      → Served c e (refill blank c ms e)
  unfolding refill
  refill-Served blank c [] e k d = (
    Later-refl c e,
    record {
      keyed = k;
      sound = record {
        bounded = ground (arith, d.room);
        one_side = d.one_side;
        fed = inr d.recvers;
        full = inr (subst (IsStale e) (sym d.waiting) tt);
      };
    },
  )
  refill-Served blank c (m ∷ ms) e k d =
      go (buffer_recv_from blank c m e1) (buffer_recv_from-Took blank c m e1 k)
        (λ f kf df. refill-Served blank c ms f kf df)
    where
      e1 : Env V
      e1 = set_senders c ms e

      go :
          (r : Bool × Env V)
          → Took c m e1 r
          → ((f : Env V) → Keyed f → IsDrained (f.chans c) f ms → Served c f (refill blank c ms f))
          → Served c e (if r.0 then r.1 else refill blank c ms r.1)
      go (true, f) t ih = refill_round c m ms e f k d t
      go (false, f) t ih =
          let r = refill_skip c m ms e f d t in Served-trans r.0 (ih f (Keyed-Later r.0 k) r.1)
