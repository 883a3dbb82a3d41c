-- ===== src/Channel/Drain.antt =====
-- The loop of `BaseChannel::recv_from` after the buffer took an item: `drain` hands one buffered
-- item to a waiting receiver, and drops the receivers it finds decided.
use cgo.Base.{
  ℕ, ◌≤◌, ◌≡◌, refl, Bool, true, false, if◌then◌else◌, List, [], ◌∷◌, arith, ◌⊎◌, inl, inr, length,
  sym, subst,
}
use cgo.Channel.{Env, Chan}
use cgo.Channel.Transfer.{rest, buffer_send_to, set_recvers, drain}
use cgo.Channel.Buffer.{
  IsStale, Later, Later-refl, Later-trans, set_chan-Later, IsStale-Later, Keyed, Keyed-Later, Gave,
  buffer_send_to-Gave,
}
use cgo.Channel.Invariant.{Served, Served-sound, Served-trans}

module _ {V : Type 0} where
  -- Where `drain` is called: the buffer has just taken an item.
  pub record IsFilled (x : Chan V) (e : Env V) (ms : List ℕ) : Type 0 where
    pub waiting : x.recvers ≡ ms
    pub bounded : length x.buffer ≤ x.capacity
    pub one_side : (x.senders ≡ []) ⊎ (x.recvers ≡ [])
    pub senders : IsStale e x.senders
    pub fed : (rest x.buffer ≡ []) ⊎ IsStale e ms

  pub rest_le : (vs : List V) → length (rest vs) ≤ length vs
  rest_le [] = omega arith
  rest_le (v ∷ vs) = omega arith

  drain_round :
      (c m : ℕ) (ms : List ℕ) (e f : Env V)
      → Keyed e
      → IsFilled (e.chans c) e (m ∷ ms)
      → Gave c m (set_recvers c ms e) (true, f)
      → Served c e f
  drain_round c m ms e f k d t = Served-sound y k later (ground (arith, t)) (record {
    bounded = omega (arith, d.bounded, rest_le (e.chans c).buffer);
    one_side = inl (ground (arith, d.one_side, d.waiting));
    fed = ground (arith, d.fed, IsStale-Later ms later);
    full = inr (IsStale-Later _ later d.senders);
  })
    where
      y : Chan V
      y = record (e.chans c) { recvers = ms; buffer = rest (e.chans c).buffer }

      later : Later c e f
      later = Later-trans (set_chan-Later c _ e) t.0

  drain_skip :
      (c m : ℕ) (ms : List ℕ) (e f : Env V)
      → IsFilled (e.chans c) e (m ∷ ms)
      → Gave c m (set_recvers c ms e) (false, f)
      → Later c e f × IsFilled (f.chans c) f ms
  drain_skip c m ms e f d t = (
    later,
    subst (λ x. IsFilled x f ms) (sym same)
        (record {
          waiting = refl;
          bounded = d.bounded;
          one_side = inl (ground (arith, d.one_side, d.waiting));
          senders = IsStale-Later _ later d.senders;
          fed = ground (arith, d.fed, IsStale-Later ms later);
        }),
  )
    where
      same : f.chans c ≡ record (e.chans c) { recvers = ms }
      same = ground (arith, t)

      later : Later c e f
      later = Later-trans (set_chan-Later c _ e) t.0

  pub drain-Served :
      (c : ℕ) (ms : List ℕ) (e : Env V)
      → Keyed e
      → IsFilled (e.chans c) e ms
      → Served c e (drain c ms e)
  unfolding drain
  drain-Served c [] e k d = (
    Later-refl c e,
    record {
      keyed = k;
      sound = record {
        bounded = d.bounded;
        one_side = d.one_side;
        fed = inr (subst (IsStale e) (sym d.waiting) tt);
        full = inr d.senders;
      };
    },
  )
  drain-Served c (m ∷ ms) e k d =
      go (buffer_send_to c m e1) (buffer_send_to-Gave c m e1 k)
        (λ f kf df. drain-Served c ms f kf df)
    where
      e1 : Env V
      e1 = set_recvers c ms e

      go :
          (r : Bool × Env V)
          → Gave c m e1 r
          → ((f : Env V) → Keyed f → IsFilled (f.chans c) f ms → Served c f (drain c ms f))
          → Served c e (if r.0 then r.1 else drain c ms r.1)
      go (true, f) t ih = drain_round c m ms e f k d t
      go (false, f) t ih =
          let r = drain_skip c m ms e f d t in Served-trans r.0 (ih f (Keyed-Later r.0 k) r.1)
