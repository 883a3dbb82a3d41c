-- ===== src/Channel/Linked.antt =====
-- Which messages wait after an operation on a channel: those that waited before, and the one that it was called with.
use cgo.Base.{
  ℕ, ◌≡◌, refl, ◌==◌, Bool, true, false, Option, none, some, List, [], ◌∷◌, ◌++◌, arith, update,
  Bool-cases, inl, inr, ◌⊎◌,
}
use cgo.Channel.{
  Env, Status, ok, invalid_src, invalid_dst, invalid_oneshot, inprocess, raised, send_to_msg,
  recv_from_msg,
}
use cgo.Channel.Transfer.{
  buffer_send_to, buffer_recv_from, set_senders, set_recvers, refill, pull, wait_as_recver,
  or_wait_as_recver, send_to, drain, hand, wait_as_sender, or_wait_as_sender, recv_from,
}
use cgo.Channel.Kept.{send_to_msg-Kept}
use cgo.Channel.Buffer.{Keyed}
use cgo.Channel.Narrow.{
  Within, Within-rest, Narrow, Narrow-refl, Narrow-Kept, set_chan-Narrow, Narrow-Keyed,
  buffer_send_to-Narrow, buffer_recv_from-Narrow,
}

module _ {V : Type 0} where
  module _ (c : ℕ) (e : Env V) (keyed : Keyed e) where
    transfer-Narrow : (m n : ℕ) (f : Env V) → Narrow e f → Narrow e (send_to_msg m n f).1
    transfer-Narrow m n f h =
        Narrow-Kept e f (send_to_msg m n f).1 h (send_to_msg-Kept f (Narrow-Keyed e f keyed h) m n)

    set_senders-Narrow :
        (ms : List ℕ) (f : Env V)
        → Within ms (e.chans c).senders
        → Narrow e f
        → Narrow e (set_senders c ms f)
    set_senders-Narrow ms f w n =
        set_chan-Narrow c (record (f.chans c) { senders = ms }) e f n w (n.recvers c)

    set_recvers-Narrow :
        (ms : List ℕ) (f : Env V)
        → Within ms (e.chans c).recvers
        → Narrow e f
        → Narrow e (set_recvers c ms f)
    set_recvers-Narrow ms f w n =
        set_chan-Narrow c (record (f.chans c) { recvers = ms }) e f n (n.senders c) w

    refill-Narrow :
        (blank : V) (ms : List ℕ) (f : Env V)
        → Within ms (e.chans c).senders
        → Narrow e f
        → Narrow e (refill blank c ms f)
    unfolding refill
    refill-Narrow blank [] f w n = n
    refill-Narrow blank (m ∷ ms) f w n =
        let u : Within ms (e.chans c).senders = Within-rest m ms (e.chans c).senders w in
        let r = buffer_recv_from blank c m (set_senders c ms f) in
        let k : Narrow e r.1 =
          buffer_recv_from-Narrow c e keyed blank m (set_senders c ms f)
            (set_senders-Narrow ms f u n) in
        elim (Bool-cases r.0) [ inl y ↦ rw y k | inr o ↦ rw o (refill-Narrow blank ms r.1 u k) ]

    drain-Narrow :
        (ms : List ℕ) (f : Env V)
        → Within ms (e.chans c).recvers
        → Narrow e f
        → Narrow e (drain c ms f)
    unfolding drain
    drain-Narrow [] f w n = n
    drain-Narrow (m ∷ ms) f w n =
        let u : Within ms (e.chans c).recvers = Within-rest m ms (e.chans c).recvers w in
        let r = buffer_send_to c m (set_recvers c ms f) in
        let k : Narrow e r.1 =
          buffer_send_to-Narrow c e keyed m (set_recvers c ms f) (set_recvers-Narrow ms f u n) in
        elim (Bool-cases r.0) [ inl y ↦ rw y k | inr o ↦ rw o (drain-Narrow ms r.1 u k) ]

    abbrev Ended : Option Status × Env V → Type 0
    Ended (o, f) = Narrow e f

    pull-Narrow :
        (dst : ℕ) (ms : List ℕ) (f : Env V)
        → Within ms (e.chans c).senders
        → Narrow e f
        → Ended (pull c dst ms f)
    unfolding pull
    pull-Narrow dst [] f w n = n
    pull-Narrow dst (m ∷ ms) f w n = go r.0 (pull-Narrow dst ms (set_senders c ms r.1) u left)
      where
        u : Within ms (e.chans c).senders
        u = Within-rest m ms (e.chans c).senders w

        r : Status × Env V
        r = send_to_msg m dst f

        k : Narrow e r.1
        k = transfer-Narrow m dst f n

        left : Narrow e (set_senders c ms r.1)
        left = set_senders-Narrow ms r.1 u k

        go :
            (st : Status)
            → Ended (pull c dst ms (set_senders c ms r.1))
            → Ended (elim st [
              | ok ↦ (some ok, set_senders c ms r.1)
              | invalid_src ↦ pull c dst ms (set_senders c ms r.1)
              | raised ↦ (some raised, r.1)
              | _ ↦ (some invalid_dst, r.1)
            ])
        go ok more = left
        go invalid_src more = more
        go raised more = k
        go invalid_dst more = k
        go invalid_oneshot more = k
        go inprocess more = k

    hand-Narrow :
        (src : ℕ) (ms : List ℕ) (f : Env V)
        → Within ms (e.chans c).recvers
        → Narrow e f
        → Ended (hand c src ms f)
    unfolding hand recv_from_msg
    hand-Narrow src [] f w n = n
    hand-Narrow src (m ∷ ms) f w n = go r.0 (hand-Narrow src ms (set_recvers c ms r.1) u left)
      where
        u : Within ms (e.chans c).recvers
        u = Within-rest m ms (e.chans c).recvers w

        r : Status × Env V
        r = send_to_msg src m f

        k : Narrow e r.1
        k = transfer-Narrow src m f n

        left : Narrow e (set_recvers c ms r.1)
        left = set_recvers-Narrow ms r.1 u k

        go :
            (st : Status)
            → Ended (hand c src ms (set_recvers c ms r.1))
            → Ended (elim st [
              | ok ↦ (some ok, set_recvers c ms r.1)
              | invalid_dst ↦ hand c src ms (set_recvers c ms r.1)
              | raised ↦ (some raised, r.1)
              | _ ↦ (some invalid_src, r.1)
            ])
        go ok more = left
        go invalid_dst more = more
        go raised more = k
        go invalid_src more = k
        go invalid_oneshot more = k
        go inprocess more = k

  -- After an operation with the message `m` on channel `c`: other queues only lost messages, and those of the
  -- channel may have `m` at the end.
  pub record Waits (c m : ℕ) (e f : Env V) : Type 0 where
    pub before : Env V
    pub narrow : Narrow e before
    pub homes : f.chan_of ≡ e.chan_of
    pub offers : (s : ℕ) → (f.selects s).msgs ≡ (e.selects s).msgs
    pub senders :
        (j : ℕ)
        → ((f.chans j).senders ≡ (before.chans j).senders)
          ⊎ ((j ≡ c) × ((f.chans j).senders ≡ (before.chans j).senders ++ m ∷ []))
    pub recvers :
        (j : ℕ)
        → ((f.chans j).recvers ≡ (before.chans j).recvers)
          ⊎ ((j ≡ c) × ((f.chans j).recvers ≡ (before.chans j).recvers ++ m ∷ []))

  Narrow-Waits : (c m : ℕ) (e f : Env V) → Narrow e f → Waits c m e f
  Narrow-Waits c m e f n = record {
    before = f;
    narrow = n;
    homes = n.homes;
    offers = n.offers;
    senders = λ j. inl refl;
    recvers = λ j. inl refl;
  }

  or_wait_as_recver-Waits :
      (c m : ℕ) (oneshot : Bool) (e f : Env V) (o : Option Status)
      → Narrow e f
      → Waits c m e (or_wait_as_recver c m oneshot (o, f)).1
  unfolding or_wait_as_recver wait_as_recver
  or_wait_as_recver-Waits c m oneshot e f (some st) k = Narrow-Waits c m e f k
  or_wait_as_recver-Waits c m true e f none k = Narrow-Waits c m e f k
  or_wait_as_recver-Waits c m false e f none k = record {
    before = f;
    narrow = k;
    homes = k.homes;
    offers = k.offers;
    senders = λ j. inl (ground arith);
    recvers = λ j. elim (Bool-cases (c == j)) [
      | inl y ↦ inr (ground (arith, y), ground (arith, y))
      | inr o ↦ inl (ground (arith, o))
    ];
  }

  or_wait_as_sender-Waits :
      (c m : ℕ) (oneshot : Bool) (e f : Env V) (o : Option Status)
      → Narrow e f
      → Waits c m e (or_wait_as_sender c m oneshot (o, f)).1
  unfolding or_wait_as_sender wait_as_sender
  or_wait_as_sender-Waits c m oneshot e f (some st) k = Narrow-Waits c m e f k
  or_wait_as_sender-Waits c m true e f none k = Narrow-Waits c m e f k
  or_wait_as_sender-Waits c m false e f none k = record {
    before = f;
    narrow = k;
    homes = k.homes;
    offers = k.offers;
    senders = λ j. elim (Bool-cases (c == j)) [
      | inl y ↦ inr (ground (arith, y), ground (arith, y))
      | inr o ↦ inl (ground (arith, o))
    ];
    recvers = λ j. inl (ground arith);
  }

  module _ (blank : V) (c m : ℕ) (oneshot : Bool) (e : Env V) (keyed : Keyed e) where
    abbrev offered : Env V
    offered = record e { chan_of = update e.chan_of m (some c) }

    pub send_to-Waits : Waits c m offered (send_to blank c m oneshot e).1
    unfolding send_to
    send_to-Waits =
        let b = buffer_send_to c m offered in
        let n : Narrow offered b.1 =
          buffer_send_to-Narrow c offered keyed m offered (Narrow-refl offered) in
        let r = pull c m (b.1.chans c).senders b.1 in
        elim (Bool-cases b.0) [
          | inl y ↦ rw y (
              Narrow-Waits c m offered _
                (refill-Narrow c offered keyed blank (b.1.chans c).senders b.1 (n.senders c) n))
          | inr o ↦ rw o (
              or_wait_as_recver-Waits c m oneshot offered r.1 r.0
                (pull-Narrow c offered keyed m (b.1.chans c).senders b.1 (n.senders c) n))
        ]

    pub recv_from-Waits : Waits c m offered (recv_from blank c m oneshot e).1
    unfolding recv_from
    recv_from-Waits =
        let b = buffer_recv_from blank c m offered in
        let n : Narrow offered b.1 =
          buffer_recv_from-Narrow c offered keyed blank m offered (Narrow-refl offered) in
        let r = hand c m (b.1.chans c).recvers b.1 in
        elim (Bool-cases b.0) [
          | inl y ↦ rw y (
              Narrow-Waits c m offered _
                (drain-Narrow c offered keyed (b.1.chans c).recvers b.1 (n.recvers c) n))
          | inr o ↦ rw o (
              or_wait_as_sender-Waits c m oneshot offered r.1 r.0
                (hand-Narrow c offered keyed m (b.1.chans c).recvers b.1 (n.recvers c) n))
        ]
