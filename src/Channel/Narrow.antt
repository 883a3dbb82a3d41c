-- ===== src/Channel/Narrow.antt =====
-- Queues that lose messages but get none.
use cgo.Base.{
  ℕ, ◌≡◌, refl, ◌==◌, false, List, [], ◌∷◌, ◌++◌, arith, has, Distinct, length, Bool-cases, inl,
  inr, ◌∙◌, sym, subst,
}
use cgo.Channel.{Env, Chan, Source, Target, set_chan, recv_from_ptr, send_to_ptr}
use cgo.Channel.Transfer.{
  is_ok, rest, pop_buffer, buffer_give, buffer_send_to, push_buffer, buffer_recv_from,
}
use cgo.Channel.Kept.{Kept, IsKeyed, recv_from_ptr-Kept, send_to_ptr-Kept}
use cgo.Channel.Buffer.{Keyed}

-- No new items, and none twice that was not twice.
pub record Within (ys xs : List ℕ) : Type 0 where
  pub distinct : Distinct xs → Distinct ys
  pub absent : (a : ℕ) → has a xs ≡ false → has a ys ≡ false

Within-refl : (xs : List ℕ) → Within xs xs
Within-refl xs = record { distinct = λ d. d; absent = λ a h. h }

pub Within-rest : (x : ℕ) (xs ys : List ℕ) → Within (x ∷ xs) ys → Within xs ys
Within-rest x xs ys w = record {
  distinct = λ d. (w.distinct d).1;
  absent = λ a h. ground (arith, w.absent a h);
}

module _ {V : Type 0} where
  -- The queues of `f` hold no message that those of `e` do not hold.
  pub record Narrow (e f : Env V) : Type 0 where
    pub msgs : f.msgs ≡ e.msgs
    pub homes : f.chan_of ≡ e.chan_of
    pub offers : (s : ℕ) → (f.selects s).msgs ≡ (e.selects s).msgs
    pub senders : (j : ℕ) → Within (f.chans j).senders (e.chans j).senders
    pub recvers : (j : ℕ) → Within (f.chans j).recvers (e.chans j).recvers

  pub Narrow-refl : (e : Env V) → Narrow e e
  Narrow-refl e = record {
    msgs = refl;
    homes = refl;
    offers = λ s. refl;
    senders = λ j. Within-refl (e.chans j).senders;
    recvers = λ j. Within-refl (e.chans j).recvers;
  }

  pub Narrow-Kept : (e f g : Env V) → Narrow e f → Kept f g → Narrow e g
  Narrow-Kept e f g n k = record {
    msgs = k.msgs ∙ n.msgs;
    homes = k.homes ∙ n.homes;
    offers = λ s. k.offers s ∙ n.offers s;
    senders =
        λ j. subst (λ h. Within (h j).senders (e.chans j).senders) (sym k.chans) (n.senders j);
    recvers =
        λ j. subst (λ h. Within (h j).recvers (e.chans j).recvers) (sym k.chans) (n.recvers j);
  }

  -- A channel is changed, its queues to part of what they were.
  pub set_chan-Narrow :
      (c : ℕ) (x : Chan V) (e f : Env V)
      → Narrow e f
      → Within x.senders (e.chans c).senders
      → Within x.recvers (e.chans c).recvers
      → Narrow e (set_chan c x f)
  set_chan-Narrow c x e f n s r = record {
    msgs = n.msgs;
    homes = n.homes;
    offers = n.offers;
    senders = λ j. elim (Bool-cases (c == j)) [
      | inl y ↦ rw y (subst (λ i. Within x.senders (e.chans i).senders) (ground (arith, y)) s)
      | inr o ↦ rw o (n.senders j)
    ];
    recvers = λ j. elim (Bool-cases (c == j)) [
      | inl y ↦ rw y (subst (λ i. Within x.recvers (e.chans i).recvers) (ground (arith, y)) r)
      | inr o ↦ rw o (n.recvers j)
    ];
  }

  pub Narrow-Keyed : (e f : Env V) → Keyed e → Narrow e f → Keyed f
  Narrow-Keyed e f k n m = subst (λ g. IsKeyed (g m)) (sym n.msgs) (k m)

  module _ (c : ℕ) (e : Env V) (keyed : Keyed e) where
    pub buffer_send_to-Narrow :
        (dst : ℕ) (f : Env V) → Narrow e f → Narrow e (buffer_send_to c dst f).1
    unfolding buffer_send_to buffer_give pop_buffer
    buffer_send_to-Narrow dst f n = go (f.chans c).buffer
      where
        g : Env V
        g = (recv_from_ptr (Source.front c) dst f).1

        taken : Narrow e g
        taken =
            Narrow-Kept e f g n
              (recv_from_ptr-Kept f (Narrow-Keyed e f keyed n) (Source.front c) dst)

        go : (vs : List V) → Narrow e (buffer_give c dst vs f).1
        go [] = n
        go (v ∷ vs) = elim (Bool-cases (is_ok (recv_from_ptr (Source.front c) dst f).0)) [
          | inl y ↦ rw y (
              set_chan-Narrow c (record (g.chans c) { buffer = rest (g.chans c).buffer }) e g taken
                (taken.senders c) (taken.recvers c))
          | inr o ↦ rw o taken
        ]

    pub buffer_recv_from-Narrow :
        (blank : V) (src : ℕ) (f : Env V) → Narrow e f → Narrow e (buffer_recv_from blank c src f).1
    unfolding buffer_recv_from push_buffer
    buffer_recv_from-Narrow blank src f n =
        elim (Bool-cases (length (f.chans c).buffer == (f.chans c).capacity)) [
          | inl y ↦ rw y n
          | inr o ↦ rw o (elim (Bool-cases (is_ok (send_to_ptr src Target.local f0).0)) [
            | inl y ↦ rw y (
                set_chan-Narrow c
                  (record (g.chans c) { buffer = (g.chans c).buffer ++ g.local ∷ [] }) e g taken
                  (taken.senders c) (taken.recvers c))
            | inr u ↦ rw u taken
          ])
        ]
      where
        f0 : Env V
        f0 = record f { local = blank }

        n0 : Narrow e f0
        n0 = record {
          msgs = n.msgs;
          homes = n.homes;
          offers = n.offers;
          senders = n.senders;
          recvers = n.recvers;
        }

        g : Env V
        g = (send_to_ptr src Target.local f0).1

        taken : Narrow e g
        taken =
            Narrow-Kept e f0 g n0
              (send_to_ptr-Kept f0 (Narrow-Keyed e f0 keyed n0) src Target.local)
