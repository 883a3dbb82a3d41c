-- ===== src/Channel/Buffer.antt =====
-- What the two buffer operations of `TypeChannel` do to their channel.
use cgo.Base.{
  ℕ, ◌≡◌, refl, ◌≢◌, ap, Bool, true, false, if◌then◌else◌, ◌==◌, List, [], ◌∷◌, ◌++◌, arith, ◌⊎◌,
  inl, inr, ◌∙◌, Bool-cases, length, All, sym, subst,
}
use cgo.Channel.{
  Env, Msg, simplex, multiplex, Chan, ok, invalid_src, Source, Target, is_decided, recv_from_ptr,
  send_to_ptr, set_chan, recv_to, send_from,
}
use cgo.Channel.Transfer.{
  rest, pop_buffer, buffer_give, buffer_send_to, push_buffer, buffer_recv_from,
}
use cgo.Channel.Kept.{
  Kept, is_live, IsKeyed, recv_to-status, send_from-status, recv_from_ptr-Kept, send_to_ptr-Kept,
}

module _ {V : Type 0} where
  abbrev pub live : ℕ → Env V → Bool
  live m e = is_live (e.msgs m) e.selects

  abbrev pub IsStale : Env V → List ℕ → Type 0
  IsStale e = All (λ m. live m e ≡ false)

  -- `f` comes from `e` by operations on channel `c`.
  pub record Later (c : ℕ) (e f : Env V) : Type 0 where
    pub msgs : f.msgs ≡ e.msgs
    pub stable : (s : ℕ) → is_decided s e ≡ true → (f.selects s).key ≡ (e.selects s).key
    pub others : (j : ℕ) → j ≢ c → f.chans j ≡ e.chans j

  pub Later-refl : (c : ℕ) (e : Env V) → Later c e e
  Later-refl c e = record { msgs = refl; stable = λ s d. refl; others = λ j n. refl }

  pub Later-trans : {c : ℕ} {e f g : Env V} → Later c e f → Later c f g → Later c e g
  Later-trans p q = record {
    msgs = q.msgs ∙ p.msgs;
    stable = λ s d. ground (arith, p.stable s, q.stable s);
    others = λ j n. q.others j n ∙ p.others j n;
  }

  pub Kept-Later : (c : ℕ) {e f : Env V} → Kept e f → Later c e f
  Kept-Later c k = record {
    msgs = k.msgs;
    stable = k.stable;
    others = λ j n. ap (λ h. h j) k.chans;
  }

  pub set_chan-Later : (c : ℕ) (x : Chan V) (e : Env V) → Later c e (set_chan c x e)
  set_chan-Later c x e = record { msgs = refl; stable = λ s d. refl; others = λ j n. ground arith }

  pub stale_msg :
      (m : Msg) (e f : Env V)
      → ((s : ℕ) → is_decided s e ≡ true → (f.selects s).key ≡ (e.selects s).key)
      → is_live m e.selects ≡ false
      → is_live m f.selects ≡ false
  stale_msg (simplex d s) e f h o = cc
  stale_msg (multiplex d s k) e f h o = ground (arith, h s)

  pub live-Later : {c : ℕ} {e f : Env V} (m : ℕ) → Later c e f → live m e ≡ false → live m f ≡ false
  live-Later {e} {f} m l o =
      stale_msg (f.msgs m) e f l.stable (ground (arith, ap (λ h. h m) l.msgs))

  pub IsStale-Later :
      {c : ℕ} {e f : Env V} (ms : List ℕ) → Later c e f → IsStale e ms → IsStale f ms
  IsStale-Later [] l o = tt
  IsStale-Later (m ∷ ms) l o = (live-Later m l o.0, IsStale-Later ms l o.1)

  abbrev pub Keyed : Env V → Type 0
  Keyed e = (m : ℕ) → IsKeyed (e.msgs m)

  pub Keyed-Later : {c : ℕ} {e f : Env V} → Later c e f → Keyed e → Keyed f
  Keyed-Later l k m = subst (λ g. IsKeyed (g m)) (sym l.msgs) (k m)

  -- Giving the front of the buffer to `dst`.
  abbrev pub Gave : ℕ → ℕ → Env V → Bool × Env V → Type 0
  Gave c dst e (true, f) =
      Later c e f
      × (f.chans c ≡ record (e.chans c) { buffer = rest (e.chans c).buffer })
      × (live dst e ≡ true)
      × ((e.chans c).buffer ≢ [])
  Gave c dst e (false, f) =
      Later c e f × (f.chans c ≡ e.chans c) × (((e.chans c).buffer ≡ []) ⊎ (live dst e ≡ false))

  -- Taking a value from `src` into the buffer.
  abbrev pub Took : ℕ → ℕ → Env V → Bool × Env V → Type 0
  Took c src e (true, f) =
      Later c e f
      × (f.chans c ≡ record (e.chans c) { buffer = (e.chans c).buffer ++ f.local ∷ [] })
      × (live src e ≡ true)
      × (length (e.chans c).buffer ≢ (e.chans c).capacity)
  Took c src e (false, f) =
      Later c e f
      × (f.chans c ≡ e.chans c)
      × ((length (e.chans c).buffer ≡ (e.chans c).capacity) ⊎ (live src e ≡ false))

  buffer_give-Gave :
      (c dst : ℕ) (e : Env V) (vs : List V)
      → (e.chans c).buffer ≡ vs
      → Keyed e
      → Gave c dst e (buffer_give c dst vs e)
  unfolding buffer_give pop_buffer recv_from_ptr
  buffer_give-Gave c dst e [] b k = (Later-refl c e, refl, inl b)
  buffer_give-Gave c dst e (v ∷ vs) b k = elim (Bool-cases (live dst e)) [
    | inl y ↦
        rw (st, y)
          (Later-trans later (set_chan-Later c _ _), ground (arith, kept.chans), y, ground arith)
    | inr n ↦ rw (st, n) (later, ap (λ h. h c) kept.chans, inr n)
  ]
    where
      st : (recv_to (Source.front c) (e.msgs dst) e).0 ≡ (if live dst e then ok else invalid_src)
      st = recv_to-status (Source.front c) (e.msgs dst) e

      kept : Kept e (recv_from_ptr (Source.front c) dst e).1
      kept = recv_from_ptr-Kept e k (Source.front c) dst

      later : Later c e (recv_from_ptr (Source.front c) dst e).1
      later = Kept-Later c kept

  pub buffer_send_to-Gave :
      (c dst : ℕ) (e : Env V) → Keyed e → Gave c dst e (buffer_send_to c dst e)
  unfolding buffer_send_to
  buffer_send_to-Gave c dst e k = buffer_give-Gave c dst e (e.chans c).buffer refl k

  local-Later : (c : ℕ) (e : Env V) (v : V) → Later c e (record e { local = v })
  local-Later c e v = record { msgs = refl; stable = λ s d. refl; others = λ j n. refl }

  pub buffer_recv_from-Took :
      (blank : V) (c src : ℕ) (e : Env V) → Keyed e → Took c src e (buffer_recv_from blank c src e)
  unfolding buffer_recv_from push_buffer send_to_ptr
  buffer_recv_from-Took blank c src e k =
      elim (Bool-cases (length (e.chans c).buffer == (e.chans c).capacity)) [
        | inl full ↦ rw full (Later-refl c e, refl, inl (ground arith))
        | inr room ↦ rw room (elim (Bool-cases (live src e)) [
          | inl y ↦
              rw (st, y)
                (
                  Later-trans later (set_chan-Later c _ _),
                  ground (arith, kept.chans),
                  y,
                  ground arith,
                )
          | inr n ↦ rw (st, n) (later, ap (λ h. h c) kept.chans, inr n)
        ])
      ]
    where
      e0 : Env V
      e0 = record e { local = blank }

      st : (send_from (e.msgs src) Target.local e0).0 ≡ (if live src e then ok else invalid_src)
      st = send_from-status (e.msgs src) Target.local e0

      kept : Kept e0 (send_to_ptr src Target.local e0).1
      kept = send_to_ptr-Kept e0 k src Target.local

      later : Later c e (send_to_ptr src Target.local e0).1
      later = Later-trans (local-Later c e blank) (Kept-Later c kept)
