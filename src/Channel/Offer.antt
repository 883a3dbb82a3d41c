-- ===== src/Channel/Offer.antt =====
-- The order of delivery seen from a sender: where `BaseChannel::recv_from` puts an item while no
-- receiver waits.
use cgo.Base.{
  ℕ, suc, ◌≡◌, refl, ap, sym, Bool, true, false, ◌==◌, some, List, [], ◌∷◌, ◌++◌, ◌∙◌, arith,
  update, length, All, append-nil, append_assoc, Bool-cases, eq_of_==, ◌≢◌, inl, inr, subst,
}
use cgo.Channel.{Env, Msg, simplex, Status, ok, invalid_oneshot, inprocess}
use cgo.Channel.Transfer.{
  recv_from, buffer_recv_from, drain, hand, or_wait_as_sender, wait_as_sender,
}
use cgo.Channel.Buffer.{IsStale}
use cgo.Channel.Kept.{is_live}
use cgo.Channel.Invariant.{Inv}
use cgo.Channel.Simplex.{buffer_recv_from-simplex}
use cgo.Channel.Fifo.{payload, payloads, pending, pending_of_parts}
use cgo.Channel.Stale.{IsSimplex, buffer_recv_from-full}

module _ {V : Type 0} where
  payloads-append :
      (mem : ℕ → V) (msgs : ℕ → Msg) (ms ns : List ℕ)
      → payloads mem msgs (ms ++ ns) ≡ payloads mem msgs ms ++ payloads mem msgs ns
  payloads-append mem msgs [] ns = refl
  payloads-append mem msgs (m ∷ ms) ns =
      rw (payloads-append mem msgs ms ns) (sym (append_assoc (payload mem (msgs m)) _ _))

  -- A simplex message is never stale.
  stale_simplex : (e : Env V) (ms : List ℕ) → IsStale e ms → All (IsSimplex e.msgs) ms → ms ≡ []
  stale_simplex e [] h a = refl
  stale_simplex e (m ∷ ms) (o, h) ((d, t, em), a) =
      absurd (cc (subst (λ x. is_live x e.selects ≡ false) em o))

  module _ (blank : V) (c src p s : ℕ) (oneshot : Bool) (e : Env V)
      (is : e.msgs src ≡ simplex (suc p) s) where
    abbrev bound : Env V
    bound = record e { chan_of = update e.chan_of src (some c) }

    -- What `recv_from` returned, given whether the buffer was full and the call one-shot.
    abbrev pub Offered : Bool → Bool → Status × Env V → Type 0
    Offered false once (st, f) = (st ≡ ok) × (pending c f ≡ pending c e ++ e.mem (suc p) ∷ [])
    Offered true false (st, f) =
        (st ≡ inprocess) × (pending c f ≡ pending c e ++ e.mem (suc p) ∷ [])
    Offered true true (st, f) = (st ≡ invalid_oneshot) × (pending c f ≡ pending c e)

    offer-full :
        length (e.chans c).buffer ≡ (e.chans c).capacity
        → (e.chans c).recvers ≡ []
        → Offered true oneshot (recv_from blank c src oneshot e)
    unfolding recv_from hand or_wait_as_sender wait_as_sender
    offer-full full w = rw (buffer_recv_from-full blank c src oneshot e full, w, hand) (go oneshot)
      where
        go : (o : Bool) → Offered true o (wait_as_sender c src o bound)
        go true = (refl, refl)
        go false = (
          refl,
          pending_of_parts c (wait_as_sender c src false bound).1 (e.chans c).buffer
                ((e.chans c).senders ++ src ∷ []) e.mem e.msgs (ground arith) (ground arith) refl
                refl
              ∙ rw (payloads-append e.mem e.msgs (e.chans c).senders (src ∷ []), is)
                  (sym (append_assoc (e.chans c).buffer _ _)),
        )

    offer-room :
        length (e.chans c).buffer ≢ (e.chans c).capacity
        → (e.chans c).recvers ≡ []
        → (e.chans c).senders ≡ []
        → Offered false oneshot (recv_from blank c src oneshot e)
    unfolding recv_from drain
    offer-room n w none_wait =
        let r = buffer_recv_from-simplex blank c src p s bound is n in
        let f : Env V = (buffer_recv_from blank c src bound).1 in
        let no_recvers : (f.chans c).recvers ≡ [] = ground (arith, r.2, w) in
        let x =
          pending_of_parts c f ((e.chans c).buffer ++ e.mem (suc p) ∷ []) [] e.mem e.msgs
            (ground (arith, r.2)) (ground (arith, r.2, none_wait)) r.1 r.3 in
        rw (r.0, no_recvers, drain)
          (
            refl,
            x
                ∙ append-nil _
                ∙ rw (none_wait) (ap (λ y. y ++ e.mem (suc p) ∷ []) (sym (append-nil _))),
          )

    -- From a state with the channel's invariant where no receiver waits, the sender is a simplex
    -- message over a cell and the waiting senders are simplex messages: `recv_from` puts the value of
    -- the cell behind all pending items. It returns `ok` if the buffer had room and `inprocess` if it
    -- had not; but a one-shot call on a full buffer returns `invalid_oneshot` and leaves the pending
    -- items as they were.
    pub recv_from-Offered :
        Inv c e
        → (e.chans c).recvers ≡ []
        → All (IsSimplex e.msgs) (e.chans c).senders
        → Offered
            (length (e.chans c).buffer == (e.chans c).capacity)
            oneshot
            (recv_from blank c src oneshot e)
    recv_from-Offered i w a =
        elim (Bool-cases (length (e.chans c).buffer == (e.chans c).capacity)) [
          | inl y ↦ rw y (offer-full (eq_of_== _ _ y) w)
          | inr n ↦ rw n (
              offer-room (ground arith) w (elim i.sound.full [
                | inl full ↦ absurd (ground (arith))
                | inr stale ↦ stale_simplex e _ stale a
              ]))
        ]
