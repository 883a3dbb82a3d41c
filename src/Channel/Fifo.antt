-- ===== src/Channel/Fifo.antt =====
-- A channel used with simplex messages is a first-in first-out queue: the items still to be
-- received are the buffer, followed by what the waiting senders hold.
use cgo.Base.{
  ℕ, zero, suc, ◌≤◌, ◌≡◌, refl, ◌≢◌, Bool, true, false, if◌then◌else◌, some, List, [], ◌∷◌, ◌++◌,
  arith, update, length, All, ◌∙◌, append_assoc, append-nil,
}
use cgo.Channel.{Env, Msg, simplex, multiplex, Status, ok, inprocess, invalid_oneshot, send_to_msg}
use cgo.Channel.Transfer.{
  buffer_give, buffer_send_to, buffer_recv_from, set_senders, refill, pull, send_to,
  or_wait_as_recver, wait_as_recver,
}
use cgo.Channel.Invariant.{Inv}
use cgo.Channel.Simplex.{buffer_send_to-simplex, send_to_msg-simplex, buffer_recv_from-simplex}

-- A simplex message over a cell other than `q`.
abbrev pub Spares : (ℕ → Msg) → ℕ → ℕ → Type 0
Spares msgs q m = (p : ℕ) × (s : ℕ) × (msgs m ≡ simplex (suc p) s) × (suc p ≢ q)

module _ {V : Type 0} where
  -- What a waiting sender holds.
  abbrev pub payload : (ℕ → V) → Msg → List V
  payload mem (simplex zero s) = []
  payload mem (simplex (suc p) s) = mem (suc p) ∷ []
  payload mem (multiplex d s k) = []

  abbrev pub payloads : (ℕ → V) → (ℕ → Msg) → List ℕ → List V
  payloads mem msgs [] = []
  payloads mem msgs (m ∷ ms) = payload mem (msgs m) ++ payloads mem msgs ms

  -- The items that are still to be received from channel `c`.
  abbrev pub pending : ℕ → Env V → List V
  pending c e = (e.chans c).buffer ++ payloads e.mem e.msgs (e.chans c).senders

  payloads-update :
      (mem : ℕ → V) (msgs : ℕ → Msg) (q : ℕ) (v : V) (ms : List ℕ)
      → All (Spares msgs q) ms
      → payloads (update mem q v) msgs ms ≡ payloads mem msgs ms
  payloads-update mem msgs q v [] h = refl
  payloads-update mem msgs q v (m ∷ ms) ((p, s, e, n), h) =
      rw (e, payload, payloads-update mem msgs q v ms h) (ground arith)

  pub pending_of_parts :
      (c : ℕ) (f : Env V) (buffer : List V) (senders : List ℕ) (mem : ℕ → V) (msgs : ℕ → Msg)
      → (f.chans c).buffer ≡ buffer
      → (f.chans c).senders ≡ senders
      → f.mem ≡ mem
      → f.msgs ≡ msgs
      → pending c f ≡ buffer ++ payloads mem msgs senders
  pending_of_parts c f buffer senders mem msgs a b m n = rw (a, b, m, n)

  buffer_send_to-nil :
      (c dst : ℕ) (e : Env V) → (e.chans c).buffer ≡ [] → buffer_send_to c dst e ≡ (false, e)
  unfolding buffer_send_to buffer_give
  buffer_send_to-nil c dst e b = rw (b, buffer_give)

  refill-hit :
      (blank : V) (c m : ℕ) (ms : List ℕ) (e : Env V)
      → (buffer_recv_from blank c m (set_senders c ms e)).0 ≡ true
      → refill blank c (m ∷ ms) e ≡ (buffer_recv_from blank c m (set_senders c ms e)).1
  unfolding refill
  refill-hit blank c m ms e h = rw h

  pull-hit :
      (c dst m : ℕ) (ms : List ℕ) (e : Env V)
      → (send_to_msg m dst e).0 ≡ ok
      → pull c dst (m ∷ ms) e ≡ (some ok, set_senders c ms (send_to_msg m dst e).1)
  unfolding pull
  pull-hit c dst m ms e h = rw (h, pull)

  wait_as_recver-pending :
      (c dst : ℕ) (oneshot : Bool) (e : Env V)
      → ((wait_as_recver c dst oneshot e).0 ≡ (if oneshot then invalid_oneshot else inprocess))
        × (pending c (wait_as_recver c dst oneshot e).1 ≡ pending c e)
        × (((wait_as_recver c dst oneshot e).1.chans c).recvers
            ≡ (if oneshot then (e.chans c).recvers else (e.chans c).recvers ++ dst ∷ []))
  unfolding wait_as_recver
  wait_as_recver-pending c dst true e = (refl, refl, refl)
  wait_as_recver-pending c dst false e = (refl, ground arith, ground arith)

  module _ (blank : V) (c dst q s : ℕ) (oneshot : Bool) (e : Env V)
      (is : e.msgs dst ≡ simplex (suc q) s) where
    -- `send_to` after the message was told its channel.
    abbrev bound : Env V
    bound = record e { chan_of = update e.chan_of dst (some c) }

    -- The first pending item goes to the receiver, the others stay in order. With none pending the
    -- receiver joins the waiting ones, unless the call is one-shot.
    abbrev pub Received : List V → Status × Env V → Type 0
    Received [] (st, f) =
        (st ≡ (if oneshot then invalid_oneshot else inprocess))
        × (pending c f ≡ [])
        × ((f.chans c).recvers
            ≡ (if oneshot then (e.chans c).recvers else (e.chans c).recvers ++ dst ∷ []))
    Received (v ∷ vs) (st, f) = (st ≡ ok) × (f.mem (suc q) ≡ v) × (pending c f ≡ vs)

    send_to-hit :
        (buffer_send_to c dst bound).0 ≡ true
        → send_to blank c dst oneshot e
          ≡ (let f = (buffer_send_to c dst bound).1 in (ok, refill blank c (f.chans c).senders f))
    unfolding send_to
    send_to-hit h = rw h

    send_to-empty :
        (e.chans c).buffer ≡ []
        → send_to blank c dst oneshot e
          ≡ or_wait_as_recver c dst oneshot (pull c dst (e.chans c).senders bound)
    unfolding send_to
    send_to-empty b = rw (buffer_send_to-nil c dst bound b)

    send_to-nothing :
        (e.chans c).buffer ≡ []
        → (e.chans c).senders ≡ []
        → Received [] (send_to blank c dst oneshot e)
    unfolding pull or_wait_as_recver
    send_to-nothing b w =
        let x = wait_as_recver-pending c dst oneshot bound in
        rw (send_to-empty b, w, pull) (x.0, x.1 ∙ rw (b, w), x.2)

    send_to-sender :
        (m p t : ℕ) (ms : List ℕ)
        → (e.chans c).buffer ≡ []
        → (e.chans c).senders ≡ m ∷ ms
        → e.msgs m ≡ simplex (suc p) t
        → All (Spares e.msgs (suc q)) ms
        → Received (e.mem (suc p) ∷ payloads e.mem e.msgs ms) (send_to blank c dst oneshot e)
    unfolding or_wait_as_recver
    send_to-sender m p t ms b w em h =
        let r = send_to_msg-simplex c dst q s bound is m p t em in
        let g : Env V = set_senders c ms (send_to_msg m dst bound).1 in
        let x =
          pending_of_parts c g [] ms (update e.mem (suc q) (e.mem (suc p))) e.msgs
            (ground (arith, r.2, b)) (ground arith) r.1 r.3 in
        rw (send_to-empty b, w, pull-hit c dst m ms bound r.0)
          (refl, rw (r.1) (ground arith), x ∙ payloads-update e.mem e.msgs (suc q) _ ms h)

    send_to-buffered :
        (v : V) (vs : List V)
        → (e.chans c).buffer ≡ v ∷ vs
        → (e.chans c).senders ≡ []
        → Received (v ∷ vs) (send_to blank c dst oneshot e)
    unfolding refill
    send_to-buffered v vs b w =
        let r = buffer_send_to-simplex c dst q s bound is v vs b in
        let f : Env V = (buffer_send_to c dst bound).1 in
        let none_wait : (f.chans c).senders ≡ [] = ground (arith, r.2, w) in
        let x =
          pending_of_parts c f vs [] (update e.mem (suc q) v) e.msgs (ground (arith, r.2)) none_wait
            r.1 r.3 in
        rw (send_to-hit r.0, none_wait, refill) (refl, rw (r.1) (ground arith), x ∙ append-nil vs)

    send_to-refilled :
        (v : V) (vs : List V) (m p t : ℕ) (ms : List ℕ)
        → (e.chans c).buffer ≡ v ∷ vs
        → (e.chans c).senders ≡ m ∷ ms
        → length (v ∷ vs) ≤ (e.chans c).capacity
        → e.msgs m ≡ simplex (suc p) t
        → suc p ≢ suc q
        → All (Spares e.msgs (suc q)) ms
        → Received
            (v ∷ vs ++ e.mem (suc p) ∷ payloads e.mem e.msgs ms)
            (send_to blank c dst oneshot e)
    send_to-refilled v vs m p t ms b w room em ne h =
        let r = buffer_send_to-simplex c dst q s bound is v vs b in
        let f : Env V = (buffer_send_to c dst bound).1 in
        let f1 : Env V = set_senders c ms f in
        let waiting : (f.chans c).senders ≡ m ∷ ms = ground (arith, r.2, w) in
        let left : (f1.chans c) ≡ record (e.chans c) { buffer = vs; senders = ms } =
          ground (arith, r.2) in
        let t1 =
          buffer_recv_from-simplex blank c m p t f1 (ground (arith, r.3)) (ground (arith, left)) in
        let g : Env V = (buffer_recv_from blank c m f1).1 in
        let x =
          pending_of_parts c g (vs ++ e.mem (suc p) ∷ []) ms (update e.mem (suc q) v) e.msgs
            (rw (t1.2, left, r.1) (ground arith)) (ground (arith, t1.2, left)) (t1.1 ∙ r.1)
            (t1.3 ∙ r.3) in
        rw (send_to-hit r.0, waiting, refill-hit blank c m ms f t1.0)
          (
            refl,
            rw (t1.1, r.1) (ground arith),
            x ∙ rw (payloads-update e.mem e.msgs (suc q) v ms h) (append_assoc vs _ _),
          )

    send_to-cases :
        Inv c e
        → (buffer : List V) (senders : List ℕ) → (e.chans c).buffer ≡ buffer
        → (e.chans c).senders ≡ senders
        → All (Spares e.msgs (suc q)) senders
        → Received (buffer ++ payloads e.mem e.msgs senders) (send_to blank c dst oneshot e)
    send_to-cases i [] [] b w h = send_to-nothing b w
    send_to-cases i [] (m ∷ ms) b w ((p, t, em, n), h) =
        rw (em, payload) (send_to-sender m p t ms b w em h)
    send_to-cases i (v ∷ vs) [] b w h = rw append-nil (send_to-buffered v vs b w)
    send_to-cases i (v ∷ vs) (m ∷ ms) b w ((p, t, em, n), h) =
        rw (em, payload)
          (send_to-refilled v vs m p t ms b w (ground (arith, i.sound.bounded)) em n h)

    -- From a state with the channel's invariant, where the receiver is a simplex message over a cell
    -- and the waiting senders are simplex messages over other cells: `send_to` moves the oldest
    -- pending item into the receiver's cell, returns `ok` and leaves the others pending in order.
    -- With nothing pending, nothing is pending afterwards, and it returns `inprocess` with the receiver
    -- last among the waiting ones, or `invalid_oneshot` with these as before if the call is one-shot.
    pub send_to-Received :
        Inv c e
        → All (Spares e.msgs (suc q)) (e.chans c).senders
        → Received (pending c e) (send_to blank c dst oneshot e)
    send_to-Received i h = send_to-cases i _ _ refl refl h
