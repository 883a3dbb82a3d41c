-- ===== src/Socket/Liveness.antt =====
-- Loops that end: with a peer that stalls only now and then, `send` takes all of its bytes and
-- `recv` returns, and how many rounds that may take.
use cgo.Base.{
  ℕ, zero, suc, ◌+◌, ◌≤◌, ◌<◌, ◌≡◌, ◌≢◌, refl, Bool, true, false, ltb, ◌==◌, if◌then◌else◌, Option,
  none, some, List, [], ◌∷◌, arith, length, drop, length-drop, ◌∙◌, ap,
}
use cgo.Socket.{
  Socket, Outcome, value, unexpected, thrown, blocked, out_of_fuel, Io, Os, Reply, Incoming,
  returned, got, M, pure, ◌>>=◌, ◌>>◌, wait_or_fail, retry,
}
use cgo.Socket.Decision.{activated, winner}
use cgo.Socket.Loops.{IsIdle, wait_or_fail-IsIdle, wait_or_fail-ended, ended}
use cgo.Socket.Transfer.{
  readable, writable, send, send_rest, send_round, transmit, transmitted, on_sent, on_failure, recv,
  recv_round, receive, fill, on_received,
}

-- The waits of `os` end by their events, and the errors that are told apart differ.
pub record IsWaking (os : Os) : Type 0 where
  pub accepts : (k : ℕ) → os.epoll_ok k ≡ true
  pub wakes : (timed : Bool) (k : ℕ) → winner timed (os.callbacks k) ≡ activated
  pub reset_apart : os.errnos.eagain ≢ os.errnos.econnreset
  pub pipe_apart : os.errnos.eagain ≢ os.errnos.epipe

-- A stalled call would block; another one moves at least a byte.
abbrev pub Moves : Os → Bool → Reply → Type 0
Moves os true r = r ≡ Reply.failed os.errnos.eagain
Moves os false r = (n : ℕ) × (r ≡ returned (suc n))

-- How many of the next `fuel` calls stall, from the k-th on.
abbrev pub stalls : (ℕ → Bool) → ℕ → ℕ → ℕ
stalls stalled zero k = 0
stalls stalled (suc fuel) k = (if stalled k then 1 else 0) + stalls stalled fuel (suc k)

module _ (os : Os) (this : Socket) (w : IsWaking os) where
  wakes_up : (on timeout : ℕ) (io : Io) → (wait_or_fail os this on timeout io).0 ≡ value tt
  wakes_up on timeout io =
      wait_or_fail-ended os this on timeout io (w.accepts io.waits)
      ∙ ap (ended os this on timeout) (w.wakes (ltb 0 timeout) io.waits)

  -- So a wait goes on with the same count of calls.
  resume :
      {A : Type 0} (on timeout : ℕ) (io : Io) (k : M A)
      → (f : Io) × IsIdle io f × ((wait_or_fail os this on timeout >> k) io ≡ k f)
  resume on timeout io k =
      go (wait_or_fail os this on timeout io) (wakes_up on timeout io)
        (wait_or_fail-IsIdle os this on timeout io)
    where
      go :
          (r : Outcome (Unit {0}) × Io)
          → r.0 ≡ value tt
          → IsIdle io r.1
          → (f : Io) × IsIdle io f × (((λ g. r) >>= λ u. k) io ≡ k f)
      go (value u, f) e i = (f, i, refl)
      go (unexpected x, f) e i = absurd (cc)
      go (thrown, f) e i = absurd (cc)
      go (blocked, f) e i = absurd (cc)
      go (out_of_fuel, f) e i = absurd (cc)

  on_failure-eagain :
      {A : Type 0} (io : Io) → on_failure os this {A = A} os.errnos.eagain io ≡ (value none, io)
  unfolding on_failure
  on_failure-eagain io =
      let r : (os.errnos.eagain == os.errnos.econnreset) ≡ false = ground (arith, w.reset_apart) in
      let p : (os.errnos.eagain == os.errnos.epipe) ≡ false = ground (arith, w.pipe_apart) in
      let s : (os.errnos.eagain == os.errnos.eagain) ≡ true = ground arith in rw (r, p, s)

  module _ (stalled : ℕ → Bool)
      (moves : (k size : ℕ) → 0 < size → Moves os (stalled k) (os.reply k size)) where
    -- What the next round does, by whether its call stalls.
    abbrev Advanced : Bool → Io → Outcome (Option ℕ) × Io → Type 0
    Advanced true io (r, f) = (r ≡ value none) × (f.calls ≡ suc io.calls)
    Advanced false io (r, f) = (n : ℕ) × (r ≡ value (some (suc n))) × (f.calls ≡ suc io.calls)

    send_round-Advanced :
        (bs : List ℕ) (io : Io)
        → 0 < length bs
        → Advanced (stalled io.calls) io (send_round os this bs io)
    unfolding send_round transmit transmitted on_sent
    send_round-Advanced bs io h =
        go (stalled io.calls) (os.reply io.calls (length bs)) (moves io.calls (length bs) h)
      where
        go :
            (s : Bool) (r : Reply)
            → Moves os s r
            → Advanced s io ((transmitted os this bs r >>= on_sent os this) io)
        go true r e = rw (e, on_failure-eagain {A = ℕ} _) (refl, refl)
        go false r (n, e) = rw e (n, refl, refl)

    send_rest-completes :
        (fuel timeout : ℕ) (bs : List ℕ) (io : Io)
        → length bs + stalls stalled fuel io.calls ≤ fuel
        → (send_rest os this fuel timeout bs io).0 ≡ value tt
    unfolding send_rest
    send_rest-completes fuel timeout [] io h = refl
    send_rest-completes zero timeout (b ∷ bs) io h = absurd (omega arith)
    send_rest-completes (suc fuel) timeout (b ∷ bs) io h =
        go (stalled io.calls) refl (send_round os this (b ∷ bs) io)
          (send_round-Advanced (b ∷ bs) io (omega arith))
          (λ n g p. send_rest-completes fuel timeout (drop n (b ∷ bs)) g p)
          (λ g p. send_rest-completes fuel timeout (b ∷ bs) g p)
      where
        go :
            (s : Bool)
            → stalled io.calls ≡ s
            → (r : Outcome (Option ℕ) × Io) → Advanced s io r
            → ((n : ℕ) (g : Io)
                → length (drop n (b ∷ bs)) + stalls stalled fuel g.calls ≤ fuel
                → (send_rest os this fuel timeout (drop n (b ∷ bs)) g).0 ≡ value tt)
            → ((g : Io)
                → length (b ∷ bs) + stalls stalled fuel g.calls ≤ fuel
                → (send_rest os this fuel timeout (b ∷ bs) g).0 ≡ value tt)
            → (((λ g. r) >>= λ o. elim o [
              | some n ↦ send_rest os this fuel timeout (drop n (b ∷ bs))
              | none ↦
                  wait_or_fail os this writable timeout >> send_rest os this fuel timeout (b ∷ bs)
            ])
                io).0
              ≡ value tt
        go true e (r, f) (a, c) ih jh =
            let (g, i, q) = resume writable timeout f (send_rest os this fuel timeout (b ∷ bs)) in
            rw (a, q) (jh g (ground (arith, i.calls, c)))
        go false e (r, f) (n, a, c) ih jh =
            rw a (ih (suc n) f (ground (arith, c, length-drop n bs)))

    -- If every wait ends by its event, and every call either moves a byte or would block, then
    -- `send` succeeds within as many rounds as there are bytes and stalled calls.
    pub send-completes :
        (fuel : ℕ) (bs : List ℕ) (timeout : ℕ) (io : Io)
        → length bs + stalls stalled fuel io.calls ≤ fuel
        → (send os this fuel bs timeout io).0 ≡ value tt
    unfolding send
    send-completes fuel bs timeout io h = send_rest-completes fuel timeout bs io h

  recv_round-brings :
      (size b : ℕ) (bs : List ℕ) (io : Io)
      → os.incoming io.calls size ≡ got (b ∷ bs)
      → (recv_round os this size io).0 ≡ value (some (b ∷ bs))
  unfolding recv_round receive on_received fill
  recv_round-brings size b bs io e = go (os.incoming io.calls size) e
    where
      go :
          (x : Incoming)
          → x ≡ got (b ∷ bs)
          → ((fill os this x >>= on_received os this this.protocol) io).0 ≡ value (some (b ∷ bs))
      go x e = rw e refl

  recv_round-stalls :
      (size : ℕ) (io : Io)
      → os.incoming io.calls size ≡ Incoming.failed os.errnos.eagain
      → ((recv_round os this size io).0 ≡ value none)
        × ((recv_round os this size io).1.calls ≡ suc io.calls)
  unfolding recv_round receive on_received fill
  recv_round-stalls size io e = go (os.incoming io.calls size) e
    where
      go :
          (x : Incoming)
          → x ≡ Incoming.failed os.errnos.eagain
          → let r = (fill os this x >>= on_received os this this.protocol) io in
            (r.0 ≡ value none) × (r.1.calls ≡ suc io.calls)
      go x e = rw (e, on_failure-eagain {A = List ℕ} _) (refl, refl)

  -- If every wait ends by its event, and the next `n` calls would block before one that brings
  -- bytes, then `recv` returns these bytes in `n + 1` rounds.
  pub recv-completes :
      (n size timeout b : ℕ) (bs : List ℕ) (io : Io)
      → ((j : ℕ) → j < n → os.incoming (io.calls + j) size ≡ Incoming.failed os.errnos.eagain)
      → os.incoming (io.calls + n) size ≡ got (b ∷ bs)
      → (recv os this (suc n) size timeout io).0 ≡ value (b ∷ bs)
  unfolding recv retry
  recv-completes zero size timeout b bs io blocks comes = go (recv_round os this size io) (
      recv_round-brings size b bs io
        (let z : io.calls + 0 ≡ io.calls = omega arith in rw (← z) comes))
    where
      go :
          (r : Outcome (Option (List ℕ)) × Io)
          → r.0 ≡ value (some (b ∷ bs))
          → (((λ g. r) >>= λ o. elim o [
            | some a ↦ pure a
            | none ↦ wait_or_fail os this readable timeout >> recv os this 0 size timeout
          ])
              io).0
            ≡ value (b ∷ bs)
      go (r, f) e = rw e
  recv-completes (suc n) size timeout b bs io blocks comes =
      go (recv_round os this size io)
        (recv_round-stalls size io
          (let z : io.calls + 0 ≡ io.calls = omega arith in rw (← z) (blocks 0 (omega arith))))
        (λ g c.
          recv-completes n size timeout b bs g
            (λ j l.
              let z : g.calls + j ≡ io.calls + suc j = omega arith in
              rw z (blocks (suc j) (omega arith)))
            (let z : g.calls + n ≡ io.calls + suc n = omega arith in rw z comes))
    where
      go :
          (r : Outcome (Option (List ℕ)) × Io)
          → (r.0 ≡ value none) × (r.1.calls ≡ suc io.calls)
          → ((g : Io)
              → g.calls ≡ suc io.calls
              → (recv os this (suc n) size timeout g).0 ≡ value (b ∷ bs))
          → (((λ g. r) >>= λ o. elim o [
            | some a ↦ pure a
            | none ↦ wait_or_fail os this readable timeout >> recv os this (suc n) size timeout
          ])
              io).0
            ≡ value (b ∷ bs)
      go (r, f) (e, c) ih =
          let (g, i, q) = resume readable timeout f (recv os this (suc n) size timeout) in
          rw (e, q) (ih g (i.calls ∙ c))
