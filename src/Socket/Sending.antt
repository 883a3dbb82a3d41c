-- ===== src/Socket/Sending.antt =====
-- `send` hands over its bytes in order, and finishes if the peer keeps reading.
use cgo.Base.{
  ℕ, zero, suc, ◌+◌, ◌≡◌, refl, ◌==◌, Option, none, some, List, [], ◌∷◌, ◌++◌, length, take, drop,
  take-append-drop, take-append-take, append-nil, append_assoc, sym, ◌∙◌, Bool-cases, inl, inr,
  ◌||◌,
}
use cgo.Socket.{
  Socket, Outcome, value, unexpected, thrown, blocked, out_of_fuel, Io, Os, Reply, returned, ◌>>=◌,
  ◌>>◌, wait_or_fail, would_block,
}
use cgo.Socket.Loops.{IsIdle, wait_or_fail-IsIdle}
use cgo.Socket.Transfer.{
  writable, send, send_rest, send_round, transmit, transmitted, on_sent, on_failure,
}

-- All of `bs` was taken, or, if `send` did not succeed, a first part of them.
abbrev pub Delivered : Io → List ℕ → Outcome (Unit {0}) × Io → Type 0
Delivered io bs (value u, f) = f.sent ≡ io.sent ++ bs
Delivered io bs (_, f) = (n : ℕ) × (f.sent ≡ io.sent ++ take n bs)

more :
    (n m : ℕ) (bs : List ℕ) (io f g : Io)
    → f.sent ≡ io.sent ++ take n bs
    → g.sent ≡ f.sent ++ take m (drop n bs)
    → (k : ℕ) × (g.sent ≡ io.sent ++ take k bs)
more n m bs io f g e d = (n + m, rw (d, e, append_assoc, take-append-take))

module _ (os : Os) (this : Socket) where
  -- What a round took.
  abbrev Round : Io → List ℕ → Outcome (Option ℕ) × Io → Type 0
  Round io bs (value (some n), f) = f.sent ≡ io.sent ++ take n bs
  Round io bs (_, f) = f.sent ≡ io.sent

  send_round-Round : (bs : List ℕ) (io : Io) → Round io bs (send_round os this bs io)
  unfolding send_round transmit transmitted on_sent on_failure
  send_round-Round bs io = go (os.reply io.calls (length bs))
    where
      go : (r : Reply) → Round io bs ((transmitted os this bs r >>= on_sent os this) io)
      go (returned (suc n)) = refl
      go (returned zero) = append-nil io.sent
      go (Reply.failed e) = elim (Bool-cases (e == os.errnos.econnreset || e == os.errnos.epipe)) [
        | inl y ↦ rw y refl
        | inr n ↦
            rw n (elim (Bool-cases (would_block os e)) [ inl y ↦ rw y refl | inr m ↦ rw m refl ])
      ]

  paused-Delivered :
      (fuel timeout : ℕ) (bs : List ℕ) (io f : Io)
      → f.sent ≡ io.sent
      → ((g : Io) → Delivered g bs (send_rest os this fuel timeout bs g))
      → Delivered io bs
          ((wait_or_fail os this writable timeout >> send_rest os this fuel timeout bs) f)
  paused-Delivered fuel timeout bs io f e ih =
      go (wait_or_fail os this writable timeout f) (wait_or_fail-IsIdle os this writable timeout f)
    where
      at_zero : (g : Io) → IsIdle f g → g.sent ≡ io.sent ++ take 0 bs
      at_zero g i = i.sent ∙ e ∙ sym (append-nil io.sent)

      moved :
          (g : Io)
          → IsIdle f g
          → (r : Outcome (Unit {0}) × Io) → Delivered g bs r
          → Delivered io bs r
      moved g i (value u, h) d = rw (d, i.sent, e)
      moved g i (unexpected x, h) (n, d) = (n, rw (d, i.sent, e))
      moved g i (thrown, h) (n, d) = (n, rw (d, i.sent, e))
      moved g i (blocked, h) (n, d) = (n, rw (d, i.sent, e))
      moved g i (out_of_fuel, h) (n, d) = (n, rw (d, i.sent, e))

      go :
          (r : Outcome (Unit {0}) × Io)
          → IsIdle f r.1
          → Delivered io bs (((λ g. r) >>= λ u. send_rest os this fuel timeout bs) f)
      go (value u, g) i = moved g i (send_rest os this fuel timeout bs g) (ih g)
      go (unexpected x, g) i = (0, at_zero g i)
      go (thrown, g) i = (0, at_zero g i)
      go (blocked, g) i = (0, at_zero g i)
      go (out_of_fuel, g) i = (0, at_zero g i)

  -- After a round that took `n` bytes the rest of the loop delivers the others.
  took-Delivered :
      (n : ℕ) (bs : List ℕ) (io f : Io) (r : Outcome (Unit {0}) × Io)
      → f.sent ≡ io.sent ++ take n bs
      → Delivered f (drop n bs) r
      → Delivered io bs r
  took-Delivered n bs io f (value u, g) e d = rw (d, e, append_assoc, take-append-drop)
  took-Delivered n bs io f (unexpected x, g) e (m, d) = more n m bs io f g e d
  took-Delivered n bs io f (thrown, g) e (m, d) = more n m bs io f g e d
  took-Delivered n bs io f (blocked, g) e (m, d) = more n m bs io f g e d
  took-Delivered n bs io f (out_of_fuel, g) e (m, d) = more n m bs io f g e d

  send_rest-Delivered :
      (fuel timeout : ℕ) (bs : List ℕ) (io : Io)
      → Delivered io bs (send_rest os this fuel timeout bs io)
  unfolding send_rest
  send_rest-Delivered fuel timeout [] io = sym (append-nil io.sent)
  send_rest-Delivered zero timeout (b ∷ bs) io = (0, sym (append-nil io.sent))
  send_rest-Delivered (suc fuel) timeout (b ∷ bs) io =
      go (send_round os this (b ∷ bs) io) (send_round-Round (b ∷ bs) io)
        (λ n. send_rest-Delivered fuel timeout (drop n (b ∷ bs)))
        (send_rest-Delivered fuel timeout (b ∷ bs))
    where
      go :
          (r : Outcome (Option ℕ) × Io)
          → Round io (b ∷ bs) r
          → ((n : ℕ) (g : Io)
              → Delivered g (drop n (b ∷ bs)) (send_rest os this fuel timeout (drop n (b ∷ bs)) g))
          → ((g : Io) → Delivered g (b ∷ bs) (send_rest os this fuel timeout (b ∷ bs) g))
          → Delivered io (b ∷ bs) (
              ((λ g. r) >>= λ o. elim o [
                | some n ↦ send_rest os this fuel timeout (drop n (b ∷ bs))
                | none ↦
                    wait_or_fail os this writable timeout >> send_rest os this fuel timeout (b ∷ bs)
              ])
                io)
      go (value (some n), f) e ih jh = took-Delivered n (b ∷ bs) io f _ e (ih n f)
      go (value none, f) e ih jh = paused-Delivered fuel timeout (b ∷ bs) io f e jh
      go (unexpected x, f) e ih jh = (0, e ∙ sym (append-nil io.sent))
      go (thrown, f) e ih jh = (0, e ∙ sym (append-nil io.sent))
      go (blocked, f) e ih jh = (0, e ∙ sym (append-nil io.sent))
      go (out_of_fuel, f) e ih jh = (0, e ∙ sym (append-nil io.sent))

  -- However `send` ends, the system has taken a first part of the bytes, in order and each once;
  -- if it succeeds, it has taken them all.
  pub send-Delivered :
      (fuel : ℕ) (bs : List ℕ) (timeout : ℕ) (io : Io)
      → Delivered io bs (send os this fuel bs timeout io)
  unfolding send
  send-Delivered fuel bs timeout io = send_rest-Delivered fuel timeout bs io
