-- ===== src/Socket/Receiving.antt =====
-- `recv` and `recvfrom` hand on every byte that the system gives them.
use cgo.Base.{
  ℕ, ◌≤◌, ◌<◌, ◌≡◌, refl, ◌==◌, ◌||◌, List, [], ◌∷◌, ◌++◌, arith, length, append-nil, ◌∙◌, ap,
  Bool-cases, inl, inr,
}
use cgo.Socket.{
  Socket, Protocol, tcp, udp, Outcome, value, unexpected, thrown, blocked, out_of_fuel, Io, Os,
  Incoming, got, M, fail, retry, unsupported, ◌>>=◌, wait_or_fail, would_block,
}
use cgo.Socket.Loops.{Attempted, Paused, retry-inv, IsIdle, wait_or_fail-IsIdle}
use cgo.Socket.Transfer.{
  readable, error, on_failure, fill, receive, on_received, recv_round, recv, on_datagram,
  recvfrom_round, recvfrom,
}

-- What was handed on is what the system gave, and between one and `size` bytes; an operation that
-- does not succeed was given none.
abbrev pub HandedOn : ℕ → Io → Outcome (List ℕ) × Io → Type 0
HandedOn size io (value bs, f) =
    (f.received ≡ io.received ++ bs) × (0 < length bs) × (length bs ≤ size)
HandedOn size io (_, f) = f.received ≡ io.received

-- The bytes of a datagram.
abbrev pub payload_of : Outcome (List ℕ × (ℕ × ℕ)) × Io → Outcome (List ℕ) × Io
payload_of (value p, f) = (value p.0, f)
payload_of (unexpected e, f) = (unexpected e, f)
payload_of (thrown, f) = (thrown, f)
payload_of (blocked, f) = (blocked, f)
payload_of (out_of_fuel, f) = (out_of_fuel, f)

-- The system never fills more than the buffer.
abbrev pub Fits : Os → Type 0
Fits os = (k size : ℕ) (bs : List ℕ) → os.incoming k size ≡ got bs → length bs ≤ size

module _ (os : Os) (this : Socket) (size timeout : ℕ) (io : Io) where
  abbrev Same : Io → Type 0
  Same f = f.received ≡ io.received

  -- A failed call, and a wait, bring nothing.
  on_failure-Attempted :
      (e : ℕ) (f : Io)
      → Same f
      → Attempted Same (HandedOn size io) (on_failure os this {A = List ℕ} e f)
  unfolding on_failure
  on_failure-Attempted e f h =
      elim (Bool-cases (e == os.errnos.econnreset || e == os.errnos.epipe)) [
        | inl y ↦ rw y h
        | inr n ↦ rw n (elim (Bool-cases (would_block os e)) [ inl y ↦ rw y h | inr m ↦ rw m h ])
      ]

  wait-Paused :
      (f : Io) → Same f → Paused Same (HandedOn size io) (wait_or_fail os this readable timeout f)
  wait-Paused f h =
      go (wait_or_fail os this readable timeout f) (wait_or_fail-IsIdle os this readable timeout f)
    where
      go : (r : Outcome (Unit {0}) × Io) → IsIdle f r.1 → Paused Same (HandedOn size io) r
      go (value u, g) i = i.received ∙ h
      go (unexpected e, g) i = i.received ∙ h
      go (thrown, g) i = i.received ∙ h
      go (blocked, g) i = i.received ∙ h
      go (out_of_fuel, g) i = i.received ∙ h

  wait-Paused_datagram :
      (f : Io)
      → Same f
      → Paused Same (λ r. HandedOn size io (payload_of r)) (wait_or_fail os this readable timeout f)
  wait-Paused_datagram f h =
      go (wait_or_fail os this readable timeout f) (wait_or_fail-IsIdle os this readable timeout f)
    where
      go :
          (r : Outcome (Unit {0}) × Io)
          → IsIdle f r.1
          → Paused Same (λ r. HandedOn size io (payload_of r)) r
      go (value u, g) i = i.received ∙ h
      go (unexpected e, g) i = i.received ∙ h
      go (thrown, g) i = i.received ∙ h
      go (blocked, g) i = i.received ∙ h
      go (out_of_fuel, g) i = i.received ∙ h

  module _ (fits : Fits os) where
    recv_round-Attempted :
        (f : Io) → Same f → Attempted Same (HandedOn size io) (recv_round os this size f)
    unfolding recv_round receive on_received fill
    recv_round-Attempted f h =
        go this.protocol (os.incoming f.calls size) (λ bs e. fits f.calls size bs e)
      where
        go :
            (p : Protocol) (x : Incoming)
            → ((bs : List ℕ) → x ≡ got bs → length bs ≤ size)
            → Attempted Same (HandedOn size io) ((fill os this x >>= on_received os this p) f)
        go p (got (b ∷ bs)) l = (ap (λ x. x ++ b ∷ bs) h, omega arith, l (b ∷ bs) refl)
        go tcp (got []) l = append-nil f.received ∙ h
        go udp (got []) l = append-nil f.received ∙ h
        go tcp (Incoming.failed e) l = on_failure-Attempted e _ h
        go udp (Incoming.failed e) l = on_failure-Attempted e _ h

    recvfrom_round-Attempted :
        (f : Io)
        → Same f
        → Attempted Same (λ r. HandedOn size io (payload_of r)) (recvfrom_round os this size f)
    unfolding recvfrom_round receive on_datagram fill
    recvfrom_round-Attempted f h = go (os.incoming f.calls size) (λ bs e. fits f.calls size bs e)
      where
        go :
            (x : Incoming)
            → ((bs : List ℕ) → x ≡ got bs → length bs ≤ size)
            → Attempted Same
                (λ r. HandedOn size io (payload_of r))
                ((fill os this x >>= on_datagram os this f.calls) f)
        go (got (b ∷ bs)) l = (ap (λ x. x ++ b ∷ bs) h, omega arith, l (b ∷ bs) refl)
        go (got []) l = append-nil f.received ∙ h
        go (Incoming.failed e) l = elim (Bool-cases (would_block os e)) [
          | inl y ↦ rw y h
          | inr n ↦ rw n h
        ]

    -- If the system never fills more than the buffer, then `recv` loses and makes up no byte: on
    -- success it returns all that the system gave it, at least one byte and at most `size`; and if
    -- it does not succeed, the system gave it none.
    pub recv-HandedOn : (fuel : ℕ) → HandedOn size io (recv os this fuel size timeout io)
    unfolding recv
    recv-HandedOn fuel =
        retry-inv Same (HandedOn size io) _ _ recv_round-Attempted wait-Paused (λ f h. h) fuel io
          refl

    -- The same of `recvfrom`: if the system never fills more than the buffer, it returns all the
    -- bytes that the system gave it, at least one and at most `size`, or was given none.
    pub recvfrom-HandedOn :
        (fuel : ℕ) → HandedOn size io (payload_of (recvfrom os this fuel size timeout io))
    unfolding recvfrom
    recvfrom-HandedOn fuel = go this.protocol
      where
        go :
            (p : Protocol)
            → HandedOn size io (
                payload_of (
                  (elim p as (λ q. M (List ℕ × (ℕ × ℕ))) [
                    | tcp ↦ fail (error os this 0 unsupported)
                    | udp ↦
                        retry
                          (recvfrom_round os this size)
                          (wait_or_fail os this readable timeout)
                          fuel
                  ])
                    io))
        go tcp = refl
        go udp =
            retry-inv Same (λ r. HandedOn size io (payload_of r)) _ _ recvfrom_round-Attempted
              wait-Paused_datagram (λ f h. h) fuel io refl
