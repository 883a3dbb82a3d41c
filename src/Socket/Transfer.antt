-- ===== src/Socket/Transfer.antt =====
-- `recv`, `send`, `sendto` and `recvfrom` of src/core/socket.cpp.
use Prim.Native.Nat.{bit_or}
use Prim.Native.String.{String}
use cgo.Base.{
  ℕ, zero, suc, ◌==◌, ◌||◌, if◌then◌else◌, Option, none, some, List, [], ◌∷◌, ◌++◌, length, take,
  drop,
}
use cgo.Event.{event_in, event_out, event_oneshot}
use cgo.Socket.{
  Socket, Protocol, tcp, udp, Error, Message, by_errno, closed, unsupported, invalid_address, value,
  unexpected, out_of_fuel, Reply, Incoming, returned, got, Os, M, pure, fail, ◌>>=◌, ◌>>◌,
  set_errno, wait_or_fail, would_block, retry,
}

abbrev pub readable : ℕ
readable = bit_or event_in event_oneshot

abbrev pub writable : ℕ
writable = bit_or event_out event_oneshot

module _ (os : Os) (this : Socket) where
  abbrev pub error : ℕ → Message → Error
  error code msg = record { fd = this.fd; err_code = code; err_msg = msg }

  -- A failed call of `recv` or `send`: `none` if it is to be tried again.
  unfoldable pub on_failure : {A : Type 0} → ℕ → M (Option A)
  on_failure e io =
      if e == os.errnos.econnreset || e == os.errnos.epipe
      then (unexpected (error e closed), io)
      else if would_block os e
      then (value none, io)
      else (unexpected (error e by_errno), io)

  unfoldable pub fill : Incoming → M Incoming
  fill (got bs) io =
      (value (got bs), record io { calls = suc io.calls; received = io.received ++ bs })
  fill (Incoming.failed e) io =
      (value (Incoming.failed e), set_errno e (record io { calls = suc io.calls }))

  -- `::recv` and `::recvfrom` with a buffer of `size` bytes.
  unfoldable pub receive : ℕ → M Incoming
  unfolding fill
  receive size io = fill (os.incoming io.calls size) io

  unfoldable pub on_received : Protocol → Incoming → M (Option (List ℕ))
  unfolding on_failure
  on_received protocol (got (b ∷ bs)) = pure (some (b ∷ bs))
  on_received tcp (got []) = fail (error 0 closed)
  on_received udp (got []) = pure none
  on_received protocol (Incoming.failed e) = on_failure e

  -- A round of `recv`, up to its wait.
  unfoldable pub recv_round : ℕ → M (Option (List ℕ))
  unfolding receive on_received
  recv_round size = receive size >>= on_received this.protocol

  -- `recv`.
  unfoldable pub recv : ℕ → ℕ → ℕ → M (List ℕ)
  unfolding recv_round
  recv fuel size timeout = retry (recv_round size) (wait_or_fail os this readable timeout) fuel

  unfoldable pub on_datagram : ℕ → Incoming → M (Option (List ℕ × (ℕ × ℕ)))
  on_datagram k (got (b ∷ bs)) = pure (some (b ∷ bs, os.source k))
  on_datagram k (got []) = pure none
  on_datagram k (Incoming.failed e) =
      if would_block os e then pure none else fail (error e by_errno)

  unfoldable pub recvfrom_round : ℕ → M (Option (List ℕ × (ℕ × ℕ)))
  unfolding receive on_datagram
  recvfrom_round size io = (receive size >>= on_datagram io.calls) io

  -- `recvfrom`: the bytes, and the address and port of their sender.
  unfoldable pub recvfrom : ℕ → ℕ → ℕ → M (List ℕ × (ℕ × ℕ))
  unfolding recvfrom_round
  recvfrom fuel size timeout = elim this.protocol [
    | tcp ↦ fail (error 0 unsupported)
    | udp ↦ retry (recvfrom_round size) (wait_or_fail os this readable timeout) fuel
  ]

  -- `::send` and `::sendto` of `bs`.
  unfoldable pub transmitted : List ℕ → Reply → M Reply
  transmitted bs (returned n) io =
      (value (returned n), record io { calls = suc io.calls; sent = io.sent ++ take n bs })
  transmitted bs (Reply.failed e) io =
      (value (Reply.failed e), set_errno e (record io { calls = suc io.calls }))

  unfoldable pub transmit : List ℕ → M Reply
  unfolding transmitted
  transmit bs io = transmitted bs (os.reply io.calls (length bs)) io

  unfoldable pub on_sent : Reply → M (Option ℕ)
  unfolding on_failure
  on_sent (returned (suc n)) = pure (some (suc n))
  on_sent (returned zero) = pure none
  on_sent (Reply.failed e) = on_failure e

  -- A round of `send`, up to its wait.
  unfoldable pub send_round : List ℕ → M (Option ℕ)
  unfolding transmit on_sent
  send_round rest = transmit rest >>= on_sent

  -- The loop of `send`; `rest` is what follows index `i`.
  unfoldable pub send_rest : ℕ → ℕ → List ℕ → M (Unit {0})
  unfolding send_round
  send_rest fuel timeout [] io = (value tt, io)
  send_rest zero timeout (b ∷ bs) io = (out_of_fuel, io)
  send_rest (suc fuel) timeout (b ∷ bs) io =
      (send_round (b ∷ bs) >>= λ r. elim r [
        | some n ↦ send_rest fuel timeout (drop n (b ∷ bs))
        | none ↦ wait_or_fail os this writable timeout >> send_rest fuel timeout (b ∷ bs)
      ])
        io

  -- `send`.
  unfoldable pub send : ℕ → List ℕ → ℕ → M (Unit {0})
  unfolding send_rest
  send fuel bs timeout = send_rest fuel timeout bs

  -- An address in the text `ip`.
  unfoldable pub parse_address : String → ℕ → M (Unit {0})
  parse_address ip port io = elim (os.inet_pton this.family ip) [
    | none ↦ (unexpected (error io.net.errno invalid_address), io)
    | some a ↦ (value tt, record io { named = io.named ++ (a, port) ∷ [] })
  ]

  unfoldable pub on_sent_to : Reply → M (Option ℕ)
  on_sent_to (returned n) = pure (some n)
  on_sent_to (Reply.failed e) = if would_block os e then pure none else fail (error e by_errno)

  unfoldable pub sendto_round : List ℕ → M (Option ℕ)
  unfolding transmit on_sent_to
  sendto_round bs = transmit bs >>= on_sent_to

  -- `sendto`.
  unfoldable pub sendto : ℕ → List ℕ → String → ℕ → ℕ → M ℕ
  unfolding parse_address sendto_round
  sendto fuel bs ip port timeout = elim this.protocol [
    | tcp ↦ fail (error 0 unsupported)
    | udp ↦
        parse_address ip port
        >> retry (sendto_round bs) (wait_or_fail os this writable timeout) fuel
  ]
