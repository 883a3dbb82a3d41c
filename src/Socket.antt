-- ===== src/Socket.antt =====
-- `Socket` of src/include/core/event.h and src/core/socket.cpp. The system calls are the record
-- `Os`: what the n-th call on the descriptor returns, and what happens during the n-th wait. Bytes
-- are numbers. An operation is a coroutine: it is run to its end, or until it is out of fuel or
-- waits for ever.
pub mod Decision
pub mod Loops
pub mod Transfer
pub mod Sending
pub mod Receiving
pub mod Liveness
pub mod Setup
mod Tests
use Prim.Native.String.{String}
use cgo.Base.{
  ℕ, zero, suc, ◌+◌, ◌%◌, ◌==◌, ltb, Bool, true, false, ◌||◌, if◌then◌else◌, Option, none, some,
  List, [], ◌∷◌, ◌++◌, update,
}
use cgo.Event.{event_in, event_out, event_err, event_oneshot}
use cgo.Event.Contexts.{EventContext, mod_in}
use cgo.Timed.{TimedContext, create_timeout}
use cgo.Socket.Decision.{Race, Callback, Verdict, pending, activated, expired, new_race, race}

pub data Protocol : Type 0 where
  tcp udp : Protocol

pub data AddressFamily : Type 0 where
  ipv4 ipv6 : AddressFamily

-- A socket of the context whose registry and timers are in `Net` below.
pub record Socket : Type 0 where
  pub fd : ℕ
  pub protocol : Protocol
  pub family : AddressFamily

-- The texts of `err_msg`; `by_errno` is `strerror`.
pub data Message : Type 0 where
  by_errno closed timed_out unsupported invalid_address : Message

pub record Error : Type 0 where
  pub fd : ℕ
  pub err_code : ℕ
  pub err_msg : Message

-- How an operation ends. `thrown` is an exception, and `blocked` a wait that nobody ends.
pub data Outcome (A : Type 0) : Type 0 where
  value : A → Outcome A
  unexpected : Error → Outcome A
  thrown blocked out_of_fuel : Outcome A

-- What the operation shares with the rest of the program.
pub record Net : Type 0 where
  pub events : EventContext
  pub timed : TimedContext
  pub errno : ℕ

-- `next` is the address of the next `Signal`; `calls` and `waits` count what was done on the
-- descriptor. `received` and `sent` are the bytes that the system has handed out and taken, and
-- `named` the addresses, with their ports, that it was given.
pub record Io : Type 0 where
  pub net : Net
  pub next : ℕ
  pub calls : ℕ
  pub waits : ℕ
  pub received : List ℕ
  pub sent : List ℕ
  pub named : List (ℕ × ℕ)

-- What a system call returns: a number, or -1 with the error.
pub data Reply : Type 0 where
  returned : ℕ → Reply
  failed : ℕ → Reply

-- The same for a call that fills a buffer: the bytes, as many as the number returned.
pub data Incoming : Type 0 where
  got : List ℕ → Incoming
  failed : ℕ → Incoming

pub record Errnos : Type 0 where
  pub eagain : ℕ
  pub ewouldblock : ℕ
  pub econnreset : ℕ
  pub epipe : ℕ
  pub einprogress : ℕ
  pub etimedout : ℕ

pub record Os : Type 0 where
  pub errnos : Errnos
  -- By the count of calls, and the size of the buffer.
  pub incoming : ℕ → ℕ → Incoming
  pub reply : ℕ → ℕ → Reply
  -- The sender of the datagram that the n-th call received.
  pub source : ℕ → ℕ × ℕ
  -- `inet_pton`; `none` where it does not return 1.
  pub inet_pton : AddressFamily → String → Option ℕ
  pub any_address : AddressFamily → ℕ
  -- Whether epoll accepts a new descriptor, by the count of calls, and a wait, by the count of waits.
  pub epoll_added : ℕ → Bool
  pub epoll_ok : ℕ → Bool
  -- The callbacks of the wait's race, and what else happens, before the coroutine goes on.
  pub callbacks : ℕ → List Callback
  pub meanwhile : ℕ → Net → Net
  pub clock : ℕ → ℕ

abbrev pub M : Type 0 → Type 0
M A = Io → Outcome A × Io

module _ {A : Type 0} where
  abbrev pub pure : A → M A
  pure a io = (value a, io)

  -- `co_return std::unexpected(...)`.
  abbrev pub fail : Error → M A
  fail e io = (unexpected e, io)

infixl 5 ◌>>=◌ ◌>>◌
abbrev pub ◌>>=◌ : {A B : Type 0} → M A → (A → M B) → M B
◌>>=◌ m f io =
    let (r, io') = m io in
    elim r [
      | value a ↦ f a io'
      | unexpected e ↦ (unexpected e, io')
      | thrown ↦ (thrown, io')
      | blocked ↦ (blocked, io')
      | out_of_fuel ↦ (out_of_fuel, io')
    ]

abbrev pub ◌>>◌ : {A B : Type 0} → M A → M B → M B
m >> k = m >>= λ _. k

abbrev pub set_errno : ℕ → Io → Io
set_errno e io = record io { net = record io.net { errno = e } }

-- `while (true)`: an attempt that ends the loop, or a wait before the next one.
module _ {A : Type 0} (attempt : M (Option A)) (pause : M (Unit {0})) where
  unfoldable pub retry : ℕ → M A
  retry zero io = (out_of_fuel, io)
  retry (suc fuel) io =
      (attempt >>= λ r. elim r [ some a ↦ pure a | none ↦ pause >> retry fuel ]) io

module _ (os : Os) where
  -- What the caller sees of a return value.
  unfoldable pub take_reply : Reply → M Reply
  take_reply (returned n) io = (value (returned n), record io { calls = suc io.calls })
  take_reply (failed e) io = (value (failed e), set_errno e (record io { calls = suc io.calls }))

  -- A system call that only returns a number; `size` is that of its buffer, if it has one.
  unfoldable pub call : ℕ → M Reply
  unfolding take_reply
  call size io = take_reply (os.reply io.calls size) io

  abbrev pub get_errno : M ℕ
  get_errno io = (value io.net.errno, io)

  -- The end of the wait: `signal.aquire()` and the verdict.
  unfoldable pub verdict_of : Race → M Bool
  verdict_of r io = (
    if r.permits == 0 then blocked else value (elim r.verdict [ activated ↦ true | _ ↦ false ]),
    io,
  )

  -- `_wait_sock_event`. A `timeout` of 0 stands for none.
  unfoldable pub wait_sock_event : Socket → ℕ → ℕ → M Bool
  unfolding verdict_of
  wait_sock_event this on timeout io =
      let s = io.next in
      let m = mod_in (os.epoll_ok io.waits) this.fd on s io.net.events in
      let timed = create_timeout os.clock s timeout io.net.timed in
      let net1 : Net = record io.net {
        events = m.0;
        timed = if timeout == 0 then io.net.timed else timed;
      } in
      let io1 : Io = record io {
        net = os.meanwhile io.waits net1;
        next = suc s;
        waits = suc io.waits;
      } in
      let io2 : Io = record io {
        net = record io.net { events = m.0 };
        next = suc s;
        waits = suc io.waits;
      } in
      if m.1
      then verdict_of (race (ltb 0 timeout) (os.callbacks io.waits) new_race) io1
      else (thrown, io2)

  -- The wait of an operation that gives up when it times out.
  unfoldable pub wait_or_fail : Socket → ℕ → ℕ → M (Unit {0})
  wait_or_fail this on timeout = wait_sock_event this on timeout >>= λ ready.
      if ready
      then pure tt
      else fail (record { fd = this.fd; err_code = os.errnos.etimedout; err_msg = timed_out })

  -- `errno` is that of a call that would block.
  abbrev pub would_block : ℕ → Bool
  would_block e = e == os.errnos.eagain || e == os.errnos.ewouldblock
