-- ===== src/Socket/Setup.antt =====
-- The constructors, `bind`, `listen`, `accept`, `connect` and `close` of src/core/socket.cpp. An
-- accepted socket belongs to the context of the one that accepts.
use Prim.Native.Nat.{bit_or}
use Prim.Native.String.{String}
use text.Mathlib.Text.{◌==◌ as str_eq}
use cgo.Base.{
  ℕ, zero, suc, ◌==◌, ◌||◌, ◌&&◌, not, Bool, true, false, if◌then◌else◌, Option, none, some, [],
  ◌∷◌, ◌++◌,
}
use cgo.Event.{event_err, event_oneshot}
use cgo.Event.Contexts.{add_to, del_from}
use cgo.Socket.{
  Socket, Protocol, tcp, udp, AddressFamily, ipv4, ipv6, by_errno, timed_out, unsupported, value,
  unexpected, thrown, Reply, returned, Os, M, pure, fail, ◌>>=◌, ◌>>◌, call, get_errno,
  wait_sock_event, would_block, retry,
}
use cgo.Socket.Transfer.{error, readable, writable, parse_address}

abbrev pub is_tcp : Protocol → Bool
is_tcp tcp = true
is_tcp udp = false

-- The callback that does nothing.
abbrev pub no_call : ℕ
no_call = 0

module _ (os : Os) where
  -- `add` of the registry.
  unfoldable pub join : Socket → M (Unit {0})
  join this io =
      let r =
        add_to (os.epoll_added io.calls) this.fd (bit_or event_err event_oneshot) no_call
          io.net.events in
      (if r.1 then value tt else thrown, record io { net = record io.net { events = r.0 } })

  abbrev pub throw_if_failed : Reply → M (Unit {0})
  throw_if_failed (returned n) io = (value tt, io)
  throw_if_failed (Reply.failed e) io = (thrown, io)

  -- `_set_sock_opt`; the results of the four `setsockopt` are not read.
  unfoldable pub set_sock_opt : Socket → M (Unit {0})
  unfolding join
  set_sock_opt this = do
    flags ← call os 0
    r ← call os 0
    throw_if_failed r
    reuse_addr ← call os 0
    rcvbuf ← call os 0
    reuse_port ← call os 0
    zerocopy ← call os 0
    join this

  abbrev pub or_throw : Protocol → AddressFamily → Reply → M Socket
  or_throw protocol family (Reply.failed e) io = (thrown, io)
  or_throw protocol family (returned fd) io =
      (value (record { fd = fd; protocol = protocol; family = family }), io)

  -- `Socket::create`.
  unfoldable pub create : Protocol → AddressFamily → M Socket
  unfolding set_sock_opt
  create protocol family = do
    r ← call os 0
    this ← or_throw protocol family r
    set_sock_opt this
    pure this

  module _ (this : Socket) where
    abbrev pub fail_by_errno : {A : Type 0} → M A
    fail_by_errno io = (unexpected (error os this io.net.errno by_errno), io)

    abbrev pub any_name : String → Bool
    any_name ip = str_eq ip "" || str_eq ip (elim this.family [ ipv4 ↦ "0.0.0.0" | ipv6 ↦ "::" ])

    unfoldable pub bind_address : String → ℕ → M (Unit {0})
    unfolding parse_address
    bind_address ip port io =
        let any = record io { named = io.named ++ (os.any_address this.family, port) ∷ [] } in
        if any_name ip then (value tt, any) else parse_address os this ip port io

    -- The end of `bind` and `listen`.
    abbrev pub finish : Reply → M (Unit {0})
    finish (returned n) = pure tt
    finish (Reply.failed e) = fail_by_errno

    -- `bind`.
    unfoldable pub bind : String → ℕ → M (Unit {0})
    unfolding bind_address
    bind ip port = bind_address ip port >> (call os 0 >>= finish)

    -- `listen`.
    unfoldable pub listen : M (Unit {0})
    listen = elim this.protocol [
      | udp ↦ fail (error os this 0 unsupported)
      | tcp ↦ call os 0 >>= finish
    ]

    accept_errno : M (Option Socket)
    accept_errno io =
        if would_block os io.net.errno
        then (value none, io)
        else (unexpected (error os this io.net.errno by_errno), io)

    -- A round of `accept`: `fd > 0` is tested, and `errno` read where it fails.
    unfoldable pub on_accepted : Reply → M (Option Socket)
    unfolding accept_errno set_sock_opt
    on_accepted (returned (suc n)) = do
      let new : Socket = record { fd = suc n; protocol = this.protocol; family = this.family }
      set_sock_opt new
      pure (some new)
    on_accepted (returned zero) = accept_errno
    on_accepted (Reply.failed e) = accept_errno

    -- `accept`; whether the wait timed out is not read.
    unfoldable pub accept : ℕ → M Socket
    unfolding on_accepted
    accept fuel = elim this.protocol [
      | udp ↦ fail (error os this 0 unsupported)
      | tcp ↦
          retry (call os 0 >>= on_accepted) (wait_sock_event os this readable 0 >>= λ _. pure tt)
            fuel
    ]

    unfoldable pub on_status : Reply → M (Unit {0})
    on_status (returned zero) = pure tt
    on_status (returned (suc e)) = fail (error os this (suc e) by_errno)
    on_status (Reply.failed e) = fail_by_errno

    -- `connect` after a call that did not return 0.
    unfoldable pub await_connection : ℕ → ℕ → M (Unit {0})
    unfolding on_status
    await_connection timeout e =
        if not (is_tcp this.protocol) && e == os.errnos.einprogress
        then pure tt
        else if not (e == os.errnos.einprogress)
        then fail_by_errno
        else (wait_sock_event os this writable timeout >>= λ ready.
            if ready
            then (call os 0 >>= on_status)
            else (λ io. (unexpected (error os this io.net.errno timed_out), io)))

    unfoldable pub on_connected : ℕ → Reply → M (Unit {0})
    unfolding await_connection
    on_connected timeout (returned zero) = pure tt
    on_connected timeout (returned (suc n)) = get_errno os >>= await_connection timeout
    on_connected timeout (Reply.failed e) = get_errno os >>= await_connection timeout

    -- `connect`. The last branch of the code runs off the end of the coroutine; the result is then
    -- the promise's first value, which is a success.
    unfoldable pub connect : String → ℕ → ℕ → M (Unit {0})
    unfolding parse_address on_connected
    connect ip port timeout = parse_address os this ip port >> (call os 0 >>= on_connected timeout)

    -- `close`.
    unfoldable pub close : M (Unit {0})
    close =
        (λ io.
          (value tt, record io { net = record io.net { events = del_from this.fd io.net.events } }))
        >> (call os 0 >>= λ r. pure tt)
