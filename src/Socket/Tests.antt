-- ===== src/Socket/Tests.antt =====
-- Sockets at a scripted system.
use cgo.Base.{
  Bool, ◌<◌, arith, take, Bool-cases, inl, inr, length-take-le, ℕ, ◌≡◌, refl, ◌==◌, true, false,
  if◌then◌else◌, none, some, [], ◌∷◌,
}
use cgo.Event.{make_handler, add, mod_event}
use cgo.Event.Contexts.{mod_in}
use cgo.Socket.{
  Socket, tcp, udp, ipv4, Io, Os, Errnos, returned, got, Reply, Incoming, value, wait_sock_event,
  wait_or_fail, retry,
}
use cgo.Socket.Decision.{
  on_event, on_timer, race, new_race, expired, activated, winner, race-eq-winner,
}
use cgo.Socket.Loops.{wait_or_fail-ended}
use cgo.Socket.Sending.{Delivered, send-Delivered}
use cgo.Socket.Receiving.{HandedOn, Fits, recv-HandedOn}
use cgo.Socket.Liveness.{IsWaking, Moves, send-completes}
use cgo.Socket.Transfer.{recv, send}

abbrev peer : Socket
peer = record { fd = 9; protocol = tcp; family = ipv4 }

abbrev linux_errnos : Errnos
linux_errnos = record {
  eagain = 11;
  ewouldblock = 11;
  econnreset = 104;
  epipe = 32;
  einprogress = 115;
  etimedout = 110;
}

-- The first call would block, and the others move up to three bytes. Every wait ends by its event.
abbrev slow : Os
slow = record {
  errnos = linux_errnos;
  incoming = λ k size. if k == 0 then Incoming.failed 11 else got (take size (7 ∷ 8 ∷ []));
  reply = λ k size. if k == 0 then Reply.failed 11 else returned 2;
  source = λ k. (1, 2);
  inet_pton = λ f s. some 5;
  any_address = λ f. 0;
  epoll_added = λ k. true;
  epoll_ok = λ k. true;
  callbacks = λ k. on_timer true ∷ on_event false ∷ [];
  meanwhile = λ k net. net;
  clock = λ n. n;
}

abbrev start : Io
start = record {
  net = record {
    events = record { size = 1; handlers = λ i. (add true 9 12 0 make_handler).0 };
    timed = record {
      tid = 0;
      size = 1;
      schedulers = λ i. record { pq_timer = []; signal = none };
      signals = λ s. record { emitted = false; waited = false; notified = 0 };
      readings = 0;
      fired = [];
    };
    errno = 0;
  };
  next = 1;
  calls = 0;
  waits = 0;
  received = [];
  sent = [];
  named = [];
}

recv_waits : (recv slow peer 2 10 0 start).0 ≡ value (7 ∷ 8 ∷ [])
unfolding recv retry wait_or_fail wait_sock_event race mod_in mod_event
recv_waits = refl

send_waits : (send slow peer 4 (1 ∷ 2 ∷ 3 ∷ []) 0 start).1.sent ≡ 1 ∷ 2 ∷ 3 ∷ []
unfolding send retry wait_or_fail wait_sock_event race mod_in mod_event
send_waits = refl

race-eq-winner_example :
    race true (on_event true ∷ on_timer false ∷ on_event false ∷ []) new_race
    ≡ record { verdict = expired; permits = 1 }
race-eq-winner_example = race-eq-winner true (on_event true ∷ on_timer false ∷ on_event false ∷ [])

wait_or_fail-ended_example : (wait_or_fail slow peer 9 0 start).0 ≡ value tt
wait_or_fail-ended_example = wait_or_fail-ended slow peer 9 0 start refl

send-Delivered_example :
    Delivered start (1 ∷ 2 ∷ 3 ∷ []) (send slow peer 1 (1 ∷ 2 ∷ 3 ∷ []) 0 start)
send-Delivered_example = send-Delivered slow peer 1 (1 ∷ 2 ∷ 3 ∷ []) 0 start

slow-Fits : Fits slow
slow-Fits k size bs e = ground (arith, length-take-le {A = ℕ} size (7 ∷ 8 ∷ []))

recv-HandedOn_example : HandedOn 10 start (recv slow peer 2 10 0 start)
recv-HandedOn_example = recv-HandedOn slow peer 10 0 start slow-Fits 2

caller : Socket
caller = record { fd = 9; protocol = udp; family = ipv4 }

slow_wakes : (timed : Bool) (k : ℕ) → winner timed (slow.callbacks k) ≡ activated
slow_wakes true k = refl
slow_wakes false k = refl

slow-IsWaking : IsWaking slow
slow-IsWaking = record {
  accepts = λ k. refl;
  wakes = slow_wakes;
  reset_apart = omega arith;
  pipe_apart = omega arith;
}

first_stalls : ℕ → Bool
first_stalls k = k == 0

slow-Moves : (k size : ℕ) → 0 < size → Moves slow (first_stalls k) (slow.reply k size)
unfolding first_stalls
slow-Moves k size h = elim (Bool-cases (k == 0)) [ inl y ↦ rw y refl | inr n ↦ rw n (1, refl) ]

send-completes_example : (send slow peer 4 (1 ∷ 2 ∷ 3 ∷ []) 0 start).0 ≡ value tt
unfolding first_stalls
send-completes_example =
    send-completes slow peer slow-IsWaking first_stalls slow-Moves 4 (1 ∷ 2 ∷ 3 ∷ []) 0 start
      (omega arith)
