-- ===== src/Event.antt =====
-- `Event` and `EventContext::Handler` of src/include/core/event.h and src/core/event.cpp. What the
-- kernel answers is an argument: whether `epoll_ctl` succeeded, and the events of `epoll_wait`. A
-- callback is a number, and calling it appends it to `called`. Descriptors are numbers.
pub mod Flags
pub mod Registry
pub mod Uses
pub mod Wakeups
pub mod Contexts
mod Tests
use Prim.Native.Nat.{bit_and, bit_or}
use cgo.Base.{
  ℕ, ◌+◌, ◌%◌, ◌^◌, ◌==◌, not, ◌||◌, Bool, true, false, if◌then◌else◌, Option, none, some, List, [],
  ◌∷◌, ◌++◌, update,
}

-- The constants IN, OUT, ERR and ONESHOT.
abbrev pub event_in : ℕ
event_in = 1

abbrev pub event_out : ℕ
event_out = 2

abbrev pub event_err : ℕ
event_err = 4

abbrev pub event_oneshot : ℕ
event_oneshot = 8

-- The flags of <sys/epoll.h>.
pub record EpollFlags : Type 0 where
  pub epoll_in : ℕ
  pub epoll_out : ℕ
  pub epoll_err : ℕ
  pub epoll_hup : ℕ
  pub epoll_oneshot : ℕ

abbrev pub meets : ℕ → ℕ → Bool
meets a b = not (bit_and a b == 0)

unfoldable pub from_linux : EpollFlags → ℕ → ℕ
from_linux k ev =
    let e1 : ℕ = if meets ev k.epoll_in then event_in else 0 in
    let e2 : ℕ = if meets ev k.epoll_out then bit_or e1 event_out else e1 in
    let e3 : ℕ = if meets ev k.epoll_err || meets ev k.epoll_hup then bit_or e2 event_err else e2 in
    if meets ev k.epoll_oneshot then bit_or e3 event_oneshot else e3

unfoldable pub to_linux : EpollFlags → ℕ → ℕ
to_linux k ev =
    let e1 : ℕ = if meets ev event_in then k.epoll_in else 0 in
    let e2 : ℕ = if meets ev event_out then bit_or e1 k.epoll_out else e1 in
    let e3 : ℕ = if meets ev event_err then bit_or e2 k.epoll_err else e2 in
    if meets ev event_oneshot then bit_or e3 k.epoll_oneshot else e3

pub record Call : Type 0 where
  pub fd : ℕ
  pub on : ℕ
  pub fn : ℕ

pub record Handler : Type 0 where
  pub tid_calls : ℕ → Option Call
  pub fd_tids : ℕ → Option ℕ
  pub gid : ℕ
  pub called : List (ℕ × ℕ)

unfoldable pub make_handler : Handler
make_handler = record { tid_calls = λ t. none; fd_tids = λ fd. none; gid = 0; called = [] }

-- `_fd_tids[fd]`, which makes an entry 0 where there is none.
abbrev pub or_zero : Option ℕ → ℕ
or_zero none = 0
or_zero (some t) = t

-- A new id for a call of `fn`.
unfoldable pub register : ℕ → ℕ → ℕ → Handler → Handler
register fd on fn h = record h {
  tid_calls = update h.tid_calls h.gid (some (record { fd = fd; on = on; fn = fn }));
  gid = (h.gid + 1) % 2 ^ 32;
}

-- `add`: the state, and whether it returned; otherwise it throws, with the entries in place.
unfoldable pub add : Bool → ℕ → ℕ → ℕ → Handler → Handler × Bool
unfolding register
add done fd on fn h =
    let h1 = register fd on fn h in
    (record h1 { fd_tids = update h1.fd_tids fd (some h.gid) }, done)

-- `mod`.
unfoldable pub mod_event : Bool → ℕ → ℕ → ℕ → Handler → Handler × Bool
unfolding register
mod_event done fd on fn h =
    let h1 = register fd on fn h in
    let h2 = record h1 { tid_calls = update h1.tid_calls (or_zero (h1.fd_tids fd)) none } in
    (record h2 { fd_tids = update h2.fd_tids fd (some h.gid) }, done)

-- `del`.
unfoldable pub del : ℕ → Handler → Handler
del fd h = record h {
  tid_calls = update h.tid_calls (or_zero (h.fd_tids fd)) none;
  fd_tids = update h.fd_tids fd none;
}

unfoldable pub call_if : Option Call → ℕ → Handler → Handler
call_if none ev h = h
call_if (some x) ev h =
    if meets x.on ev then record h { called = h.called ++ (x.fn, ev) ∷ [] } else h

-- One event of `handle`: the id that it carries, and its flags.
unfoldable pub handle_one : EpollFlags → ℕ → ℕ → Handler → Handler
unfolding call_if from_linux
handle_one k tid flags h = call_if (h.tid_calls tid) (from_linux k flags) h

-- `handle`, for the events that `epoll_wait` returned.
unfoldable pub handle : EpollFlags → List (ℕ × ℕ) → Handler → Handler
unfolding handle_one
handle k [] h = h
handle k ((tid, flags) ∷ evs) h = handle k evs (handle_one k tid flags h)
