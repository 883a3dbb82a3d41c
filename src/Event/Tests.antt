-- ===== src/Event/Tests.antt =====
-- The handler theorems at a small registry.
use cgo.Base.{
  ℕ, ◌||◌, ◌≡◌, ◌<◌, ◌+◌, ◌==◌, not, ltb, if◌then◌else◌, refl, Bool, true, false, Option, none,
  some, List, [], ◌∷◌, arith,
}
use cgo.Event.{
  Handler, from_linux, to_linux, EpollFlags, make_handler, add, mod_event, del, handle_one,
}
use cgo.Event.Registry.{
  IsCoherent, make_handler-IsCoherent, add-IsCoherent, mod_event-replaces, del_unregistered,
}
use Prim.Native.Nat.{bit_or}
use cgo.Event.Flags.{from_linux-to_linux}
use cgo.Event.Wakeups.{EventLazySignal, emits, waits, comes, resumes, moves, moves-silent}
use cgo.Event.Uses.{Use, adds, mods, dels, use_all, use_all-IsCoherent}

abbrev one : Handler
one = (add true 9 1 70 make_handler).0

abbrev two : Handler
two = (add true 12 2 71 one).0

one-IsCoherent : IsCoherent one
unfolding make_handler
one-IsCoherent = add-IsCoherent make_handler-IsCoherent 9 1 70 true (omega arith)

two-IsCoherent : IsCoherent two
unfolding add make_handler
two-IsCoherent = add-IsCoherent one-IsCoherent 12 2 71 true (omega arith)

abbrev linux : EpollFlags
linux = record {
  epoll_in = 1;
  epoll_out = 4;
  epoll_err = 8;
  epoll_hup = 16;
  epoll_oneshot = 0x4000_0000;
}

mod_event-replaces_example :
    handle_one linux 0 1 (mod_event true 9 1 72 two).0 ≡ (mod_event true 9 1 72 two).0
unfolding add make_handler
mod_event-replaces_example =
    (mod_event-replaces two-IsCoherent 9 1 72 true (omega arith) linux 0 1 refl).1

del_unregistered_example : (del 33 two).tid_calls 0 ≡ none
unfolding add make_handler
del_unregistered_example = (del_unregistered two-IsCoherent 33 9 refl refl).2

abbrev reuse : List Use
reuse = adds true 9 1 70 ∷ adds false 12 2 71 ∷ mods true 9 2 72 ∷ dels 12 ∷ adds true 12 1 73 ∷ []

use_all-IsCoherent_example : IsCoherent (use_all reuse make_handler)
unfolding add mod_event del make_handler
use_all-IsCoherent_example =
    use_all-IsCoherent reuse (omega arith) (tt, (tt, ((0, refl), ((1, refl), (tt, tt)))))

-- An eventfd as its manual has it: a counter, which a write of eight bytes raises and a read of
-- eight clears.
abbrev write : ℕ → ℕ → ℕ → ℕ
write n v k = if ltb n 8 then k else k + v

abbrev read : ℕ → ℕ → Option ℕ × ℕ
read n k = if ltb n 8 || k == 0 then (none, k) else (some k, 0)

write-short : (n v k : ℕ) → n < 8 → write n v k ≡ k
write-short n v k l = ground (arith, l)

abbrev signal : EventLazySignal ℕ
signal = record {
  lazy = record { emitted = false; waited = false; notified = 0 };
  events = record { size = 1; handlers = λ i. one };
  pindex = 0;
  nowait = false;
  fd = 9;
  sig_data = 0;
  eventfd = 0;
  woken = 0;
}

abbrev is_readable : ℕ → Bool
is_readable k = not (k == 0)

moves-silent_example :
    let t = moves write read is_readable 70 (waits ∷ emits ∷ comes ∷ resumes true ∷ []) signal in
    (is_readable t.eventfd ≡ false) × (t.woken ≡ 0)
moves-silent_example =
    moves-silent write read is_readable 70 write-short (waits ∷ emits ∷ comes ∷ resumes true ∷ [])
      signal refl

from_linux-to_linux_example :
    (from_linux linux (to_linux linux 11) ≡ 11)
    × (from_linux linux (bit_or (to_linux linux 11) 16) ≡ 15)
from_linux-to_linux_example =
    from_linux-to_linux linux 11
      (record {
        epoll_in = refl;
        epoll_out = refl;
        epoll_err = refl;
        epoll_hup = refl;
        epoll_oneshot = refl;
      })
      (omega arith)
