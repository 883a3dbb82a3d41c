-- ===== src/Event/Uses.antt =====
-- A handler over its life: calls of `add`, `mod` and `del` in any order.
use cgo.Base.{ℕ, ◌+◌, ◌^◌, ◌<◌, ◌≤◌, ◌≡◌, Bool, some, List, [], ◌∷◌, arith, length}
use cgo.Event.{Handler, add, mod_event, del, make_handler, register}
use cgo.Event.Registry.{
  IsCoherent, make_handler-IsCoherent, add-IsCoherent, mod_event-IsCoherent, del-IsCoherent,
}

-- A call with its arguments; of `add` and `mod`, also whether epoll accepts it.
pub data Use : Type 0 where
  adds mods : Bool → ℕ → ℕ → ℕ → Use
  dels : ℕ → Use

abbrev pub use_handler : Use → Handler → Handler
use_handler (adds done fd on fn) h = (add done fd on fn h).0
use_handler (mods done fd on fn) h = (mod_event done fd on fn h).0
use_handler (dels fd) h = del fd h

abbrev pub use_all : List Use → Handler → Handler
use_all [] h = h
use_all (u ∷ us) h = use_all us (use_handler u h)

-- `mod` and `del` are for registered descriptors.
abbrev pub IsKnown : Use → Handler → Type 0
IsKnown (adds done fd on fn) h = Unit {0}
IsKnown (mods done fd on fn) h = (t : ℕ) × (h.fd_tids fd ≡ some t)
IsKnown (dels fd) h = (t : ℕ) × (h.fd_tids fd ≡ some t)

abbrev pub AllKnown : List Use → Handler → Type 0
AllKnown [] h = Unit {0}
AllKnown (u ∷ us) h = IsKnown u h × AllKnown us (use_handler u h)

-- One call keeps the maps in agreement, and gives out at most one id.
use_handler-IsCoherent :
    (u : Use) (h : Handler)
    → IsCoherent h
    → h.gid + 1 < 2 ^ 32
    → IsKnown u h
    → IsCoherent (use_handler u h) × ((use_handler u h).gid ≤ h.gid + 1)
unfolding add mod_event del register
use_handler-IsCoherent (adds done fd on fn) h c r k =
    (add-IsCoherent c fd on fn done r, ground arith)
use_handler-IsCoherent (mods done fd on fn) h c r (t, k) =
    (mod_event-IsCoherent c fd on fn done r t k, ground arith)
use_handler-IsCoherent (dels fd) h c r (t, k) = (del-IsCoherent c fd t k, ground arith)

use_all-keeps :
    (us : List Use) (h : Handler)
    → IsCoherent h
    → h.gid + length us < 2 ^ 32
    → AllKnown us h
    → IsCoherent (use_all us h)
use_all-keeps [] h c r k = c
use_all-keeps (u ∷ us) h c r (k, ks) =
    let s = use_handler-IsCoherent u h c (omega (arith, r)) k in
    use_all-keeps us (use_handler u h) s.0 (omega (arith, r, s.1)) ks

-- After fewer than 2 ^ 32 calls of `add`, `mod` and `del` on a new handler, in any order, with any
-- answers of epoll, and the latter two only for descriptors that are registered, each registered
-- descriptor leads to its own call, and ids that were not given out lead nowhere.
pub use_all-IsCoherent :
    (us : List Use)
    → length us < 2 ^ 32
    → AllKnown us make_handler
    → IsCoherent (use_all us make_handler)
unfolding make_handler
use_all-IsCoherent us l k =
    use_all-keeps us make_handler make_handler-IsCoherent (omega (arith, l)) k
