-- ===== src/Event/Registry.antt =====
-- The two maps of a handler agree, and what an event with an outdated id can do.
use cgo.Base.{◌≢◌, ℕ, ◌+◌, ◌^◌, ◌≤◌, ◌<◌, ◌≡◌, refl, ◌≢◌, Bool, Option, none, some, arith}
use cgo.Event.{
  Call, Handler, EpollFlags, or_zero, add, mod_event, del, handle_one, call_if, make_handler,
}

abbrev pub fd_of : Option Call → Option ℕ
fd_of none = none
fd_of (some x) = some x.fd

-- Each descriptor leads to its own call, and ids that were not given out yet lead nowhere.
pub record IsCoherent (h : Handler) : Type 0 where
  pub owned : (fd t : ℕ) → h.fd_tids fd ≡ some t → fd_of (h.tid_calls t) ≡ some fd
  pub fresh : (t : ℕ) → h.gid ≤ t → h.tid_calls t ≡ none

pub make_handler-IsCoherent : IsCoherent make_handler
unfolding make_handler
make_handler-IsCoherent = record { owned = λ fd t e. cc; fresh = λ t l. refl }

-- An event with an id that leads nowhere is ignored.
handle_one-none :
    (k : EpollFlags) (t flags : ℕ) (h : Handler) → h.tid_calls t ≡ none → handle_one k t flags h ≡ h
unfolding handle_one call_if
handle_one-none k t flags h e = rw (e, call_if)

module _ {h : Handler} (c : IsCoherent h) (fd on fn : ℕ) (done : Bool)
    (room : h.gid + 1 < 2 ^ 32) where
  -- `add` keeps the maps in agreement while fewer than 2 ^ 32 ids were given out, whether or not
  -- epoll accepts the descriptor.
  pub add-IsCoherent : IsCoherent (add done fd on fn h).0
  unfolding add
  add-IsCoherent = record {
    owned = λ g t e. ground (arith, c.owned g t, c.fresh t);
    fresh = λ t l. ground (arith, c.fresh t);
  }

  -- `mod` on a registered descriptor keeps the maps in agreement while fewer than 2 ^ 32 ids were
  -- given out, whether or not epoll accepts it.
  pub mod_event-IsCoherent :
      (t : ℕ) → h.fd_tids fd ≡ some t → IsCoherent (mod_event done fd on fn h).0
  unfolding mod_event
  mod_event-IsCoherent t r = record {
    owned = λ g u e. ground (arith, c.owned g u, c.owned fd t, c.fresh u, c.fresh t);
    fresh = λ u l. ground (arith, c.fresh u);
  }

  -- After `mod` on a registered descriptor, with fewer than 2 ^ 32 ids given out, the new call is the
  -- one that the descriptor leads to, and an event with the old id calls nothing.
  pub mod_event-replaces :
      (k : EpollFlags) (t flags : ℕ)
      → h.fd_tids fd ≡ some t
      → let g = (mod_event done fd on fn h).0 in
        (g.tid_calls (or_zero (g.fd_tids fd)) ≡ some (record { fd = fd; on = on; fn = fn }))
        × (handle_one k t flags g ≡ g)
  unfolding mod_event handle_one
  mod_event-replaces k t flags r = (
    ground (arith, c.owned fd t, c.fresh h.gid),
    handle_one-none k t flags (mod_event done fd on fn h).0 (ground (arith, r)),
  )

  -- `mod` on a registered descriptor leaves every other registered descriptor with the id and the
  -- call that it had.
  pub mod_event-keeps :
      (t other u : ℕ)
      → h.fd_tids fd ≡ some t
      → other ≢ fd
      → h.fd_tids other ≡ some u
      → let g = (mod_event done fd on fn h).0 in
        (g.fd_tids other ≡ some u) × (g.tid_calls u ≡ h.tid_calls u)
  unfolding mod_event
  mod_event-keeps t other u r n e =
      (ground arith, ground (arith, c.owned other u, c.owned fd t, c.fresh u))

module _ {h : Handler} (c : IsCoherent h) (fd : ℕ) where
  -- `del` of a registered descriptor keeps the maps of a handler in agreement if they were.
  pub del-IsCoherent : (t : ℕ) → h.fd_tids fd ≡ some t → IsCoherent (del fd h)
  unfolding del
  del-IsCoherent t r = record {
    owned = λ g u e. ground (arith, c.owned g u, c.owned fd t);
    fresh = λ u l. ground (arith, c.fresh u);
  }

  -- `del` of a descriptor that is not registered, such as a second `del`, removes the call of the
  -- descriptor whose id is 0, which still leads to that id.
  pub del_unregistered :
      (owner : ℕ)
      → h.fd_tids fd ≡ none
      → h.fd_tids owner ≡ some 0
      → (fd_of (h.tid_calls 0) ≡ some owner)
        × ((del fd h).fd_tids owner ≡ some 0)
        × ((del fd h).tid_calls 0 ≡ none)
  unfolding del
  del_unregistered owner r o = (c.owned owner 0 o, ground arith, ground arith)
