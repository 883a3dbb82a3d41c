-- ===== src/Event/Contexts.antt =====
-- `EventContext` of src/include/core/event.h: the handlers of a context, one to a partition.
use cgo.Base.{ℕ, ◌%◌, Bool, List, update}
use cgo.Event.{Handler, EpollFlags, add, mod_event, del, handle}

pub record EventContext : Type 0 where
  pub size : ℕ
  pub handlers : ℕ → Handler

-- The handler of `handler(i)`.
abbrev pub place : ℕ → EventContext → ℕ
place i e = i % e.size

abbrev pub handler_of : ℕ → EventContext → Handler
handler_of i e = e.handlers (place i e)

abbrev pub set_handler : ℕ → Handler → EventContext → EventContext
set_handler i h e = record e { handlers = update e.handlers (place i e) h }

-- `add`; the flag says whether it returned.
unfoldable pub add_to : Bool → ℕ → ℕ → ℕ → EventContext → EventContext × Bool
add_to done fd on fn e = let r = add done fd on fn (handler_of fd e) in (set_handler fd r.0 e, r.1)

-- `mod`.
unfoldable pub mod_in : Bool → ℕ → ℕ → ℕ → EventContext → EventContext × Bool
mod_in done fd on fn e =
    let r = mod_event done fd on fn (handler_of fd e) in (set_handler fd r.0 e, r.1)

-- `del`.
unfoldable pub del_from : ℕ → EventContext → EventContext
del_from fd e = set_handler fd (del fd (handler_of fd e)) e

-- `run_handler`, given what `epoll_wait` returned.
unfoldable pub run_handler : EpollFlags → ℕ → List (ℕ × ℕ) → EventContext → EventContext
run_handler k pindex evs e = set_handler pindex (handle k evs (handler_of pindex e)) e
