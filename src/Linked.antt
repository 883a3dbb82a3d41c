-- ===== src/Linked.antt =====
-- The intrusive doubly linked list `BaseLinked` of src/include/core/coroutine.h. A node is an
-- address, 0 is the null pointer, and the heap gives each address its two links.
pub mod Chain
pub mod Queue
pub mod Remove
pub mod Uses
mod Tests
use cgo.Base.{ℕ, ◌≡◌, Bool, not, ◌||◌, ◌==◌, if◌then◌else◌, update, List, [], ◌∷◌}

abbrev pub Ptr : Type 0
Ptr = ℕ

abbrev pub null : Ptr
null = 0

pub record Links : Type 0 where
  pub prev : Ptr
  pub next : Ptr

abbrev pub Heap : Type 0
Heap = Ptr → Links

abbrev pub set_prev : Ptr → Ptr → Heap → Heap
set_prev p v h = update h p (record { prev = v; next = (h p).next })

abbrev pub set_next : Ptr → Ptr → Heap → Heap
set_next p v h = update h p (record { prev = (h p).prev; next = v })

unfoldable pub front : Ptr → Heap → Ptr
front this h = (h this).prev

unfoldable pub back : Ptr → Heap → Ptr
back this h = (h this).next

unfoldable pub link_back : Ptr → Ptr → Heap → Heap
link_back this bx h =
    let old_next = (h this).next in
    let h1 : Heap = set_prev bx this (set_next bx old_next (set_next this bx h)) in
    if old_next == null then h1 else set_prev old_next bx h1

unfoldable pub link_front : Ptr → Ptr → Heap → Heap
link_front this bx h =
    let old_prev = (h this).prev in
    let h1 : Heap = set_next bx this (set_prev bx old_prev (set_prev this bx h)) in
    if old_prev == null then h1 else set_next old_prev bx h1

-- The result says whether the node was linked on either side.
unfoldable pub unlink_this : Ptr → Heap → Bool × Heap
unlink_this this h =
    let old_prev = (h this).prev in
    let old_next = (h this).next in
    let h1 : Heap = if old_prev == null then h else set_next old_prev old_next h in
    let h2 : Heap = if old_next == null then h1 else set_prev old_next old_prev h1 in
    let ok = not ((h2 this).prev == null) || not ((h2 this).next == null) in
    (ok, set_prev this null (set_next this null h2))

-- The result is the unlinked node, or null.
unfoldable pub unlink_back : Ptr → Heap → Ptr × Heap
unlink_back this h =
    let x = (h this).next in
    let new_next = (h x).next in
    let h1 : Heap = set_next this new_next h in
    let h2 : Heap = if new_next == null then h1 else set_prev new_next this h1 in
    if x == null then (null, h) else (x, set_prev x null (set_next x null h2))

unfoldable pub unlink_front : Ptr → Heap → Ptr × Heap
unlink_front this h =
    let x = (h this).prev in
    let new_prev = (h x).prev in
    let h1 : Heap = set_prev this new_prev h in
    let h2 : Heap = if new_prev == null then h1 else set_next new_prev this h1 in
    if x == null then (null, h) else (x, set_prev x null (set_next x null h2))

-- `unlink_this` where a queue is seen as the list of its nodes.
unfoldable pub unlink_from : Ptr → List Ptr → List Ptr
unlink_from t [] = []
unlink_from t (x ∷ xs) = if t == x then xs else x ∷ unlink_from t xs
