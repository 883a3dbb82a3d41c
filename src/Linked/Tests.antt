-- ===== src/Linked/Tests.antt =====
-- The queue theorems on a small heap: sentinels 1 and 2, items 3, 4 and 5.
use cgo.Base.{◌≡◌, refl, true, false, [], ◌∷◌, arith, List}
use cgo.Linked.{null, Heap, link_back, unlink_from}
use cgo.Linked.Queue.{link_back-IsQueue}
use cgo.Linked.Uses.{
  Use, pushes, pops, withdraws, done, taken, linked, uses, on_links, AllFit, IsOnly, uses-IsOnly,
}

abbrev blank : Heap
blank = λ a. record { prev = null; next = null }

abbrev empty : Heap
empty = link_back 1 2 blank

empty-IsOnly : IsOnly empty 1 2 []
unfolding link_back
empty-IsOnly = record {
  queue =
      link_back-IsQueue blank 1 2 (refl, refl) (refl, refl) (λ e. omega (arith, e))
        (λ e. omega (arith, e)) (λ e. omega (arith, e));
  alone = λ a n. (ground (arith, n), ground (arith, n));
}

-- Three items enter, the middle one is withdrawn, twice, the first one leaves, the middle one enters again.
abbrev script : List Use
script = pushes 3 ∷ pushes 4 ∷ pushes 5 ∷ withdraws 4 ∷ withdraws 4 ∷ pops ∷ pushes 4 ∷ []

script-AllFit : AllFit 1 2 script []
unfolding unlink_from
script-AllFit = (refl, (refl, (refl, (refl, (refl, (tt, (refl, tt)))))))

uses-IsOnly_example :
    let r = uses (on_links 1 2) script empty in
    (r.0 ≡ done ∷ done ∷ done ∷ linked true ∷ linked false ∷ taken 3 ∷ done ∷ [])
    × IsOnly r.1 1 2 (5 ∷ 4 ∷ [])
unfolding unlink_from
uses-IsOnly_example = uses-IsOnly 1 2 script empty [] empty-IsOnly script-AllFit
