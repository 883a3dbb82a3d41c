-- ===== src/Event/Flags.antt =====
-- The flags of `Event` and those of epoll, with the values of <sys/epoll.h> as a hypothesis.
use cgo.Base.{
  ℕ, zero, suc, ◌≡◌, refl, ◌<◌, ◌==◌, Bool, true, ◌&&◌, arith, Bool-cases, inl, inr, subst, sym,
  eq_of_==,
}
use Prim.Native.Nat.{bit_or}
use cgo.Event.{EpollFlags, from_linux, to_linux, event_err}

-- The values that the Linux headers document.
pub record IsLinux (k : EpollFlags) : Type 0 where
  pub epoll_in : k.epoll_in ≡ 1
  pub epoll_out : k.epoll_out ≡ 4
  pub epoll_err : k.epoll_err ≡ 8
  pub epoll_hup : k.epoll_hup ≡ 16
  pub epoll_oneshot : k.epoll_oneshot ≡ 1073741824

abbrev pub linux : EpollFlags
linux = record {
  epoll_in = 1;
  epoll_out = 4;
  epoll_err = 8;
  epoll_hup = 16;
  epoll_oneshot = 1073741824;
}

-- The test holds of all numbers below a bound.
abbrev all_below : ℕ → (ℕ → Bool) → Bool
all_below zero p = true
all_below (suc n) p = p n && all_below n p

all_below-holds : (n : ℕ) (p : ℕ → Bool) → all_below n p ≡ true → (i : ℕ) → i < n → p i ≡ true
all_below-holds zero p h i l = absurd (omega (arith, l))
all_below-holds (suc n) p h i l = elim (Bool-cases (i == n)) [
  | inl y ↦ subst (λ j. p j ≡ true) (sym (eq_of_== i n y)) (ground (arith, h))
  | inr o ↦ all_below-holds n p (ground (arith, h)) i (ground (arith, l, o))
]

abbrev returns_same : ℕ → Bool
returns_same e =
    (from_linux linux (to_linux linux e) == e)
    && (from_linux linux (bit_or (to_linux linux e) 16) == bit_or e event_err)

returns_same_all : all_below 16 returns_same ≡ true
unfolding from_linux to_linux
returns_same_all = refl

-- With the values of the Linux headers, every set of the flags IN, OUT, ERR and ONESHOT is the same after
-- `to_linux` and `from_linux`, and if the kernel adds EPOLLHUP, it has ERR besides.
pub from_linux-to_linux :
    (k : EpollFlags) (e : ℕ)
    → IsLinux k
    → e < 16
    → (from_linux k (to_linux k e) ≡ e)
      × (from_linux k (bit_or (to_linux k e) k.epoll_hup) ≡ bit_or e event_err)
from_linux-to_linux k e h l =
    subst
      (λ x.
        (from_linux x (to_linux x e) ≡ e)
        × (from_linux x (bit_or (to_linux x e) x.epoll_hup) ≡ bit_or e event_err))
      (sym same) (ground (arith, b), ground (arith, b))
  where
    same : k ≡ linux
    same = λ i. record {
      epoll_in = h.epoll_in i;
      epoll_out = h.epoll_out i;
      epoll_err = h.epoll_err i;
      epoll_hup = h.epoll_hup i;
      epoll_oneshot = h.epoll_oneshot i;
    }

    b : returns_same e ≡ true
    b = all_below-holds 16 returns_same returns_same_all e l
