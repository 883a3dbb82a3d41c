-- ===== src/Channel/Tests.antt =====
-- Tests of the channels, and the theorems about them at concrete states.
use cgo.Base.{
  true, ℕ, ◌+◌, ◌≡◌, refl, ap, false, if◌then◌else◌, ◌==◌, none, [], ◌∷◌, arith, inl, inr,
  Bool-cases,
}
use cgo.Sched.Fresh.{fresh}
use cgo.Channel.{Env, Chan, Msg, simplex, multiplex, invalid_src, invalid_select_key}
use cgo.Channel.Transfer.{send_to, recv_from}
use cgo.Channel.Buffer.{Keyed}
use cgo.Channel.Invariant.{Inv}
use cgo.Channel.Fifo.{Received, send_to-Received}
use cgo.Channel.Offer.{Offered, recv_from-Offered}
use cgo.Channel.Stale.{recv_from-lost, send_to-drops}

-- Message m is over cell m and signals m, but message 7 is a case of select 3, which has fired.
abbrev messages : ℕ → Msg
messages m = if m == 7 then multiplex 7 3 1 else simplex m m

abbrev with_chan : Chan ℕ → Env ℕ
with_chan x = record {
  sched = fresh 0;
  mem = λ p. 100 + p;
  local = 0;
  msgs = messages;
  chan_of = λ m. none;
  selects = λ s. record {
    signal = 50 + s;
    key = if s == 3 then 2 else invalid_select_key;
    default_key = invalid_select_key;
    msgs = [];
    listeners = [];
  };
  chans = λ c. x;
}

with_chan-Keyed : (x : Chan ℕ) → Keyed (with_chan x)
with_chan-Keyed x m = elim (Bool-cases (m == 7)) [
  | inl y ↦ rw y (λ e. omega (arith, e))
  | inr n ↦ rw n tt
]

-- A full buffer of one item, and two waiting senders.
abbrev busy_chan : Chan ℕ
busy_chan = record { capacity = 1; buffer = 42 ∷ []; senders = 1 ∷ 2 ∷ []; recvers = [] }

abbrev busy : Env ℕ
busy = with_chan busy_chan

busy-Inv : Inv 0 busy
busy-Inv = record {
  keyed = with_chan-Keyed busy_chan;
  sound = record { bounded = omega arith; one_side = inr refl; fed = inr tt; full = inl refl };
}

-- No buffer, and a receiver that is a fired select.
abbrev stale : Env ℕ
stale = with_chan (record { capacity = 0; buffer = []; senders = []; recvers = 7 ∷ 5 ∷ [] })

send_to-Received_example :
    Received 0 0 4 3 4 false busy refl (42 ∷ 101 ∷ 102 ∷ []) (send_to 0 0 4 false busy)
send_to-Received_example =
    send_to-Received 0 0 4 3 4 false busy refl busy-Inv
      ((0, 1, refl, omega arith), ((1, 2, refl, omega arith), tt))

recv_from-Offered_example :
    Offered 0 0 8 7 8 false busy refl true false (recv_from 0 0 8 false busy)
recv_from-Offered_example =
    recv_from-Offered 0 0 8 7 8 false busy refl busy-Inv refl ((1, 1, refl), ((2, 2, refl), tt))

recv_from-lost_example : (recv_from 0 0 8 false stale).0 ≡ invalid_src
recv_from-lost_example =
    ap (λ r. r.0) (recv_from-lost 0 0 8 false stale 7 8 8 7 3 1 (5 ∷ []) refl refl refl refl refl)

send_to-drops_example : ((send_to 0 0 7 false busy).1.chans 0).senders ≡ []
send_to-drops_example =
    (send_to-drops 0 0 7 7 3 1 false busy refl refl ((1, 1, refl), ((2, 2, refl), tt))).0
