-- ===== src/Channel/Simplex.antt =====
-- The operations on simplex messages, field by field: which value goes where.
use cgo.Base.{
  ℕ, zero, suc, ◌≡◌, refl, ◌≢◌, true, false, ◌==◌, List, [], ◌∷◌, ◌++◌, arith, update, length,
}
use cgo.Channel.{
  Env, simplex, ok, put, move, raise_signal, commit, recv_to, recv_from_ptr, send_from, send_to_ptr,
  commit_if_ok, transfer, send_to_msg,
}
use cgo.Channel.Transfer.{pop_buffer, buffer_give, buffer_send_to, push_buffer, buffer_recv_from}

module _ {V : Type 0} where
  -- `f` has the memory, the local variable and the queues of `e`, and the same messages.
  record SameData (e f : Env V) : Type 0 where
    mem : f.mem ≡ e.mem
    local : f.local ≡ e.local
    chans : f.chans ≡ e.chans
    msgs : f.msgs ≡ e.msgs

  commit_simplex-SameData : (d s : ℕ) (e : Env V) → SameData e (commit (simplex d s) e)
  unfolding commit raise_signal
  commit_simplex-SameData d zero e = record { mem = refl; local = refl; chans = refl; msgs = refl }
  commit_simplex-SameData d (suc s) e = record {
    mem = refl;
    local = refl;
    chans = refl;
    msgs = refl;
  }

  -- `dst` is a simplex receiver into cell `q`.
  module _ (c dst q s : ℕ) (e : Env V) (is : e.msgs dst ≡ simplex (suc q) s) where
    pub buffer_send_to-simplex :
        (v : V) (vs : List V)
        → (e.chans c).buffer ≡ v ∷ vs
        → let r = buffer_send_to c dst e in
          (r.0 ≡ true)
          × (r.1.mem ≡ update e.mem (suc q) v)
          × (r.1.chans c ≡ record (e.chans c) { buffer = vs })
          × (r.1.msgs ≡ e.msgs)
    unfolding buffer_send_to buffer_give recv_from_ptr recv_to move put pop_buffer
    buffer_send_to-simplex v vs b =
        let k = commit_simplex-SameData (suc q) s (record e { mem = update e.mem (suc q) v }) in
        rw (b, buffer_give, is, recv_to, b, k.mem, k.chans, k.msgs) (refl, refl, ground arith, refl)

    -- A transfer from a simplex sender out of cell `p`.
    pub send_to_msg-simplex :
        (m p t : ℕ)
        → e.msgs m ≡ simplex (suc p) t
        → let r = send_to_msg m dst e in
          (r.0 ≡ ok)
          × (r.1.mem ≡ update e.mem (suc q) (e.mem (suc p)))
          × (r.1.chans ≡ e.chans)
          × (r.1.msgs ≡ e.msgs)
    unfolding send_to_msg transfer recv_to move put commit_if_ok
    send_to_msg-simplex m p t src =
        let e1 : Env V = record e { mem = update e.mem (suc q) (e.mem (suc p)) } in
        let k = commit_simplex-SameData (suc q) s e1 in
        let l = commit_simplex-SameData (suc p) t (commit (simplex (suc q) s) e1) in
        rw (src, is, recv_to, commit_if_ok, l.mem, k.mem, l.chans, k.chans, l.msgs, k.msgs)
          (refl, refl, refl, refl)

  -- `src` is a simplex sender out of cell `p`.
  pub buffer_recv_from-simplex :
      (blank : V) (c src p s : ℕ) (e : Env V)
      → e.msgs src ≡ simplex (suc p) s
      → length (e.chans c).buffer ≢ (e.chans c).capacity
      → let r = buffer_recv_from blank c src e in
        (r.0 ≡ true)
        × (r.1.mem ≡ e.mem)
        × (r.1.chans c ≡ record (e.chans c) { buffer = (e.chans c).buffer ++ e.mem (suc p) ∷ [] })
        × (r.1.msgs ≡ e.msgs)
  unfolding buffer_recv_from send_to_ptr send_from move put push_buffer
  buffer_recv_from-simplex blank c src p s e is n =
      let e1 : Env V = record e { local = e.mem (suc p) } in
      let k = commit_simplex-SameData (suc p) s e1 in
      let room : (length (e.chans c).buffer == (e.chans c).capacity) ≡ false = ground arith in
      rw (room, is, send_from, k.mem, k.chans, k.msgs, k.local) (refl, refl, ground arith, refl)
