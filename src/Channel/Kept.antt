-- ===== src/Channel/Kept.antt =====
-- What moving one value between two messages changes, and when it succeeds.
use cgo.Base.{
  ℕ, zero, suc, ◌≡◌, refl, ◌≢◌, ap, Bool, true, false, if◌then◌else◌, ◌==◌, Option, none, some,
  arith, ◌⊎◌, ◌∙◌,
}
use cgo.Channel.{
  Env, Msg, simplex, multiplex, Status, ok, invalid_src, invalid_dst, raised, Source, Target,
  Select, invalid_select_key, is_decided, load, store, put, move, raise_signal, commit, recv_to,
  recv_from_ptr, send_from, send_to_ptr, commit_if_ok, transfer, send_to_msg,
}

-- The keys that `Select::on` lets through.
abbrev pub IsKeyed : Msg → Type 0
IsKeyed (simplex d s) = Unit {0}
IsKeyed (multiplex d s k) = k ≢ invalid_select_key

-- Whether a message can still take part in a transfer.
abbrev pub is_live : Msg → (ℕ → Select) → Bool
is_live (simplex d s) sels = true
is_live (multiplex d s k) sels = (sels s).key == invalid_select_key

module _ {V : Type 0} where
  -- `f` comes from `e` by transfers: the queues, buffers, messages and their channels are the same, and a select
  -- that was decided keeps its key.
  pub record Kept (e f : Env V) : Type 0 where
    pub chans : f.chans ≡ e.chans
    pub msgs : f.msgs ≡ e.msgs
    pub homes : f.chan_of ≡ e.chan_of
    pub offers : (s : ℕ) → (f.selects s).msgs ≡ (e.selects s).msgs
    pub stable : (s : ℕ) → is_decided s e ≡ true → (f.selects s).key ≡ (e.selects s).key

  pub Kept-refl : (e : Env V) → Kept e e
  Kept-refl e = record {
    chans = refl;
    msgs = refl;
    homes = refl;
    offers = λ s. refl;
    stable = λ s d. refl;
  }

  pub Kept-trans : {e f g : Env V} → Kept e f → Kept f g → Kept e g
  Kept-trans p q = record {
    chans = q.chans ∙ p.chans;
    msgs = q.msgs ∙ p.msgs;
    homes = q.homes ∙ p.homes;
    offers = λ s. q.offers s ∙ p.offers s;
    stable = λ s d. ground (arith, p.stable s, q.stable s);
  }

  store-Kept : (t : Target) (v : V) (e : Env V) → Kept e (store t v e)
  store-Kept (Target.cell zero) v e = record {
    chans = refl;
    msgs = refl;
    homes = refl;
    offers = λ s. refl;
    stable = λ s d. refl;
  }
  store-Kept (Target.cell (suc p)) v e = record {
    chans = refl;
    msgs = refl;
    homes = refl;
    offers = λ s. refl;
    stable = λ s d. refl;
  }
  store-Kept Target.local v e = record {
    chans = refl;
    msgs = refl;
    homes = refl;
    offers = λ s. refl;
    stable = λ s d. refl;
  }

  put-Kept : (o : Option V) (dst : Target) (e : Env V) → Kept e (put o dst e)
  unfolding put
  put-Kept none dst e = Kept-refl e
  put-Kept (some v) dst e = store-Kept dst v e

  move-Kept : (src : Source) (dst : Target) (e : Env V) → Kept e (move src dst e)
  unfolding move
  move-Kept src dst e = put-Kept (load src e) dst e

  commit-Kept : (m : Msg) (e : Env V) → IsKeyed m → is_live m e.selects ≡ true → Kept e (commit m e)
  unfolding commit raise_signal
  commit-Kept (simplex d zero) e k o = Kept-refl e
  commit-Kept (simplex d (suc s)) e k o = record {
    chans = refl;
    msgs = refl;
    homes = refl;
    offers = λ s. refl;
    stable = λ s d. refl;
  }
  commit-Kept (multiplex d s k) e h o = record {
    chans = refl;
    msgs = refl;
    homes = refl;
    offers = λ t. ground arith;
    stable = λ t d. ground arith;
  }

  put-selects : (o : Option V) (dst : Target) (e : Env V) → (put o dst e).selects ≡ e.selects
  unfolding put
  put-selects none dst e = refl
  put-selects (some v) (Target.cell zero) e = refl
  put-selects (some v) (Target.cell (suc p)) e = refl
  put-selects (some v) Target.local e = refl

  move-selects : (src : Source) (dst : Target) (e : Env V) → (move src dst e).selects ≡ e.selects
  unfolding move
  move-selects src dst e = put-selects (load src e) dst e

  commit-move-Kept :
      (m : Msg) (src : Source) (dst : Target) (e : Env V)
      → IsKeyed m
      → is_live m e.selects ≡ true
      → Kept e (commit m (move src dst e))
  commit-move-Kept m src dst e k o =
      Kept-trans (move-Kept src dst e)
        (commit-Kept m _ k (ap (is_live m) (move-selects src dst e) ∙ o))

  if-Kept :
      (b : Bool) (e : Env V) (p q : Status × Env V)
      → Kept e p.1
      → (b ≡ false → Kept e q.1)
      → Kept e (if b then p else q).1
  if-Kept true e p q h k = h
  if-Kept false e p q h k = k refl

  pub recv_to-Kept : (src : Source) (m : Msg) (e : Env V) → IsKeyed m → Kept e (recv_to src m e).1
  unfolding recv_to
  recv_to-Kept src (simplex d s) e k = commit-move-Kept (simplex d s) src (Target.cell d) e k refl
  recv_to-Kept src (multiplex d s k) e h =
      if-Kept (is_decided s e) e (invalid_src, e) _ (Kept-refl e)
        (λ o. commit-move-Kept (multiplex d s k) src (Target.cell d) e h (ground arith))

  pub recv_to-status :
      (src : Source) (m : Msg) (e : Env V)
      → (recv_to src m e).0 ≡ (if is_live m e.selects then ok else invalid_src)
  unfolding recv_to
  recv_to-status src (simplex d s) e = refl
  recv_to-status src (multiplex d s k) e = ground arith

  pub send_from-Kept :
      (m : Msg) (dst : Target) (e : Env V) → IsKeyed m → Kept e (send_from m dst e).1
  unfolding send_from
  send_from-Kept (simplex d s) dst e k = commit-move-Kept (simplex d s) (Source.cell d) dst e k refl
  send_from-Kept (multiplex d s k) dst e h =
      if-Kept (is_decided s e) e (invalid_src, e) _ (Kept-refl e)
        (λ o. commit-move-Kept (multiplex d s k) (Source.cell d) dst e h (ground arith))

  pub send_from-status :
      (m : Msg) (dst : Target) (e : Env V)
      → (send_from m dst e).0 ≡ (if is_live m e.selects then ok else invalid_src)
  unfolding send_from
  send_from-status (simplex d s) dst e = refl
  send_from-status (multiplex d s k) dst e = ground arith

  commit_if_ok-Kept :
      (d s : ℕ) (e : Env V) (r : Status × Env V)
      → Kept e r.1
      → Kept e (commit_if_ok (simplex d s) r).1
  unfolding commit_if_ok
  commit_if_ok-Kept d s e (ok, f) h = Kept-trans h (commit-Kept (simplex d s) f tt refl)
  commit_if_ok-Kept d s e (_, f) h = h

  pub commit_if_ok-status : (m : Msg) (r : Status × Env V) → (commit_if_ok m r).0 ≡ r.0
  unfolding commit_if_ok
  commit_if_ok-status m (ok, f) = refl
  commit_if_ok-status m (_, f) = refl

  pub transfer-Kept : (m n : Msg) (e : Env V) → IsKeyed m → IsKeyed n → Kept e (transfer m n e).1
  unfolding transfer
  transfer-Kept (simplex d s) n e k l =
      commit_if_ok-Kept d s e _ (recv_to-Kept (Source.cell d) n e l)
  transfer-Kept (multiplex d s k) (simplex d' s') e h l =
      commit_if_ok-Kept d' s' e _ (send_from-Kept (multiplex d s k) (Target.cell d') e h)
  transfer-Kept (multiplex d s k) (multiplex d' s' k') e h l =
      if-Kept (s == s') e (raised, e) _ (Kept-refl e)
        λ apart.
          if-Kept (is_decided s e) e (invalid_src, e) _ (Kept-refl e)
            λ o.
              if-Kept (is_decided s' e) e (invalid_dst, e) _ (Kept-refl e)
                λ o'.
                  let e1 : Env V = move (Source.cell d) (Target.cell d') e in
                  Kept-trans
                    (commit-move-Kept (multiplex d s k) (Source.cell d) (Target.cell d') e h
                      (ground arith))
                    (commit-Kept (multiplex d' s' k') (commit (multiplex d s k) e1) l (
                      ground
                        (arith, ap (λ f. f s') (move-selects (Source.cell d) (Target.cell d') e))))

  -- What the status tells about the two sides: `invalid_src` may mean either of them.
  pub transfer-status :
      (m n : Msg) (e : Env V)
      → ((transfer m n e).0 ≡ ok → (is_live m e.selects ≡ true) × (is_live n e.selects ≡ true))
        × ((transfer m n e).0 ≡ invalid_dst
            → (is_live m e.selects ≡ true) × (is_live n e.selects ≡ false))
        × ((transfer m n e).0 ≡ invalid_src
            → (is_live m e.selects ≡ false) ⊎ (is_live n e.selects ≡ false))
  unfolding transfer
  transfer-status (simplex d s) n e =
      let c = commit_if_ok-status (simplex d s) (recv_to (Source.cell d) n e) in
      let r = recv_to-status (Source.cell d) n e in
      (λ h. ground arith, λ h. ground arith, λ h. ground arith)
  transfer-status (multiplex d s k) (simplex d' s') e =
      let c =
        commit_if_ok-status (simplex d' s') (send_from (multiplex d s k) (Target.cell d') e) in
      let r = send_from-status (multiplex d s k) (Target.cell d') e in
      (λ h. ground arith, λ h. ground arith, λ h. ground arith)
  transfer-status (multiplex d s k) (multiplex d' s' k') e =
      (λ h. ground arith, λ h. ground arith, λ h. ground arith)

  -- The four operations on messages.
  module _ (e : Env V) (keyed : (m : ℕ) → IsKeyed (e.msgs m)) where
    pub recv_from_ptr-Kept : (src : Source) (m : ℕ) → Kept e (recv_from_ptr src m e).1
    unfolding recv_from_ptr
    recv_from_ptr-Kept src m = recv_to-Kept src (e.msgs m) e (keyed m)

    pub send_to_ptr-Kept : (m : ℕ) (dst : Target) → Kept e (send_to_ptr m dst e).1
    unfolding send_to_ptr
    send_to_ptr-Kept m dst = send_from-Kept (e.msgs m) dst e (keyed m)

    pub send_to_msg-Kept : (m n : ℕ) → Kept e (send_to_msg m n e).1
    unfolding send_to_msg
    send_to_msg-Kept m n = transfer-Kept (e.msgs m) (e.msgs n) e (keyed m) (keyed n)
