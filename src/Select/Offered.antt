-- ===== src/Select/Offered.antt =====
-- The messages that the listeners of a select have offered since it was made, and what the select
-- notes of them.
use cgo.Base.{
  ℕ, ◌≡◌, ◌≢◌, refl, ◌==◌, Bool, true, false, if◌then◌else◌, Option, none, some, List, [], ◌∷◌,
  ◌++◌, arith, has, has-append, Bool-cases, inl, inr, ap, ◌∙◌,
}
use cgo.Channel.Kept.{IsKeyed}
use cgo.Channel.{
  Env, Msg, simplex, invalid_select_key, Listener, drop, drop_from, multiplex, set_select,
  is_decided,
}
use cgo.Channel.Buffer.{Keyed}
use cgo.Channel.Linked.{send_to-Waits, recv_from-Waits}
use cgo.Channel.Ops.{
  set_msg, make_semaphore, await_signal, send_begin, recv_begin, finish, nowait_send, local_objects,
}
use cgo.Select.{make_select, listen, drop_all, drop_select, poll, collect_key}
use cgo.Select.Keeping.{AllSound}
use cgo.Select.Runs.{
  Step, Reach, sends, receives, tries, finishes, makes, listens, polls, collects, here, next,
  Reach-AllSound,
}

-- All messages of the first list are in the second one.
abbrev pub Noted : List ℕ → List ℕ → Type 0
Noted ms noted = (m : ℕ) → has m ms ≡ true → has m noted ≡ true

forget-Noted :
    (b : Bool) (ms old new : List ℕ)
    → (b ≡ false → new ≡ old)
    → Noted ms old
    → Noted (if b then [] else ms) new
forget-Noted true ms old new e n m h = ground (arith, h)
forget-Noted false ms old new e n m h = ap (has m) (e refl) ∙ n m h

add-Noted :
    (b : Bool) (x : ℕ) (ms old new : List ℕ)
    → new ≡ (if b then old ++ x ∷ [] else old)
    → Noted ms old
    → Noted (if b then ms ++ x ∷ [] else ms) new
add-Noted true x ms old new e n m h =
    ap (has m) e ∙ ground (arith, h, n m, has-append m ms (x ∷ []), has-append m old (x ∷ []))
add-Noted false x ms old new e n m h = ap (has m) e ∙ n m h

same-Noted : (ms old new : List ℕ) → new ≡ old → Noted ms old → Noted ms new
same-Noted ms old new e n m h = ap (has m) e ∙ n m h

module _ {V : Type 0} where
  -- The messages offered for select `s` after a step, given those before: a listener offers one, and the start and
  -- the end of the select forget them.
  abbrev pub offered_by : {e f : Env V} → Step e f → ℕ → List ℕ → List ℕ
  offered_by (listens blank t l free k) s ms = if t == s then ms ++ l.msg ∷ [] else ms
  offered_by (makes t signal unused) s ms = if t == s then [] else ms
  offered_by (polls t) s ms = if t == s then [] else ms
  offered_by (collects t) s ms = if t == s then [] else ms
  offered_by _ s ms = ms

  abbrev pub offered : {e f : Env V} → Reach e f → ℕ → List ℕ
  offered here s = []
  offered (next r st) s = offered_by st s (offered r s)

  pub set_msg-Keyed : (m : ℕ) (x : Msg) (e : Env V) → IsKeyed x → Keyed e → Keyed (set_msg m x e)
  set_msg-Keyed m x e o k i = elim (Bool-cases (m == i)) [ inl y ↦ rw y o | inr n ↦ rw n (k i) ]

  pub local_objects-Keyed :
      (cell m signal : ℕ) (e : Env V) → Keyed e → Keyed (local_objects cell m signal e)
  unfolding make_semaphore
  local_objects-Keyed cell m signal e k =
      set_msg-Keyed m (simplex cell signal) (make_semaphore signal 0 e) tt k

  -- Dropping messages changes no note of a select.
  drop-notes : (m s : ℕ) (e : Env V) → ((drop m e).selects s).msgs ≡ (e.selects s).msgs
  unfolding drop drop_from
  drop-notes m s e = go (e.chan_of m)
    where
      go : (o : Option ℕ) → ((drop_from o m e).selects s).msgs ≡ (e.selects s).msgs
      go none = refl
      go (some c) = refl

  drop_all-notes :
      (ms : List ℕ) (s : ℕ) (e : Env V) → ((drop_all ms e).selects s).msgs ≡ (e.selects s).msgs
  unfolding drop_all
  drop_all-notes [] s e = refl
  drop_all-notes (m ∷ ms) s e = drop_all-notes ms s (drop m e) ∙ drop-notes m s e

  drop_select-notes :
      (t s : ℕ) (e : Env V)
      → (t == s) ≡ false
      → ((drop_select t e).selects s).msgs ≡ (e.selects s).msgs
  unfolding drop_select
  drop_select-notes t s e n = ground (arith, n, drop_all-notes (e.selects t).msgs s e)

  poll-notes :
      (t s : ℕ) (e : Env V) → (t == s) ≡ false → ((poll t e).1.selects s).msgs ≡ (e.selects s).msgs
  unfolding poll
  poll-notes t s e n = elim (Bool-cases (is_decided t e)) [
    | inl y ↦ rw y (drop_select-notes t s e n)
    | inr o ↦ rw o (
        drop_select-notes t s
          (set_select t (record (e.selects t) { key = (e.selects t).default_key }) e) n
        ∙ ground (arith, n))
  ]

  -- A listener notes its message first.
  listen-notes :
      (blank : V) (t s : ℕ) (x : Listener) (e : Env V)
      → x.case_key ≢ invalid_select_key
      → Keyed e
      → ((listen blank t x e).1.selects s).msgs
        ≡ (if t == s then (e.selects s).msgs ++ x.msg ∷ [] else (e.selects s).msgs)
  unfolding listen
  listen-notes blank t s x e o k = elim (Bool-cases x.sends) [
    | inl y ↦ rw y ((recv_from-Waits blank x.chan x.msg false f keyed).offers s ∙ own)
    | inr n ↦ rw n ((send_to-Waits blank x.chan x.msg false f keyed).offers s ∙ own)
  ]
    where
      g : Env V
      g = set_msg x.msg (multiplex x.cell t x.case_key) e

      f : Env V
      f = set_select t (record (g.selects t) { msgs = (g.selects t).msgs ++ x.msg ∷ [] }) g

      keyed : Keyed f
      keyed = set_msg-Keyed x.msg (multiplex x.cell t x.case_key) e o k

      own :
          (f.selects s).msgs
          ≡ (if t == s then (e.selects s).msgs ++ x.msg ∷ [] else (e.selects s).msgs)
      own = ground arith

  Step-Noted :
      {e f : Env V} (st : Step e f) (s : ℕ) (ms : List ℕ)
      → Keyed e
      → Noted ms (e.selects s).msgs
      → Noted (offered_by st s ms) (f.selects s).msgs
  unfolding send_begin recv_begin await_signal nowait_send finish make_select make_semaphore
      collect_key
  Step-Noted {e} (sends blank task c cell m signal free) s ms k n =
      same-Noted ms _ _
        ((recv_from-Waits blank c m false _ (local_objects-Keyed cell m signal e k)).offers s) n
  Step-Noted {e} (receives blank task c cell m signal free) s ms k n =
      same-Noted ms _ _
        ((send_to-Waits blank c m false _ (local_objects-Keyed cell m signal e k)).offers s) n
  Step-Noted {e} (tries blank c cell m free) s ms k n =
      same-Noted ms _ _
        ((recv_from-Waits blank c m true _ (set_msg-Keyed m (simplex cell 0) e tt k)).offers s) n
  Step-Noted {e} (finishes m) s ms k n = same-Noted ms _ _ (drop-notes m s e) n
  Step-Noted {e} (makes t signal unused) s ms k n =
      forget-Noted (t == s) ms (e.selects s).msgs _ (λ o. ground (arith, o)) n
  Step-Noted {e} (listens blank t x free o) s ms k n =
      add-Noted (t == s) x.msg ms (e.selects s).msgs _ (listen-notes blank t s x e o k) n
  Step-Noted {e} (polls t) s ms k n =
      forget-Noted (t == s) ms (e.selects s).msgs _ (poll-notes t s e) n
  Step-Noted {e} (collects t) s ms k n =
      forget-Noted (t == s) ms (e.selects s).msgs _ (drop_select-notes t s e) n

  -- The select notes every message that was offered.
  pub Reach-Noted :
      {e f : Env V} (s : ℕ) → AllSound e → (r : Reach e f) → Noted (offered r s) (f.selects s).msgs
  Reach-Noted s a here = λ m h. ground (arith, h)
  Reach-Noted s a (next r st) =
      Step-Noted st s (offered r s) (Reach-AllSound a r).keyed (Reach-Noted s a r)
