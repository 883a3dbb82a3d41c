-- ===== src/Socket/Loops.antt =====
-- The rule for the loops of a socket's operations, and what a wait changes.
use cgo.Base.{
  ℕ, zero, suc, ◌≡◌, refl, Bool, true, false, ltb, if◌then◌else◌, Option, none, some, arith,
}
use cgo.Socket.{
  timed_out, Socket, Outcome, value, unexpected, thrown, blocked, out_of_fuel, Io, Os, M, pure,
  fail, ◌>>=◌, ◌>>◌, retry, wait_sock_event, wait_or_fail, verdict_of,
}
use cgo.Event.Contexts.{mod_in}
use cgo.Event.{mod_event}
use cgo.Socket.Decision.{permits_of, Verdict, pending, activated, expired, winner, race-eq-winner}

module _ {A : Type 0} (P : Io → Type 0) (Q : Outcome A × Io → Type 0) where
  -- What an attempt, and a wait, may leave.
  abbrev pub Attempted : Outcome (Option A) × Io → Type 0
  Attempted (value (some a), f) = Q (value a, f)
  Attempted (value none, f) = P f
  Attempted (unexpected e, f) = Q (unexpected e, f)
  Attempted (thrown, f) = Q (thrown, f)
  Attempted (blocked, f) = Q (blocked, f)
  Attempted (out_of_fuel, f) = Q (out_of_fuel, f)

  abbrev pub Paused : Outcome (Unit {0}) × Io → Type 0
  Paused (value u, f) = P f
  Paused (unexpected e, f) = Q (unexpected e, f)
  Paused (thrown, f) = Q (thrown, f)
  Paused (blocked, f) = Q (blocked, f)
  Paused (out_of_fuel, f) = Q (out_of_fuel, f)

  module _ (attempt : M (Option A)) (pause : M (Unit {0})) where
    -- One round, given what holds of the loop after it.
    retry_round :
        (fuel : ℕ)
        → ((f : Io) → P f → Paused (pause f))
        → ((f : Io) → P f → Q (retry attempt pause fuel f))
        → (r : Outcome (Option A) × Io) → Attempted r
        → Q (
            ((λ io. r) >>= λ o. elim o [
              | some a ↦ pure a
              | none ↦ pause >> retry attempt pause fuel
            ])
              r.1)
    retry_round fuel keep ih (value (some a), f) h = h
    retry_round fuel keep ih (unexpected e, f) h = h
    retry_round fuel keep ih (thrown, f) h = h
    retry_round fuel keep ih (blocked, f) h = h
    retry_round fuel keep ih (out_of_fuel, f) h = h
    retry_round fuel keep ih (value none, f) h = go (pause f) (keep f h)
      where
        go :
            (r : Outcome (Unit {0}) × Io)
            → Paused r
            → Q (((λ io. r) >>= λ u. retry attempt pause fuel) f)
        go (value u, g) k = ih g k
        go (unexpected e, g) k = k
        go (thrown, g) k = k
        go (blocked, g) k = k
        go (out_of_fuel, g) k = k

    -- An invariant of the rounds, and what it gives at each way out.
    pub retry-inv :
        ((f : Io) → P f → Attempted (attempt f))
        → ((f : Io) → P f → Paused (pause f))
        → ((f : Io) → P f → Q (out_of_fuel, f))
        → (fuel : ℕ) (io : Io) → P io
        → Q (retry attempt pause fuel io)
    unfolding retry
    retry-inv tries waits ends zero io h = ends io h
    retry-inv tries waits ends (suc fuel) io h =
        retry_round fuel waits (retry-inv tries waits ends fuel) (attempt io) (tries io h)

-- A wait makes no system call on the descriptor, and moves no bytes.
pub record IsIdle (e f : Io) : Type 0 where
  pub calls : f.calls ≡ e.calls
  pub received : f.received ≡ e.received
  pub sent : f.sent ≡ e.sent

module _ (os : Os) (this : Socket) (on timeout : ℕ) where
  wait_sock_event-IsIdle : (io : Io) → IsIdle io (wait_sock_event os this on timeout io).1
  unfolding wait_sock_event
  wait_sock_event-IsIdle io = record {
    calls = ground arith;
    received = ground arith;
    sent = ground arith;
  }

  pub wait_or_fail-IsIdle : (io : Io) → IsIdle io (wait_or_fail os this on timeout io).1
  unfolding wait_or_fail
  wait_or_fail-IsIdle io = go (wait_sock_event os this on timeout io) (wait_sock_event-IsIdle io)
    where
      go :
          (r : Outcome Bool × Io)
          → IsIdle io r.1
          → IsIdle io
              (((λ f. r) >>= λ ready.
                  if ready
                  then pure tt
                  else fail (record {
                    fd = this.fd;
                    err_code = os.errnos.etimedout;
                    err_msg = timed_out;
                  }))
                io).1
      go (value true, f) h = h
      go (value false, f) h = h
      go (unexpected e, f) h = h
      go (thrown, f) h = h
      go (blocked, f) h = h
      go (out_of_fuel, f) h = h

  -- How a wait ends, by the side that won the race.
  abbrev pub ended : Verdict → Outcome (Unit {0})
  ended activated = value tt
  ended expired =
      unexpected (record { fd = this.fd; err_code = os.errnos.etimedout; err_msg = timed_out })
  ended pending = blocked

  -- If epoll accepts the wait, it ends by the first callback that counts: the operation goes on
  -- after an event, fails with ETIMEDOUT after the timer, and is never woken if none counts.
  pub wait_or_fail-ended :
      (io : Io)
      → os.epoll_ok io.waits ≡ true
      → (wait_or_fail os this on timeout io).0
        ≡ ended (winner (ltb 0 timeout) (os.callbacks io.waits))
  unfolding wait_or_fail wait_sock_event verdict_of mod_in mod_event
  wait_or_fail-ended io ok =
      rw (ok, race-eq-winner (ltb 0 timeout) (os.callbacks io.waits))
        (go (winner (ltb 0 timeout) (os.callbacks io.waits)) _)
    where
      go :
          (v : Verdict) (f : Io)
          → (((λ g. verdict_of os (record { verdict = v; permits = permits_of v }) f) >>= λ ready.
                if ready
                then pure tt
                else fail
                    (record { fd = this.fd; err_code = os.errnos.etimedout; err_msg = timed_out }))
              f).0
            ≡ ended v
      go activated f = refl
      go expired f = refl
      go pending f = refl
