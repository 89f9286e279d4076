-- ===== src/Fcapi/Ready.antt =====
-- `wait_ready`: the socket of a fresh microVM is polled until it accepts a connection.
use keycard.Prelude.{
  ℕ, suc, ◌+◌, ◌*◌, ◌≤◌, ◌<◌, Bool, true, false, ◌≡◌, ◌⊎◌, ◌||◌, Option, some, arith, Result, ok,
  err, timeout_error, cancelled_error, leb, if◌then◌else◌,
}
use keycard.Prelude.Polling.{Advances, poll_until, poll_until-ends}

-- What becomes of one attempt to connect.
pub data Attempt : Type 0 where
  connects : Attempt
  -- an `OSError`
  fails : Attempt
  cancelled : Attempt

abbrev is_failure : Attempt → Bool
is_failure fails = true
is_failure _ = false

abbrev attempt_result : Attempt → Result (Unit {0})
attempt_result connects = ok tt
attempt_result fails = err timeout_error
attempt_result cancelled = err cancelled_error

-- The loop of `wait_ready`; `now` is the clock before each attempt.
unfoldable pub wait_ready : (ℕ → Attempt) → (ℕ → ℕ) → ℕ → ℕ → Option (Result (Unit {0}))
wait_ready attempt now deadline fuel =
    poll_until (λ n. leb deadline (now n) || (if is_failure (attempt n) then false else true))
      (λ n. if leb deadline (now n) then err timeout_error else attempt_result (attempt n)) fuel 0

-- If the clock advances by at least `delay` from one attempt to the next, and there is fuel for
-- `timeout / delay` attempts, the wait ends: with the timeout when the deadline has passed, and
-- before it only with a connection or a cancel.
pub wait_ready-ends :
    (attempt : ℕ → Attempt) (now : ℕ → ℕ) (start delay timeout fuel : ℕ)
    → Advances start delay now
    → timeout ≤ fuel * delay
    → (k : ℕ) × (((start + timeout ≤ now k)
          × (wait_ready attempt now (start + timeout) (suc fuel) ≡ some (err timeout_error)))
        ⊎ ((now k < start + timeout)
            × (((attempt k ≡ connects)
                  × (wait_ready attempt now (start + timeout) (suc fuel) ≡ some (ok tt)))
                ⊎ ((attempt k ≡ cancelled)
                    × (wait_ready attempt now (start + timeout) (suc fuel)
                        ≡ some (err cancelled_error))))))
unfolding wait_ready
wait_ready-ends attempt now start delay timeout fuel adv h =
    let (k, ends, stops) =
      poll_until-ends
        (λ n. leb (start + timeout) (now n) || (if is_failure (attempt n) then false else true))
        (λ n.
          if leb (start + timeout) (now n) then err timeout_error else attempt_result (attempt n))
        now start delay timeout fuel 0 adv (λ k late. ground arith) (omega (arith, h)) in
    (k, ground (arith, ends, stops))
