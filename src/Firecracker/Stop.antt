-- ===== src/Firecracker/Stop.antt =====
-- `_stop`: SIGTERM, a wait, SIGKILL, and the wait for the end. Lifecycle takes its outcome: it is over, or a
-- wait raises.
use keycard.Prelude.{
  Bool, true, false, ◌≡◌, ◌⊎◌, Option, none, some, List, [], ◌∷◌, arith, Result, ok, err, Error,
  if◌then◌else◌,
}

pub data Signal : Type 0 where
  terminate kill : Signal

-- The moments at which `_stop` learns whether the process is there.
pub data Moment : Type 0 where
  called terminating grace_over killing waited : Moment

abbrev pub later : Moment → Moment
later called = terminating
later terminating = grace_over
later grace_over = killing
later _ = waited

-- Whether the process is there, under the signals that it has got by then, and what the two waits raise
-- besides a timeout.
pub record Process : Type 0 where
  pub is_alive : List Signal → Moment → Bool
  pub grace_raises : Option Error
  pub wait_raises : Option Error

-- `_stop`: what it gives, and the signals that the process got, in their order.
unfoldable pub stop_process : Process → Result (Unit {0}) × List Signal
stop_process p =
    if p.is_alive [] called
    then (if p.is_alive [] terminating
        then (elim p.grace_raises [
          | some e ↦ (err e, terminate ∷ [])
          | none ↦
              if p.is_alive (terminate ∷ []) grace_over
              then (if p.is_alive (terminate ∷ []) killing
                  then (elim p.wait_raises [
                    | some e ↦ (err e, terminate ∷ kill ∷ [])
                    | none ↦ (ok tt, terminate ∷ kill ∷ [])
                  ])
                  else (ok tt, terminate ∷ []))
              else (ok tt, terminate ∷ [])
        ])
        else (ok tt, []))
    else (ok tt, [])

-- What the kernel documents: a process that has ended stays so, and none that was sent SIGKILL is there
-- behind a wait that returned.
pub record IsMortal (p : Process) : Type 0 where
  pub stays_ended : (m : Moment) → p.is_alive [] m ≡ false → p.is_alive [] (later m) ≡ false
  pub stays_terminated :
      (m : Moment)
      → p.is_alive (terminate ∷ []) m ≡ false
      → p.is_alive (terminate ∷ []) (later m) ≡ false
  pub ends_by_kill : p.is_alive (terminate ∷ kill ∷ []) waited ≡ false

-- A stop that returns leaves no process, and one that does not was cut off in one of its waits. SIGKILL
-- goes only to a process that has had SIGTERM and outlived the grace period, and a process that had
-- ended before gets no signal.
pub stop_process_ends :
    (p : Process)
    → IsMortal p
    → let (r, signals) = stop_process p in
      (((r ≡ ok tt) × (p.is_alive signals waited ≡ false))
        ⊎ ((e : Error) × (r ≡ err e) × ((p.grace_raises ≡ some e) ⊎ (p.wait_raises ≡ some e))))
      × ((signals ≡ [])
          ⊎ ((signals ≡ terminate ∷ [])
              ⊎ ((signals ≡ terminate ∷ kill ∷ [])
                  × (p.is_alive (terminate ∷ []) grace_over ≡ true))))
      × ((p.is_alive [] called ≡ true) ⊎ (signals ≡ []))
unfolding stop_process
stop_process_ends p mortal = ground (
  arith,
  mortal.stays_ended called,
  mortal.stays_ended terminating,
  mortal.stays_ended grace_over,
  mortal.stays_ended killing,
  mortal.stays_terminated grace_over,
  mortal.stays_terminated killing,
  mortal.ends_by_kill,
)
