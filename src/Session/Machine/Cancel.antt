-- ===== src/Session/Machine/Cancel.antt =====
-- What a hang-up cancels besides the pump and the watchdog.
use keycard.Prelude.{ℕ, Bool, true, false, ◌≡◌, ◌⊎◌, Option, none, List, [], ◌∷◌, arith, count_if}
use keycard.Session.Types.{
  Session, Effect, Pump, Teardown, destroys, destroys_kept, unset, pausing, created, destroying,
  cancelled, awaiting, opening,
}
use keycard.Session.Tasks.Reaper.{connection_lost, cancel_pump, cancel_watchdog}
use keycard.Session.Tasks.Channel.{stop_feeder}
use keycard.Session.Tasks.Teardown.{begin_teardown, cancel_teardown}
use keycard.Session.Machine.{
  Event, step, run, hangs_up, teardown_is_interrupted, pump_interrupted, others,
}
use keycard.Session.Machine.Frame.{Frame, is_waiting, is_hang_up, step_keeps, run_keeps}

-- While the pump waits for a teardown that is destroying the room, a hang-up cancels that teardown:
-- once the interrupt has reached it, the session has left the registry with its teardown
-- cancelled, and the exit status that it has recorded is the one from before.
pub hang_up_cancels_checkout :
    (can_pause : ℕ → Bool) (s : Session) (ours : Bool) (r : ℕ)
    → s.pump ≡ awaiting ours
    → s.teardown ≡ destroying r
    → let t = run can_pause (hangs_up ∷ teardown_is_interrupted ∷ []) s in
      (t.teardown ≡ cancelled) × (t.active ≡ false) × (t.status ≡ s.status)
unfolding run step connection_lost cancel_pump cancel_watchdog stop_feeder begin_teardown
    cancel_teardown
hang_up_cancels_checkout can_pause s ours r p d = ground arith

-- Calls that remove a room from the host.
abbrev pub is_removing : Effect → Bool
is_removing (destroys r) = true
is_removing (destroys_kept handle) = true
is_removing _ = false

-- The teardown task has the room in hand.
abbrev holds_room : Teardown → Bool
holds_room (pausing r) = true
holds_room (destroying r) = true
holds_room _ = false

record IsStuck (n : ℕ) (s : Session) : Type 0 where
  over : s.teardown ≡ cancelled
  registered : s.active ≡ true
  pump_over : (s.pump ≡ Pump.done) ⊎ ((ours : Bool) × (s.pump ≡ awaiting ours))
  same : count_if is_removing s.effects ≡ n

record IsOver (n : ℕ) (s : Session) : Type 0 where
  pump_done : s.pump ≡ Pump.done
  empty : s.room ≡ none
  idle : holds_room s.teardown ≡ false
  same : count_if is_removing s.effects ≡ n

Frame-IsStuck : (n : ℕ) (k : Bool) (s t : Session) → Frame k s t → IsStuck n s → IsStuck n t
Frame-IsStuck n k s t f h = ground (arith, f.effects, f.pump, f.active, f.teardown)

Frame-IsOver : (n : ℕ) (k : Bool) (s t : Session) → Frame k s t → IsOver n s → IsOver n t
Frame-IsOver n k s t f h = ground (arith, f.effects, f.pump, f.room, f.teardown)

module _ (can_pause : ℕ → Bool) (n : ℕ) where
  other-IsStuck :
      (e : Event)
      → is_waiting e ≡ false
      → (s : Session) → IsStuck n s
      → IsStuck n (step can_pause e s)
  unfolding step
  other-IsStuck (others move) w s h = record {
    over = h.over;
    registered = h.registered;
    pump_over = h.pump_over;
    same = h.same;
  }
  other-IsStuck _ w s h = ground arith

  run-IsStuck : (es : List Event) (s : Session) → IsStuck n s → IsStuck n (run can_pause es s)
  run-IsStuck =
      run_keeps can_pause (IsStuck n)
        λ e. step_keeps can_pause (IsStuck n) e (Frame-IsStuck n (is_hang_up e)) (other-IsStuck e)

  other-IsOver :
      (e : Event)
      → is_waiting e ≡ false
      → (s : Session) → IsOver n s
      → IsOver n (step can_pause e s)
  unfolding step
  other-IsOver (others move) w s h = record {
    pump_done = h.pump_done;
    empty = h.empty;
    idle = h.idle;
    same = h.same;
  }
  other-IsOver _ w s h = ground arith

  run-IsOver : (es : List Event) (s : Session) → IsOver n s → IsOver n (run can_pause es s)
  run-IsOver =
      run_keeps can_pause (IsOver n)
        λ e. step_keeps can_pause (IsOver n) e (Frame-IsOver n (is_hang_up e)) (other-IsOver e)

begun-IsStuck :
    (can_pause : ℕ → Bool) (s : Session) (ours allow_keep : Bool)
    → s.pump ≡ awaiting ours
    → s.teardown ≡ created allow_keep
    → s.active ≡ true
    → IsStuck
        (count_if is_removing s.effects)
        (run can_pause (hangs_up ∷ teardown_is_interrupted ∷ []) s)
unfolding run step connection_lost cancel_pump cancel_watchdog stop_feeder begin_teardown
    cancel_teardown
begun-IsStuck can_pause s ours allow_keep p d a = ground arith

-- A hang-up of a registered session, before the teardown that its pump waits for has run its first
-- line, cancels that task without running it: whatever happens later, the session stays in the
-- registry that a drain waits on, and destroys neither its room nor a kept one.
pub unbegun_teardown_never_releases :
    (can_pause : ℕ → Bool) (s : Session) (ours allow_keep : Bool) (es : List Event)
    → s.pump ≡ awaiting ours
    → s.teardown ≡ created allow_keep
    → s.active ≡ true
    → let t = run can_pause es (run can_pause (hangs_up ∷ teardown_is_interrupted ∷ []) s) in
      (t.active ≡ true) × (count_if is_removing t.effects ≡ count_if is_removing s.effects)
unbegun_teardown_never_releases can_pause s ours allow_keep es p d a =
    let h = run-IsStuck can_pause _ es _ (begun-IsStuck can_pause s ours allow_keep p d a) in
    (h.registered, h.same)

opening-IsOver :
    (can_pause : ℕ → Bool) (s : Session) (found : Option ℕ)
    → s.pump ≡ opening found
    → s.room ≡ none
    → s.teardown ≡ unset
    → IsOver (count_if is_removing s.effects) (run can_pause (hangs_up ∷ pump_interrupted ∷ []) s)
unfolding run step connection_lost cancel_pump cancel_watchdog stop_feeder begin_teardown
    cancel_teardown
opening-IsOver can_pause s found p r d = ground arith

-- A hang-up while the room is being opened or resumed, with no teardown begun, ends the pump there.
-- From then on, whatever happens, the session has no room, and neither destroys one nor drops the
-- paused room that it had claimed for the resume.
pub hang_up_strands_opening :
    (can_pause : ℕ → Bool) (s : Session) (found : Option ℕ) (es : List Event)
    → s.pump ≡ opening found
    → s.room ≡ none
    → s.teardown ≡ unset
    → let t = run can_pause es (run can_pause (hangs_up ∷ pump_interrupted ∷ []) s) in
      (t.room ≡ none) × (count_if is_removing t.effects ≡ count_if is_removing s.effects)
hang_up_strands_opening can_pause s found es p r d =
    let h = run-IsOver can_pause _ es _ (opening-IsOver can_pause s found p r d) in
    (h.empty, h.same)
