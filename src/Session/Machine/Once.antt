-- ===== src/Session/Machine/Once.antt =====
-- A session tears its room down at most once, whichever of the four ways of ending it meet.
use keycard.Prelude.{
  ℕ, ◌+◌, ◌≤◌, String, Bool, true, false, Option, none, some, List, arith, ◌≡◌, count_if,
}
use keycard.Kept.{KeptRooms}
use keycard.Session.Types.{
  Session, Effect, Pump, Teardown, destroys, unstarted, scheduled, opening, pausing, new_session,
}
use keycard.Session.Tasks.Channel.{connection_made}
use keycard.Session.Machine.{Event, step, run, others}
use keycard.Session.Machine.Frame.{Frame, is_waiting, is_hang_up, step_keeps, run_keeps}

abbrev pub is_destroys : Effect → Bool
is_destroys (destroys r) = true
is_destroys _ = false

-- What may still lead to a call of `destroy`: a pump that may yet open a room, a room that is held,
-- a pause that may yet fail.
abbrev pump_weight : Pump → ℕ
pump_weight unstarted = 1
pump_weight scheduled = 1
pump_weight (opening found) = 1
pump_weight _ = 0

abbrev room_weight : Option ℕ → ℕ
room_weight none = 0
room_weight (some r) = 1

abbrev pause_weight : Teardown → ℕ
pause_weight (pausing r) = 1
pause_weight _ = 0

abbrev Once : Session → Type 0
Once s =
    count_if is_destroys s.effects
      + pump_weight s.pump
      + room_weight s.room
      + pause_weight s.teardown
    ≤ 1

Frame-Once : (k : Bool) (s t : Session) → Frame k s t → Once s → Once t
Frame-Once k s t f h = ground (arith, f.effects, f.pump, f.room, f.teardown)

module _ (can_pause : ℕ → Bool) where
  other-Once :
      (e : Event) → is_waiting e ≡ false → (s : Session) → Once s → Once (step can_pause e s)
  unfolding step
  other-Once (others move) w s h = h
  other-Once _ w s h = ground arith

  run-Once : (es : List Event) (s : Session) → Once s → Once (run can_pause es s)
  run-Once =
      run_keeps can_pause Once
        λ e. step_keeps can_pause Once e (Frame-Once (is_hang_up e)) (other-Once e)

  -- Whatever the order in which a session's room opens, its shell exits, its client hangs up, the
  -- reaper fires and a shutdown drains it, and whatever fails or is cancelled on the way, the
  -- session calls `destroy` on its room at most once.
  pub destroyed_once :
      (idle now : ℕ) (username : String) (kept : Option KeptRooms) (es : List Event)
      → count_if is_destroys
          (run can_pause es (connection_made (new_session idle username kept now))).effects
        ≤ 1
  unfolding connection_made new_session
  destroyed_once idle now username kept es =
      let s = connection_made (new_session idle username kept now) in
      let h : Once (run can_pause es s) = run-Once es s (omega arith) in omega arith
