-- ===== src/Session/Machine/Room.antt =====
-- The calls that a session makes on its room: the life of the room as a specification, and that the
-- session keeps to it.
use keycard.Prelude.{
  ℕ, String, Bool, true, false, ◌&&◌, ◌||◌, ◌==◌, ◌≡◌, ◌⊎◌, refl, Option, none, some, List, [], ◌∷◌,
  arith,
}
use keycard.Kept.{KeptRooms}
use keycard.Session.Types.{
  Session, Effect, Pump, Teardown, destroys, pauses, unstarted, scheduled, opening, late_checkout,
  pausing, destroying, new_session,
}
use keycard.Session.Tasks.Channel.{connection_made}
use keycard.Session.Machine.{Event, step, run, others}
use keycard.Session.Machine.Frame.{Frame, is_waiting, is_hang_up, step_keeps, run_keeps}

-- The life of the room. `vacant` is before there is one, `over` when there is nothing left to do.
pub data Life : Type 0 where
  vacant over : Life
  housed freezing closing : ℕ → Life

-- Where the room of a session stands.
abbrev pub life : Pump → Teardown → Option ℕ → Life
life unstarted t room = vacant
life scheduled t room = vacant
life (opening found) t room = vacant
life (late_checkout r) t room = closing r
life _ (pausing r) room = freezing r
life _ (destroying r) room = closing r
life _ _ (some r) = housed r
life _ _ none = over

-- The calls on rooms among the effects, latest first.
abbrev pub room_calls : List Effect → List Effect
room_calls [] = []
room_calls (destroys r ∷ es) = destroys r ∷ room_calls es
room_calls (pauses r ∷ es) = pauses r ∷ room_calls es
room_calls (_ ∷ es) = room_calls es

-- The calls of a life that is over: none, a destroy, a pause, or a pause and then a destroy of the
-- same room.
abbrev pub is_complete : List Effect → Bool
is_complete [] = true
is_complete (destroys r ∷ []) = true
is_complete (pauses r ∷ []) = true
is_complete (destroys r ∷ pauses q ∷ []) = r == q
is_complete _ = false

-- The calls that lead to a place in the life.
abbrev pub LeadsTo : Life → List Effect → Type 0
LeadsTo vacant calls = calls ≡ []
LeadsTo (housed r) calls = calls ≡ []
LeadsTo (freezing r) calls = calls ≡ pauses r ∷ []
LeadsTo (closing r) calls = (calls ≡ destroys r ∷ []) ⊎ (calls ≡ destroys r ∷ pauses r ∷ [])
LeadsTo over calls = is_complete calls ≡ true

abbrev is_early : Pump → Bool
is_early unstarted = true
is_early scheduled = true
is_early (opening found) = true
is_early (late_checkout r) = true
is_early _ = false

abbrev is_busy : Teardown → Bool
is_busy (pausing r) = true
is_busy (destroying r) = true
is_busy _ = false

abbrev is_held : Option ℕ → Bool
is_held none = false
is_held (some r) = true

record OneRoom (s : Session) : Type 0 where
  apart : is_early s.pump && (is_busy s.teardown || is_held s.room) ≡ false
  taken : is_busy s.teardown && is_held s.room ≡ false
  calls : LeadsTo (life s.pump s.teardown s.room) (room_calls s.effects)

Frame-OneRoom : (k : Bool) (s t : Session) → Frame k s t → OneRoom s → OneRoom t
Frame-OneRoom k s t f h = ground (arith, f.effects, f.pump, f.room, f.teardown)

module _ (can_pause : ℕ → Bool) where
  other-OneRoom :
      (e : Event) → is_waiting e ≡ false → (s : Session) → OneRoom s → OneRoom (step can_pause e s)
  unfolding step
  other-OneRoom (others move) w s h = record { apart = h.apart; taken = h.taken; calls = h.calls }
  other-OneRoom _ w s h = ground arith

  -- Whatever happens to a session, and in whatever order, the calls it has made on rooms are those
  -- that lead to where its room stands: none before there is a room and while it is held, one
  -- pause while it is frozen, a destroy, perhaps behind a pause of the same room that failed,
  -- while it is closed, and one of these or nothing when its life is over.
  pub session_keeps_to_life :
      (idle now : ℕ) (username : String) (kept : Option KeptRooms) (es : List Event)
      → let s = run can_pause es (connection_made (new_session idle username kept now)) in
        LeadsTo (life s.pump s.teardown s.room) (room_calls s.effects)
  unfolding connection_made new_session
  session_keeps_to_life idle now username kept es =
      (run_keeps can_pause OneRoom
        (λ e. step_keeps can_pause OneRoom e (Frame-OneRoom (is_hang_up e)) (other-OneRoom e)) es
        (connection_made (new_session idle username kept now))
        (record { apart = refl; taken = refl; calls = refl })).calls
