-- ===== src/Session/Machine/Drive.antt =====
-- A teardown that nothing cancels runs to its end, whatever its calls give back.
use keycard.Prelude.{
  ℕ, Bool, false, ◌&&◌, ◌≡◌, Option, none, some, List, [], ◌∷◌, ◌++◌, arith, ℤ, if◌then◌else◌,
}
use keycard.Session.Types.{
  Session, Effect, Pump, Output, checked_out, pauses, destroys, created, finished, reading, unset,
}
use keycard.Session.Tasks.Teardown.{keep_enabled, checkout}
use keycard.Session.Machine.{
  Event, step, run, teardown_begins, room_paused, room_destroyed, read_ends, pump_resumes,
}

-- The calls that a teardown owes the room, latest first.
abbrev pub owed : (ℕ → Bool) → Bool → Option ℕ → Session → List Effect
owed can_pause allow_keep paused s = elim s.room [
  | none ↦ []
  | some r ↦
      if allow_keep && (keep_enabled s && can_pause r)
      then (elim paused [ none ↦ destroys r ∷ pauses r ∷ [] | some handle ↦ pauses r ∷ [] ])
      else destroys r ∷ []
]

-- The events of a teardown task, from its beginning to its end.
abbrev pub teardown_events : Option ℕ → Option ℤ → List Event
teardown_events paused destroyed =
    teardown_begins ∷ room_paused paused ∷ room_destroyed destroyed ∷ []

module _ (can_pause : ℕ → Bool) where
  -- A teardown that has been created and is not cancelled ends, whether `pause` and `destroy`
  -- return or raise: the session has left the registry and holds no room, and the calls made are
  -- exactly one `destroy`, or one `pause` where keeping is asked for, enabled and allowed, with a
  -- `destroy` after a pause that raised; or none where there was no room.
  pub teardown_completes :
      (s : Session) (allow_keep : Bool) (paused : Option ℕ) (destroyed : Option ℤ)
      → s.teardown ≡ created allow_keep
      → s.teardown_cancelled ≡ false
      → let t = run can_pause (teardown_events paused destroyed) s in
        (t.teardown ≡ finished)
        × (t.active ≡ false)
        × (t.room ≡ none)
        × (t.effects ≡ owed can_pause allow_keep paused s ++ s.effects)
  unfolding run step
  teardown_completes s allow_keep paused destroyed begun clean = ground arith

  -- A shell that exits on its own, with no teardown under way and the channel open, and nothing else
  -- that happens to the session until its teardown has run to the end and the pump has gone on: the
  -- room is destroyed and not paused, whatever a pause would have given, and the client is told so
  -- and given the status that `destroy` returned, or 1 where it raised.
  pub exit_reports_status :
      (s : Session) (r : ℕ) (paused : Option ℕ) (destroyed : Option ℤ)
      → s.pump ≡ reading r
      → s.room ≡ some r
      → s.teardown ≡ unset
      → s.teardown_cancelled ≡ false
      → s.closing ≡ false
      → let t =
          run can_pause (read_ends ∷ teardown_events paused destroyed ++ pump_resumes ∷ []) s in
        (t.outputs ≡ Output.exit (checkout destroyed) ∷ Output.destroyed checked_out ∷ s.outputs)
        × (t.effects ≡ destroys r ∷ s.effects)
        × (t.active ≡ false)
        × (t.pump ≡ Pump.done)
  unfolding run step
  exit_reports_status s r paused destroyed p room none_yet clean open' = ground arith
