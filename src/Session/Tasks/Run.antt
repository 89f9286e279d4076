-- ===== src/Session/Tasks/Run.antt =====
-- `_run`, the pump.
use keycard.Prelude.{
  ℕ, Bool, true, false, not, ◌&&◌, Option, none, some, ℤ, pos, Text, if◌then◌else◌,
}
use keycard.Kept
use keycard.Session.Types.{
  Session, opens, resumes, destroys_kept, destroys, accepted, resumed, no_room, destroyed,
  checked_out, chunk, exit, opening, dropping_kept, late_checkout, reading, awaiting, done,
}
use keycard.Session.Tasks.Channel.{call, say, stop_feeder}
use keycard.Session.Tasks.Teardown.{is_unset, begin_teardown}

-- Up to `await self._backend.resume(…)` or `open(…)`.
unfoldable pub run_begin : Session → Session
run_begin s = elim s.kept [
  | none ↦ call opens (record s { pump = opening none })
  | some k ↦
      let (found, k') = Kept.take s.username k in
      let s' = record s { kept = some k'; pump = opening found } in
      elim found [ none ↦ call opens s' | some handle ↦ call (resumes handle) s' ]
]

unfoldable pub run_refuse : Session → Session
run_refuse s = say (exit (pos 1)) (say no_room (record s { pump = done }))

-- `except Exception` round the opening.
unfoldable pub run_open_failed : Option ℕ → Session → Session
unfolding run_refuse
run_open_failed none s = run_refuse s
run_open_failed (some handle) s =
    call (destroys_kept handle) (record s { pump = dropping_kept handle })

-- The room is there; `self._room` is set.
unfoldable pub run_opened : Option ℕ → ℕ → Session → Session
run_opened kept r s =
    if is_unset s.teardown
    then (let s' = record s { room = some r; feeder = some r; pump = reading r } in
        elim kept [ none ↦ say accepted s' | some handle ↦ say resumed s' ])
    else call (destroys r) (record s { room = none; pump = late_checkout r })

-- The same where `chan.write` of the banner raises, as on a channel that has closed: the pump ends with
-- that exception before there is a feeder, and the room stays the session's.
unfoldable pub run_unheard : ℕ → Session → Session
run_unheard r s =
    if is_unset s.teardown
    then record s { room = some r; pump = done }
    else call (destroys r) (record s { room = none; pump = late_checkout r })

unfoldable pub run_chunk : ℕ → Text → Session → Session
run_chunk now bytes s = say (chunk bytes) (record s { last_activity = now })

-- The `finally` up to its `await`: on an empty read, on an exception, and on a cancel.
unfoldable pub run_read_ended : Session → Session
unfolding stop_feeder begin_teardown
run_read_ended s =
    let ours = is_unset s.teardown in
    begin_teardown false (stop_feeder (record s { pump = awaiting ours; pump_cancelled = false }))

abbrev is_set : Option ℤ → Bool
is_set none = false
is_set (some code) = true

-- The goodbye, once the teardown has ended.
unfoldable pub run_goodbye : Bool → Session → Session
run_goodbye ours s =
    let s' = record s { pump = done } in
    elim s.status [
      | none ↦ s'
      | some code ↦
          if ours && not s.closing then say (exit code) (say (destroyed checked_out) s') else s'
    ]
