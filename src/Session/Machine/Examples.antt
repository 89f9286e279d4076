-- ===== src/Session/Machine/Examples.antt =====
-- The theorems at concrete sessions.
use mathlib.Core.List.{flatten}
use keycard.Prelude.{
  Text, reverse, ◌+◌, ◌*◌, ◌%◌, if◌then◌else◌, ℕ, ◌≤◌, Bool, true, false, ◌≡◌, refl, Option, none,
  some, List, ◌==◌, [], ◌∷◌, ◌++◌, arith, pos, count_if, codes,
}
use keycard.Prelude.Dict.{get}
use keycard.Kept
use keycard.Session.Types.{
  Session, Pump, Output, new_session, destroys, pauses, finished, created, awaiting, opening,
  reading, unset, checked_out,
}
use keycard.Session.Tasks.Channel.{connection_made, stop_feeder}
use keycard.Session.Tasks.Teardown.{begin_teardown, cancel_teardown, checkout}
use keycard.Session.Tasks.Reaper.{
  connection_lost, cancel_pump, cancel_watchdog, force_close, force_close_end, idle_watchdog,
  hang_up_channel,
}
use keycard.Session.Machine.{
  Event, step, run, starts, pump_begins, room_opened, read_ends, pump_resumes, pump_interrupted,
  teardown_begins, room_paused, room_destroyed, teardown_is_interrupted, hangs_up, drain_closes,
  watchdog_wakes, receives, feeds, closer_resumes,
}
use keycard.Session.Machine.Once.{is_destroys, destroyed_once}
use keycard.Session.Machine.Room.{LeadsTo, life, room_calls, session_keeps_to_life}
use keycard.Session.Machine.Release.{is_ending, rooms_got, lived, released_is_torn_down}
use keycard.Session.Machine.Pause.{is_pauses, paused_needs_hang_up, paused_needs_keep}
use keycard.Session.Machine.Drive.{teardown_events, owed, exit_reports_status}
use keycard.Session.Machine.Cancel.{
  is_removing, unbegun_teardown_never_releases, hang_up_strands_opening,
}
use keycard.Session.Machine.Liveness.{is_calm, IsOver, after, teardown_ends}
use keycard.Session.Machine.Input.{sent}
use keycard.Guest.Pty
use keycard.Guest.Keystrokes.{keystrokes_reach_shell}

abbrev any_room : ℕ → Bool
any_room r = true

abbrev room_seven : ℕ → Bool
room_seven r = r == 7

abbrev pub registry : Option Kept.KeptRooms
registry = some (Kept.init 300)

abbrev fresh : Session
fresh = connection_made (new_session 60 "ada" registry 0)

abbrev opened : List Event
opened = starts ∷ pump_begins ∷ room_opened 7 ∷ []

-- The drain, a hang-up and the reaper meet while the shell runs.
abbrev race : List Event
race =
    opened
    ++ drain_closes
      ∷ hangs_up
      ∷ watchdog_wakes 100
      ∷ teardown_begins
      ∷ room_destroyed (some (pos 0))
      ∷ read_ends
      ∷ pump_resumes
      ∷ closer_resumes
      ∷ []

-- A client that hangs up and whose room is kept.
abbrev disconnect : List Event
disconnect = opened ++ hangs_up ∷ teardown_begins ∷ room_paused (some 70) ∷ read_ends ∷ []

race_destroys : count_if is_destroys (run any_room race fresh).effects ≡ 1
unfolding run step new_session connection_made connection_lost cancel_pump cancel_watchdog
    stop_feeder begin_teardown cancel_teardown force_close force_close_end idle_watchdog
    hang_up_channel Kept.take Kept.init Kept.enabled get
race_destroys = refl

destroyed_once_example :
    count_if is_destroys
      (run any_room race (connection_made (new_session 60 "ada" registry 0))).effects
    ≤ 1
destroyed_once_example = destroyed_once any_room 60 0 "ada" registry race

disconnect_released : (lived any_room 60 0 "ada" registry disconnect).active ≡ false
unfolding run step new_session connection_made connection_lost cancel_pump cancel_watchdog
    stop_feeder begin_teardown cancel_teardown force_close force_close_end idle_watchdog
    hang_up_channel Kept.take Kept.init Kept.enabled get
disconnect_released = refl

disconnect_uncancelled : (lived any_room 60 0 "ada" registry disconnect).teardown_cancelled ≡ false
unfolding run step new_session connection_made connection_lost cancel_pump cancel_watchdog
    stop_feeder begin_teardown cancel_teardown force_close force_close_end idle_watchdog
    hang_up_channel Kept.take Kept.init Kept.enabled get
disconnect_uncancelled = refl

released_is_torn_down_example :
    let s = lived any_room 60 0 "ada" registry disconnect in
    (s.teardown ≡ finished)
    × (s.room ≡ none)
    × (rooms_got any_room disconnect (connection_made (new_session 60 "ada" registry 0))
        ≤ count_if is_ending s.effects)
released_is_torn_down_example =
    released_is_torn_down any_room 60 0 "ada" registry disconnect disconnect_released
      disconnect_uncancelled

disconnect_pauses : count_if is_pauses (run room_seven disconnect fresh).effects ≡ 1
unfolding run step new_session connection_made connection_lost cancel_pump cancel_watchdog
    stop_feeder begin_teardown cancel_teardown force_close force_close_end idle_watchdog
    hang_up_channel Kept.take Kept.init Kept.enabled get
disconnect_pauses = refl

-- A shell that exits on its own.
abbrev shell_exit : List Event
shell_exit = opened ++ read_ends ∷ teardown_events none (some (pos 3)) ++ pump_resumes ∷ []

paused_needs_hang_up_example :
    count_if is_pauses
      (run any_room shell_exit (connection_made (new_session 60 "ada" registry 0))).effects
    ≡ 0
paused_needs_hang_up_example =
    paused_needs_hang_up any_room 60 0 "ada" registry shell_exit (ground arith)

paused_needs_keep_example :
    count_if is_pauses
      (run any_room disconnect
        (connection_made (new_session 60 "ada" (some (Kept.init 0)) 0))).effects
    ≡ 0
paused_needs_keep_example =
    paused_needs_keep any_room 60 0 "ada" (some (Kept.init 0)) disconnect
      (unfold Kept.init Kept.enabled new_session in refl)

-- After a hang-up at the prompt.
abbrev hung_up : Session
hung_up = run any_room (opened ++ hangs_up ∷ []) fresh

hung_up-created : hung_up.teardown ≡ created true
unfolding run step new_session connection_made connection_lost cancel_pump cancel_watchdog
    stop_feeder begin_teardown cancel_teardown force_close force_close_end idle_watchdog
    hang_up_channel Kept.take Kept.init Kept.enabled get
hung_up-created = refl

hung_up-uncancelled : hung_up.teardown_cancelled ≡ false
unfolding run step new_session connection_made connection_lost cancel_pump cancel_watchdog
    stop_feeder begin_teardown cancel_teardown force_close force_close_end idle_watchdog
    hang_up_channel Kept.take Kept.init Kept.enabled get
hung_up-uncancelled = refl

hung_up-owes : owed any_room true none hung_up ≡ destroys 7 ∷ pauses 7 ∷ []
unfolding run step new_session connection_made connection_lost cancel_pump cancel_watchdog
    stop_feeder begin_teardown cancel_teardown force_close force_close_end idle_watchdog
    hang_up_channel Kept.take Kept.init Kept.enabled get
hung_up-owes = refl

abbrev at_prompt : Session
at_prompt = run any_room opened fresh

at_prompt-reading :
    (at_prompt.pump ≡ reading 7)
    × (at_prompt.room ≡ some 7)
    × (at_prompt.teardown ≡ unset)
    × (at_prompt.teardown_cancelled ≡ false)
    × (at_prompt.closing ≡ false)
unfolding run step new_session connection_made connection_lost cancel_pump cancel_watchdog
    stop_feeder begin_teardown cancel_teardown force_close force_close_end idle_watchdog
    hang_up_channel Kept.take Kept.init Kept.enabled get
at_prompt-reading = (refl, refl, refl, refl, refl)

exit_reports_status_example :
    let t =
      run any_room
        (read_ends ∷ teardown_events none (some (pos 3)) ++ pump_resumes ∷ [])
        at_prompt in
    (t.outputs
      ≡ Output.exit (checkout (some (pos 3))) ∷ Output.destroyed checked_out ∷ at_prompt.outputs)
    × (t.effects ≡ destroys 7 ∷ at_prompt.effects)
    × (t.active ≡ false)
    × (t.pump ≡ Pump.done)
exit_reports_status_example =
    let (p, room, none_yet, clean, open') = at_prompt-reading in
    exit_reports_status any_room at_prompt 7 none (some (pos 3)) p room none_yet clean open'

-- The shell has exited, and the teardown task has not had its turn.
abbrev exiting : Session
exiting = run any_room (opened ++ read_ends ∷ []) fresh

exiting-created :
    (exiting.pump ≡ awaiting true) × (exiting.teardown ≡ created false) × (exiting.active ≡ true)
unfolding run step new_session connection_made connection_lost cancel_pump cancel_watchdog
    stop_feeder begin_teardown cancel_teardown force_close force_close_end idle_watchdog
    hang_up_channel Kept.take Kept.init Kept.enabled get
exiting-created = (refl, refl, refl)

unbegun_teardown_never_releases_example :
    let t =
      run any_room
        (teardown_begins ∷ pump_resumes ∷ drain_closes ∷ closer_resumes ∷ [])
        (run any_room (hangs_up ∷ teardown_is_interrupted ∷ []) exiting) in
    (t.active ≡ true) × (count_if is_removing t.effects ≡ count_if is_removing exiting.effects)
unbegun_teardown_never_releases_example =
    unbegun_teardown_never_releases any_room exiting true false
      (teardown_begins ∷ pump_resumes ∷ drain_closes ∷ closer_resumes ∷ []) exiting-created.0
      exiting-created.1 exiting-created.2

-- The room is being opened.
abbrev coming : Session
coming = run any_room (starts ∷ pump_begins ∷ []) fresh

coming-opening : (coming.pump ≡ opening none) × (coming.room ≡ none) × (coming.teardown ≡ unset)
unfolding run step new_session connection_made connection_lost cancel_pump cancel_watchdog
    stop_feeder begin_teardown cancel_teardown force_close force_close_end idle_watchdog
    hang_up_channel Kept.take Kept.init Kept.enabled get
coming-opening = (refl, refl, refl)

hang_up_strands_opening_example :
    let t =
      run any_room
        (teardown_begins ∷ room_opened 7 ∷ [])
        (run any_room (hangs_up ∷ pump_interrupted ∷ []) coming) in
    (t.room ≡ none) × (count_if is_removing t.effects ≡ count_if is_removing coming.effects)
hang_up_strands_opening_example =
    hang_up_strands_opening any_room coming none (teardown_begins ∷ room_opened 7 ∷ [])
      coming-opening.0 coming-opening.1 coming-opening.2

session_keeps_to_life_example :
    let s = run any_room race (connection_made (new_session 60 "ada" registry 0)) in
    LeadsTo (life s.pump s.teardown s.room) (room_calls s.effects)
session_keeps_to_life_example = session_keeps_to_life any_room 60 0 "ada" registry race

-- The teardown task, the pause and the destroy take turns; the room does not pause, and destroying it
-- raises.
abbrev in_turns : ℕ → Event
in_turns n =
    if n % 3 == 0
    then room_destroyed none
    else if n % 3 == 1
    then room_paused none
    else teardown_begins

in_turns-calm : (n : ℕ) → is_calm (in_turns n) ≡ true
in_turns-calm n = ground arith

teardown_ends_example : (k : ℕ) × IsOver (after any_room in_turns hung_up k)
teardown_ends_example =
    teardown_ends any_room in_turns hung_up in_turns-calm (λ n. (2 + 2 * n, ground arith))
      (λ n. (1 + 2 * n, ground arith)) (λ n. (2 * n, ground arith)) (rw (hung_up-created) refl)
      hung_up-uncancelled

-- A client that hangs up, and whose room cannot be paused.
abbrev pub hang_up : List Event
hang_up =
    starts
    ∷ pump_begins
    ∷ room_opened 0
    ∷ hangs_up
    ∷ teardown_begins
    ∷ room_destroyed (some (pos 0))
    ∷ pump_resumes
    ∷ []

pub hang_up-ended :
    let s = lived (λ r. false) 60 0 "ada" registry hang_up in
    (s.active ≡ false)
    × (s.teardown_cancelled ≡ false)
    × (rooms_got (λ r. false) hang_up (connection_made (new_session 60 "ada" registry 0)) ≡ 1)
unfolding run rooms_got step new_session connection_made connection_lost cancel_pump cancel_watchdog
    stop_feeder begin_teardown cancel_teardown force_close force_close_end idle_watchdog
    hang_up_channel Kept.take Kept.init Kept.enabled get
hang_up-ended = (refl, refl, refl)

-- A client comes in and types; the agent has the first bytes of it, and some of them are under way.
abbrev typing : List Event
typing = opened ++ receives 1 (codes "ls") ∷ feeds ∷ receives 2 (codes "pwd") ∷ []

abbrev first_byte : List Pty.Step
first_byte = Pty.reads (codes "l") ∷ Pty.enqueues ∷ Pty.types ∷ []

keystrokes_reach_shell_example :
    let p = Pty.run first_byte (Pty.attach_pty 1 Pty.start_pty) in
    (later : Text) × (flatten (reverse p.typed) ++ later ≡ flatten (sent typing))
unfolding run step new_session connection_made connection_lost cancel_pump cancel_watchdog
    stop_feeder begin_teardown cancel_teardown force_close force_close_end idle_watchdog
    hang_up_channel Kept.take Kept.init Kept.enabled get Pty.run Pty.step Pty.attach_pty
    Pty.read_chunk Pty.enqueue Pty.type_chunk flatten
keystrokes_reach_shell_example =
    keystrokes_reach_shell any_room fresh typing 1 first_byte (codes "s") refl (omega arith)
      (refl, (refl, (refl, tt))) refl refl
