-- ===== src/Session/Tasks/Reaper.antt =====
-- The other ways in which a session ends: the idle watchdog, a shutdown, and a hang-up.
use keycard.Prelude.{ℕ, ◌+◌, true, false, ℤ, pos, leb, ltb, if◌then◌else◌}
use keycard.Session.Types.{
  Session, destroyed, idle_timeout, shutting_down, exit, close, unstarted, scheduled, awaiting,
  done, absent, sleeping, waiting, ended,
}
use keycard.Session.Tasks.Channel.{say, say_if_open, stop_feeder}
use keycard.Session.Tasks.Teardown.{is_running, begin_teardown, cancel_teardown}

abbrev pub idle_exit_status : ℤ
idle_exit_status = pos 124

abbrev pub shutdown_exit_status : ℤ
shutdown_exit_status = pos 143

unfoldable pub session_started : Session → Session
session_started s = record s {
  pump = scheduled;
  watchdog = if ltb 0 s.idle_seconds then sleeping else ended;
}

-- `_idle_watchdog` when it wakes at `now`: it sleeps on while less than `idle_seconds` have passed
-- since the last traffic.
unfoldable pub idle_watchdog : ℕ → Session → Session
unfolding begin_teardown
idle_watchdog now s =
    if leb (s.last_activity + s.idle_seconds) now
    then begin_teardown false
        (say_if_open (destroyed idle_timeout) (record s { watchdog = waiting }))
    else s

unfoldable pub hang_up_channel : ℤ → Session → Session
hang_up_channel code s = if s.closing then s else say close (say (exit code) s)

unfoldable pub idle_watchdog_end : Session → Session
unfolding hang_up_channel
idle_watchdog_end s = hang_up_channel idle_exit_status (record s { watchdog = ended })

unfoldable pub force_close : Session → Session
unfolding begin_teardown
force_close s =
    begin_teardown false (say_if_open (destroyed shutting_down) (record s { closer = waiting }))

unfoldable pub force_close_end : Session → Session
unfolding hang_up_channel
force_close_end s = hang_up_channel shutdown_exit_status (record s { closer = ended })

-- `wait_for` gives up on `force_close` and cancels it.
unfoldable pub force_close_timeout : Session → Session
unfolding cancel_teardown
force_close_timeout s = cancel_teardown (record s { closer = ended })

-- `Task.cancel` on the pump: it goes to the task that the pump awaits, if that has not ended.
unfoldable pub cancel_pump : Session → Session
unfolding cancel_teardown
cancel_pump s = elim s.pump [
  | unstarted ↦ s
  | done ↦ s
  | awaiting ours ↦
      if is_running s.teardown then cancel_teardown s else record s { pump_cancelled = true }
  | _ ↦ record s { pump_cancelled = true }
]

unfoldable pub cancel_watchdog : Session → Session
unfolding cancel_teardown
cancel_watchdog s = elim s.watchdog [
  | absent ↦ s
  | ended ↦ s
  | sleeping ↦ record s { watchdog_cancelled = true }
  | waiting ↦
      if is_running s.teardown then cancel_teardown s else record s { watchdog_cancelled = true }
]

unfoldable pub connection_lost : Session → Session
connection_lost s = begin_teardown true (cancel_watchdog (stop_feeder (cancel_pump s)))
