-- ===== src/Session/Machine.antt =====
-- The event loop seen from one session: an event resumes one task, calls one callback, or is a move
-- of another session on the shared registry. An event that cannot happen where the session stands
-- leaves it as it is. A cancel that is due is delivered before the task goes on by itself.
mod Frame
pub mod Registry
pub mod Once
pub mod Room
pub mod Liveness
pub mod Release
pub mod Pause
pub mod Drive
pub mod Cancel
pub mod Input
pub mod Examples
use keycard.Prelude.{
  ℕ, Bool, true, false, not, ◌&&◌, Option, none, some, List, [], ◌∷◌, ℤ, Text, if◌then◌else◌,
}
use keycard.Kept
use keycard.Kept.Ledger
use keycard.Session.Types.{
  Session, Pump, Waiter, Teardown, unstarted, scheduled, opening, dropping_kept, late_checkout,
  reading, awaiting, sleeping, waiting, created, pausing, destroying,
}
use keycard.Session.Tasks.Channel.{
  connection_made, pty_requested, terminal_size_changed, data_received, feed, notify_shutdown,
}
use keycard.Session.Tasks.Teardown.{
  is_running, run_teardown, teardown_paused, teardown_destroyed, teardown_interrupted,
}
use keycard.Session.Tasks.Run.{
  run_begin, run_refuse, run_open_failed, run_opened, run_unheard, run_chunk, run_read_ended,
  run_goodbye,
}
use keycard.Session.Tasks.Reaper.{
  session_started, idle_watchdog, idle_watchdog_end, force_close, force_close_end,
  force_close_timeout, connection_lost,
}

pub data Event : Type 0 where
  -- the pump begins; the backend gives a room or raises; the cleanup of a failed resume is over
  pump_begins : Event
  room_opened : ℕ → Event
  -- the backend gives a room, and writing the banner raises
  banner_fails : ℕ → Event
  open_fails : Event
  kept_dropped : Event
  late_checked_out : Event
  -- a read gives a chunk, or the stream ends (empty read, exception, cancel)
  reads : ℕ → Text → Event
  read_ends : Event
  -- a cancel of the pump is delivered where nothing catches it
  pump_interrupted : Event
  -- the teardown task goes on
  teardown_begins : Event
  room_paused : Option ℕ → Event
  room_destroyed : Option ℤ → Event
  teardown_is_interrupted : Event
  -- those who wait for the teardown find it ended
  pump_resumes : Event
  watchdog_resumes : Event
  closer_resumes : Event
  -- callbacks, timers and the drain
  starts : Event
  watchdog_wakes : ℕ → Event
  drain_closes : Event
  drain_gives_up : Event
  notifies : Text → Event
  hangs_up : Event
  receives : ℕ → Text → Event
  feeds : Event
  requests_pty : ℕ → ℕ → Event
  changes_size : ℕ → ℕ → Event
  channel_closes : Event
  -- another session keeps or takes, or a timer of the registry wakes
  others : Ledger.Event → Event

abbrev pub is_finished : Teardown → Bool
is_finished Teardown.finished = true
is_finished _ = false

-- A pump that awaits `open`, `resume`, `destroy_kept` or a late checkout ends on a cancel.
abbrev interruptible : Pump → Bool
interruptible scheduled = true
interruptible (opening found) = true
interruptible (dropping_kept handle) = true
interruptible (late_checkout r) = true
interruptible _ = false

abbrev registry_step : Ledger.Event → Kept.KeptRooms → Kept.KeptRooms
registry_step (Ledger.takes u) k = (Kept.take u k).1
registry_step (Ledger.keeps u handle) k = Kept.keep u handle k
registry_step (Ledger.expires u handle) k = Kept.expire u handle k

module _ (can_pause : ℕ → Bool) where
  step_pump : Event → Session → Session
  unfolding run_begin run_refuse run_open_failed run_opened run_unheard run_chunk run_read_ended
      run_goodbye
  step_pump pump_begins s = elim s.pump [
    | scheduled ↦ if s.pump_cancelled then s else run_begin s
    | _ ↦ s
  ]
  step_pump (room_opened r) s = elim s.pump [ opening found ↦ run_opened found r s | _ ↦ s ]
  step_pump (banner_fails r) s = elim s.pump [ opening found ↦ run_unheard r s | _ ↦ s ]
  step_pump open_fails s = elim s.pump [ opening found ↦ run_open_failed found s | _ ↦ s ]
  step_pump kept_dropped s = elim s.pump [ dropping_kept handle ↦ run_refuse s | _ ↦ s ]
  step_pump late_checked_out s = elim s.pump [
    | late_checkout r ↦ record s { pump = Pump.done }
    | _ ↦ s
  ]
  step_pump (reads now bytes) s = elim s.pump [
    | reading r ↦ if s.pump_cancelled then s else run_chunk now bytes s
    | _ ↦ s
  ]
  step_pump read_ends s = elim s.pump [ reading r ↦ run_read_ended s | _ ↦ s ]
  step_pump pump_interrupted s =
      if s.pump_cancelled && interruptible s.pump
      then record s { pump = Pump.done; pump_cancelled = false }
      else s
  step_pump pump_resumes s = elim s.pump [
    | awaiting ours ↦
        if is_running s.teardown
        then s
        else if is_finished s.teardown && not s.pump_cancelled
        then run_goodbye ours s
        else record s { pump = Pump.done }
    | _ ↦ s
  ]
  step_pump _ s = s

  step_teardown : Event → Session → Session
  unfolding run_teardown teardown_paused teardown_destroyed teardown_interrupted
  step_teardown teardown_begins s = elim s.teardown [
    | created allow_keep ↦ if s.teardown_cancelled then s else run_teardown can_pause allow_keep s
    | _ ↦ s
  ]
  step_teardown (room_paused outcome) s = elim s.teardown [
    | pausing r ↦ teardown_paused r outcome s
    | _ ↦ s
  ]
  step_teardown (room_destroyed outcome) s = elim s.teardown [
    | destroying r ↦ teardown_destroyed outcome s
    | _ ↦ s
  ]
  step_teardown teardown_is_interrupted s =
      if s.teardown_cancelled then teardown_interrupted s else s
  step_teardown _ s = s

  step_waiters : Event → Session → Session
  unfolding session_started
  step_waiters starts s = elim s.pump [ unstarted ↦ session_started s | _ ↦ s ]
  step_waiters (watchdog_wakes now) s = elim s.watchdog [
    | sleeping ↦
        if s.watchdog_cancelled then record s { watchdog = Waiter.ended } else idle_watchdog now s
    | _ ↦ s
  ]
  step_waiters watchdog_resumes s = elim s.watchdog [
    | waiting ↦
        if is_running s.teardown
        then s
        else if is_finished s.teardown && not s.watchdog_cancelled
        then idle_watchdog_end s
        else record s { watchdog = Waiter.ended }
    | _ ↦ s
  ]
  step_waiters drain_closes s = elim s.closer [ Waiter.absent ↦ force_close s | _ ↦ s ]
  step_waiters closer_resumes s = elim s.closer [
    | waiting ↦
        if is_running s.teardown
        then s
        else if is_finished s.teardown
        then force_close_end s
        else record s { closer = Waiter.ended }
    | _ ↦ s
  ]
  step_waiters drain_gives_up s = elim s.closer [ waiting ↦ force_close_timeout s | _ ↦ s ]
  step_waiters hangs_up s = connection_lost s
  step_waiters _ s = s

  step_channel : Event → Session → Session
  unfolding pty_requested terminal_size_changed data_received feed notify_shutdown
  step_channel (notifies message) s = notify_shutdown message s
  step_channel (receives now bytes) s = data_received now bytes s
  step_channel feeds s = feed s
  step_channel (requests_pty width height) s = pty_requested width height s
  step_channel (changes_size width height) s = terminal_size_changed width height s
  step_channel channel_closes s = record s { closing = true }
  step_channel (others move) s = record s {
    kept = elim s.kept [ none ↦ none | some k ↦ some (registry_step move k) ];
  }
  step_channel _ s = s

  -- The calls of the watchdog, the drain and a hang-up stay shut; the others open with `step`.
  -- Each event concerns one of the four groups, and the other three ignore it.
  unfoldable pub step : Event → Session → Session
  unfolding step_pump step_teardown step_waiters step_channel
  step e s = step_channel e (step_waiters e (step_teardown e (step_pump e s)))

  pub run : List Event → Session → Session
  run [] s = s
  run (e ∷ es) s = run es (step e s)
