-- ===== src/Hotel/Examples.antt =====
-- Two connections of one user.
use keycard.Prelude.{
  ℕ, ◌+◌, ◌==◌, Bool, true, false, if◌then◌else◌, refl, ◌≡◌, some, List, [], ◌∷◌, count,
}
use keycard.Prelude.Dict.{values, get, put, remove}
use keycard.Kept.Ledger.{open_ledger}
use keycard.Session.Machine.{
  starts, pump_begins, room_opened, read_ends, teardown_begins, room_paused, hangs_up,
}
use keycard.Active.{add, discard, member}
use keycard.Kept.{init, take, keep, expire, holds, enabled}
use keycard.Session.Types.{Session, new_session}
use keycard.Session.Tasks.Channel.{connection_made, stop_feeder}
use keycard.Session.Tasks.Teardown.{begin_teardown, cancel_teardown}
use keycard.Session.Tasks.Reaper.{connection_lost, cancel_pump, cancel_watchdog}
use keycard.Session.Machine.{step, is_finished}
use keycard.Session.Machine.Release.{is_cancelled}
use keycard.Hotel.{Happening, arrives, session, timer, run, open_hotel}
use keycard.Hotel.Registered.{session_at, registered_until_torn_down}
use keycard.Hotel.Reunion.{resumed_by, accounts, kept_rooms_accounted_for}

abbrev any_room : ℕ → Bool
any_room r = true

-- The room of a session of ada is kept as 70 when she hangs up; she connects again, and her second
-- session resumes it; the timer of the disconnect comes too late.
abbrev reunion : List Happening
reunion =
    arrives 60 "ada" 0
    ∷ session 0 starts
    ∷ session 0 pump_begins
    ∷ session 0 (room_opened 7)
    ∷ session 0 hangs_up
    ∷ session 0 teardown_begins
    ∷ session 0 (room_paused (some 70))
    ∷ session 0 read_ends
    ∷ arrives 60 "ada" 10
    ∷ session 1 starts
    ∷ session 1 pump_begins
    ∷ timer "ada" 70
    ∷ session 1 (room_opened 7)
    ∷ []

reunion-resumes : resumed_by 70 (run any_room reunion (open_hotel 300)).sessions ≡ 1
unfolding run step new_session connection_made connection_lost cancel_pump cancel_watchdog
    stop_feeder begin_teardown cancel_teardown expire keep take init enabled get put remove holds
    add discard member
reunion-resumes = refl

kept_rooms_accounted_for_example :
    let h = run any_room reunion (open_hotel 300) in
    let l = accounts any_room reunion (open_hotel 300) (open_ledger 300) in
    count 70 l.given
    ≡ count 70 (values h.kept.by_username)
      + resumed_by 70 h.sessions
      + count 70 h.kept.destroyed
      + count 70 l.overwritten
kept_rooms_accounted_for_example = kept_rooms_accounted_for any_room 300 70 reunion

second_guest :
    (s : Session) × (session_at 1 (run any_room reunion (open_hotel 300)).sessions ≡ some s)
    × (is_cancelled s.teardown ≡ false)
unfolding run step new_session connection_made connection_lost cancel_pump cancel_watchdog
    stop_feeder begin_teardown cancel_teardown take keep expire holds enabled init get put remove
    add discard member
second_guest = (_, refl, refl)

registered_until_torn_down_example :
    count 1 (run any_room reunion (open_hotel 300)).active.sessions
    ≡ (if is_finished second_guest.0.teardown then 0 else 1)
registered_until_torn_down_example =
    registered_until_torn_down any_room 300 1 reunion second_guest.0 second_guest.1 second_guest.2

abbrev is_one : ℕ → Bool
is_one a = a == 1

abbrev no_one : ℕ → Bool
no_one a = false
