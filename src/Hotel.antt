-- ===== src/Hotel.antt =====
-- The sessions of one server: they share the registry of kept rooms and that of active sessions, which
-- `serve` of src/keycard/server.py hands to each connection.
pub mod Drained
pub mod Registered
pub mod Reunion
mod Examples
use keycard.Prelude.{
  ℕ, String, Bool, true, false, ltb, ◌==◌, length, Option, none, some, List, [], ◌∷◌, if◌then◌else◌,
}
use keycard.Active as active
use keycard.Active.{ActiveSessions, add, discard}
use keycard.Kept as kept
use keycard.Kept.{KeptRooms, expire}
use keycard.Session.Types.{Session, new_session}
use keycard.Session.Tasks.Channel.{connection_made}
use keycard.Session.Machine.{Event, step}
use keycard.Session.Machine.Registry.{is_own}

pub record Hotel : Type 0 where
  pub kept : KeptRooms
  pub active : ActiveSessions
  -- the latest first; a session is known by its number of arrival, from 0
  pub sessions : List Session

pub data Happening : Type 0 where
  -- a connection of a username, with the idle timeout and the time
  arrives : ℕ → String → ℕ → Happening
  -- something happens to one of the sessions
  session : ℕ → Event → Happening
  -- an expiry timer wakes
  timer : String → ℕ → Happening

abbrev pub registry_or : KeptRooms → Option KeptRooms → KeptRooms
registry_or k none = k
registry_or k (some k') = k'

-- The session as it finds the registry.
abbrev pub seeing : KeptRooms → Session → Session
seeing k s = record s { kept = some k }

-- Whether the session of that number has not been released.
abbrev pub is_active : ℕ → List Session → Bool
is_active i [] = false
is_active i (s ∷ ss) = if i == length ss then s.active else is_active i ss

-- How often the session of that number has called `discard`.
abbrev pub discards_of : ℕ → List Session → ℕ
discards_of i [] = 0
discards_of i (s ∷ ss) = if i == length ss then s.discards else discards_of i ss

-- The registry behind a move of the session of that number: its calls of `discard` reach it, of which a
-- second finds nothing.
abbrev pub leave : ℕ → List Session → List Session → ActiveSessions → ActiveSessions
leave i before after active =
    if ltb (discards_of i before) (discards_of i after) then discard i active else active

module _ (can_pause : ℕ → Bool) where
  -- The session of that number goes on.
  unfoldable pub step_nth : ℕ → Event → KeptRooms → List Session → KeptRooms × List Session
  step_nth i e k [] = (k, [])
  step_nth i e k (s ∷ ss) =
      let (k', ss') = step_nth i e k ss in
      let t = step can_pause e (seeing k s) in
      if i == length ss then (registry_or k t.kept, t ∷ ss) else (k', s ∷ ss')

  unfoldable pub happen : Happening → Hotel → Hotel
  unfolding step_nth
  happen (arrives idle username now) h = record h {
    active = add (length h.sessions) h.active;
    sessions = connection_made (new_session idle username (some h.kept) now) ∷ h.sessions;
  }
  happen (session i e) h =
      let (k, ss) = step_nth i e h.kept h.sessions in
      if is_own e
      then record { kept = k; active = leave i h.sessions ss h.active; sessions = ss }
      else h
  happen (timer username handle) h = record h { kept = expire username handle h.kept }

  unfoldable pub run : List Happening → Hotel → Hotel
  unfolding happen
  run [] h = h
  run (x ∷ xs) h = run xs (happen x h)

-- What `serve` starts with.
abbrev pub open_hotel : ℕ → Hotel
open_hotel window = record { kept = kept.init window; active = active.init; sessions = [] }
