-- ===== src/Server.antt =====
-- src/keycard/server.py: which room a connection gets, and the drain at shutdown.
pub mod Connection
pub mod Wait
pub mod Drained
pub mod Serve
pub mod Shutdown
pub mod Startup
pub mod Examples
use keycard.Prelude.{
  ℕ, String, Bool, true, false, not, Option, none, some, List, [], ◌∷◌, ltb, if◌then◌else◌,
}
use keycard.Active.{ActiveSessions, discard}
use keycard.Config.Types.{Config, RoomConfig, resolve, plain_room}

-- The room of `session_requested`.
unfoldable pub session_room : Config → String → RoomConfig
session_room config username = elim (resolve config username) [
  | none ↦ plain_room "fallback" "ubuntu:24.04"
  | some room ↦ room
]

-- What a drain has done: whom it warned and whom it cut, and who is still registered.
pub record Drain : Type 0 where
  pub active : ActiveSessions
  pub notified : List ℕ
  pub closed : List ℕ

-- The sessions that release in a period of waiting leave the registry.
unfoldable pub release_each : (ℕ → Bool) → List ℕ → ActiveSessions → ActiveSessions
release_each ends [] s = s
release_each ends (a ∷ as') s = release_each ends as' (if ends a then discard a s else s)

-- The part of `_drain` behind the grace period: `ends` tells whose `force_close` is over in time.
unfoldable pub force_close_rest : (ℕ → Bool) → List ℕ → ActiveSessions → Drain
unfolding release_each
force_close_rest ends notified s = elim s.sessions [
  | [] ↦ record { active = s; notified = notified; closed = [] }
  | a ∷ as' ↦ record {
    active = release_each ends (a ∷ as') s;
    notified = notified;
    closed = a ∷ as';
  }
]

-- `_drain`: `leaves` tells which sessions end by themselves within the grace period.
unfoldable pub drain : (ℕ → Bool) → (ℕ → Bool) → ℕ → ActiveSessions → Drain
drain leaves ends grace s = elim s.sessions [
  | [] ↦ record { active = s; notified = []; closed = [] }
  | a ∷ as' ↦
      if ltb 0 grace
      then force_close_rest ends (a ∷ as') (release_each leaves (a ∷ as') s)
      else force_close_rest ends [] s
]
